-- ===== src/Bundle/Serialise.antt =====
-- lo_bundle_serialise, and the accessors lo_bundle_get_type, lo_bundle_get_bundle and
-- lo_bundle_get_message.
use liblo.Base.{
  ℕ, zero, suc, ◌+◌, ◌-◌, Bool, Option, none, some, List, [], ◌∷◌, ◌++◌, Bytes, take, drop,
  replicate, get_elem?, overwrite, blit, codes, ltb, ◌==◌, if◌then◌else◌,
}
use liblo.Osc.{store32, lo_otoh32}
use liblo.Message.{lo_message_serialise, lo_message_length}
use liblo.Bundle.State.{Element, message, bundle, Bundle, Heap, lo_bundle_length}

-- What comes of a buffer: it is returned; NULL is returned, and the buffer is left as it is; NULL
-- is returned and the buffer has been freed; or the fuel ends.
pub data Written : Type 0 where
  written null : Bytes → Written
  freed no_fuel : Written

-- The buffer with the bytes before it.
unfoldable pub behind : Bytes → Written → Written
behind bs (written to) = written (bs ++ to)
behind bs (null to) = null (bs ++ to)
behind bs freed = freed
behind bs no_fuel = no_fuel

-- The end of a round at `pos`: `skip` is the size of the element, `body` the memory from
-- `pos + 4` on with the element in it, `room` the bytes from `pos` to the end of the bundle.
unfoldable pub close_element : Bool → ℕ → Bytes → Bytes → ℕ → (Bytes → ℕ → Written) → Written
close_element big skip pos body room next =
    let filled = overwrite (take 4 pos) (lo_otoh32 big (store32 big skip)) ++ body in
    if ltb room (skip + 4)
    then null filled
    else behind (take (skip + 4) filled) (next (drop (skip + 4) filled) (room - (skip + 4)))

-- An element that is a bundle: `sent` is the size that the nested call sets, and its outcome. That
-- it returns NULL is not looked at.
unfoldable pub close_bundle : Bool → ℕ × Written → Bytes → ℕ → (Bytes → ℕ → Written) → Written
close_bundle big (skip, written body) pos room next = close_element big skip pos body room next
close_bundle big (skip, null body) pos room next = close_element big skip pos body room next
close_bundle big (skip, freed) pos room next = freed
close_bundle big (skip, no_fuel) pos room next = no_fuel

-- The loop over the elements, at `pos`; `nested` is the call for a nested bundle.
unfoldable pub serialise_elements :
    Bool → Heap → (ℕ → Bytes → ℕ × Written) → List Element → Bytes → ℕ → Written
serialise_elements big h nested [] pos room = if room == 0 then written pos else freed
serialise_elements big h nested (message path m ∷ es) pos room =
    close_element big (lo_message_length (h.messages m) path) pos
      (lo_message_serialise big (h.messages m) path (some (drop 4 pos))) room
      (λ pos' room'. serialise_elements big h nested es pos' room')
serialise_elements big h nested (bundle c ∷ es) pos room =
    close_bundle big (nested c (drop 4 pos)) pos room
      (λ pos' room'. serialise_elements big h nested es pos' room')

-- The name and the time tag at the start of the buffer.
unfoldable pub put_header : Bool → Bundle → Bytes → Bytes
put_header big v to =
    let named = overwrite to (codes "#bundle" ++ 0 ∷ []) in
    let with_sec = blit 8 named (lo_otoh32 big (store32 big v.ts.sec)) in
    blit 12 with_sec (lo_otoh32 big (store32 big v.ts.frac))

unfoldable pub serialise_sized : Bool → Heap → (ℕ → Bytes → ℕ × Written) → ℕ → Bytes → ℕ → Written
serialise_sized big h nested b to s =
    let filled = put_header big (h.bundles b) to in
    behind (take 16 filled)
      (serialise_elements big h nested (h.bundles b).elmnts (drop 16 filled) (s - 16))

-- Into the buffer `to`: the size, and the outcome.
unfoldable pub serialise_bundle : Bool → Heap → ℕ → ℕ → Bytes → ℕ × Written
serialise_bundle big h zero b to = (0, no_fuel)
serialise_bundle big h (suc fuel) b to =
    let nested = serialise_bundle big h fuel in
    elim (lo_bundle_length h (suc fuel) b) [
      | none ↦ (0, no_fuel)
      | some s ↦ (s, serialise_sized big h nested b to s)
    ]

-- Without a buffer of the caller the memory comes from `calloc`.
unfoldable pub lo_bundle_serialise : Bool → Heap → ℕ → ℕ → Option Bytes → ℕ × Written
lo_bundle_serialise big h fuel b (some to) = serialise_bundle big h fuel b to
lo_bundle_serialise big h fuel b none = elim (lo_bundle_length h fuel b) [
  | none ↦ (0, no_fuel)
  | some s ↦ serialise_bundle big h fuel b (replicate s 0)
]

-- `LO_ELEMENT_MESSAGE` and `LO_ELEMENT_BUNDLE`.
abbrev pub element_message : ℕ
element_message = 1

abbrev pub element_bundle : ℕ
element_bundle = 2

-- The index is not negative.
unfoldable pub lo_bundle_get_type : Bundle → ℕ → ℕ
lo_bundle_get_type v index = elim (get_elem? v.elmnts index) [
  | none ↦ 0
  | some (message _ _) ↦ element_message
  | some (bundle _) ↦ element_bundle
]

unfoldable pub lo_bundle_get_bundle : Bundle → ℕ → Option ℕ
lo_bundle_get_bundle v index = elim (get_elem? v.elmnts index) [
  | some (bundle c) ↦ some c
  | _ ↦ none
]

-- The message and its path.
unfoldable pub lo_bundle_get_message : Bundle → ℕ → Option (ℕ × Bytes)
lo_bundle_get_message v index = elim (get_elem? v.elmnts index) [
  | some (message path m) ↦ some (m, path)
  | _ ↦ none
]
