-- ===== src/Server/Places.antt =====
-- The block that dispatch_method of src/server.c allocates for the arguments that it coerces.
use liblo.Base.{
  ℕ, suc, ◌+◌, ◌≤◌, ◌≡◌, refl, ap, subst, Bool, true, none, some, List, [], ◌∷◌, map, Bytes, length,
  drop, arith, append-nil,
}
use liblo.Osc.{lo_arg_size}
use liblo.Argument.{Arg}
use liblo.Message.Values.{type_chars, host_data}
use liblo.Message.Wire.{AllArgs}
use liblo.Server.Coerce.{lo_can_coerce_spec, IsSpec}
use liblo.Server.Hires.{Conversions, lo_coerce}
use liblo.Server.Calls.{Server, coerce_args}
use liblo.Server.Fits.{AllCoerce, all_coerce}

-- The bytes that dispatch_method allocates: `opsize` after its first loop.
unfoldable pub opsize : Bool → Bytes → Bytes → Bytes → ℕ
opsize big typespec [] ptr = 0
opsize big [] (t ∷ types) ptr = 0
opsize big (u ∷ typespec) (t ∷ types) ptr =
    lo_arg_size big u ptr + opsize big typespec types (drop (lo_arg_size big t ptr) ptr)

-- The second loop: `data_co_ptr`, as its distance from the block, and what lo_coerce writes there.
unfoldable pub places : Bool → Conversions → Bytes → Bytes → Bytes → ℕ → List (ℕ × Bytes)
places big c typespec [] ptr at = []
places big c [] (t ∷ types) ptr at = []
places big c (u ∷ typespec) (t ∷ types) ptr at =
    let bytes : Bytes = elim (lo_coerce big c u t ptr) [ none ↦ [] | some bytes ↦ bytes ] in
    (at, bytes)
    ∷ places big c typespec types (drop (lo_arg_size big t ptr) ptr) (at + lo_arg_size big u bytes)

-- No place begins before the end of the one before it, and the last ends within the block.
abbrev pub Within : ℕ → ℕ → List (ℕ × Bytes) → Type 0
Within from limit [] = from ≤ limit
Within from limit ((at, bytes) ∷ rest) = (from ≤ at) × Within (at + length bytes) limit rest

from_before :
    (low high limit : ℕ) (ps : List (ℕ × Bytes))
    → low ≤ high
    → Within high limit ps
    → Within low limit ps
from_before low high limit [] le within = omega arith
from_before low high limit ((at, bytes) ∷ rest) le within = (omega (arith, within.0), within.1)

places-Within :
    (big : Bool) (c : Conversions) (spec types ptr : Bytes) (at : ℕ)
    → AllCoerce big c spec types ptr
    → Within at (at + opsize big spec types ptr) (places big c spec types ptr at)
unfolding places opsize
places-Within big c spec [] ptr at all = omega arith
places-Within big c [] (t ∷ types) ptr at all = absurd all
places-Within big c (u ∷ spec) (t ∷ types) ptr at ((bytes, done, fits), all) =
    let next = at + lo_arg_size big u bytes in
    let rest = drop (lo_arg_size big t ptr) ptr in
    let later : Within next (next + opsize big spec types rest)
        (places big c spec types rest next) =
      places-Within big c spec types rest next all in
    let ends : next + opsize big spec types rest
        ≡ at + (lo_arg_size big u ptr + opsize big spec types rest) =
      omega (arith, fits.1) in
    rw done (
      omega arith,
      from_before (at + length bytes) next _ _ (omega (arith, fits.0, fits.1))
          (subst (λ n. Within next n (places big c spec types rest next)) ends later),
    )

-- The bytes of the places are the coerced arguments of the call.
places-coerce_args :
    (s : Server) (spec types ptr : Bytes) (at : ℕ)
    → map (λ p. p.1) (places s.platform.big s.conversions spec types ptr at)
      ≡ coerce_args s spec types ptr
unfolding places coerce_args
places-coerce_args s spec [] ptr at = refl
places-coerce_args s [] (t ∷ types) ptr at = refl
places-coerce_args s (u ∷ spec) (t ∷ types) ptr at =
    let big = s.platform.big in
    ap (λ r. (elim (lo_coerce big s.conversions u t ptr) [ none ↦ [] | some bytes ↦ bytes ]) ∷ r)
      (places-coerce_args s spec types (drop (lo_arg_size big t ptr) ptr) _)

length-places :
    (big : Bool) (c : Conversions) (spec types ptr : Bytes) (at : ℕ)
    → AllCoerce big c spec types ptr
    → length (places big c spec types ptr at) ≡ length types
unfolding places
length-places big c spec [] ptr at all = refl
length-places big c [] (t ∷ types) ptr at all = absurd all
length-places big c (u ∷ spec) (t ∷ types) ptr at (one, all) =
    ap suc (length-places big c spec types _ _ all)

-- How the arguments of a message are handed to a method with the types `spec`.
abbrev pub Handed : Server → List Arg → Bytes → Type 0
Handed s args spec =
    let big = s.platform.big in
    let ptr = host_data big args in
    let types = type_chars args in
    let laid = places big s.conversions spec types ptr 0 in
    AllCoerce big s.conversions spec types ptr
    × (length laid ≡ length types)
    × Within 0 (opsize big spec types ptr) laid
    × (map (λ p. p.1) laid ≡ coerce_args s spec types ptr)

-- If a method's types are ones that the types of a message with valid arguments can be coerced
-- to, and none of its typechars is NUL, then every argument is coerced, and the block that
-- dispatch_method allocates from its first loop holds what its second loop writes: one place for
-- each argument, no place begins before the end of the one before it, and the last ends within
-- the block. The bytes at these places are the arguments of the call.
pub places-Handed :
    (s : Server) (args : List Arg) (spec : Bytes)
    → AllArgs args
    → IsSpec spec
    → lo_can_coerce_spec (type_chars args) spec ≡ true
    → Handed s args spec
places-Handed s args spec valid is_spec can =
    let big = s.platform.big in
    let ptr = host_data big args in
    let types = type_chars args in
    let all : AllCoerce big s.conversions spec types ptr =
      subst (AllCoerce big s.conversions spec types) (append-nil ptr)
        (all_coerce big s.conversions args spec [] valid is_spec can) in
    (
      all,
      length-places big s.conversions spec types ptr 0 all,
      subst (λ n. Within 0 n (places big s.conversions spec types ptr 0)) (omega arith)
          (places-Within big s.conversions spec types ptr 0 all),
      places-coerce_args s spec types ptr 0,
    )
