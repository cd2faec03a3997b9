-- ===== src/Message/Argv.antt =====
-- lo_message_get_argc, lo_message_get_types and lo_message_get_argv, with the array that it caches.
use liblo.Base.{
  ℕ, ◌+◌, ◌-◌, ◌≡◌, ◌∙◌, refl, sym, ap, ap₂, Bool, none, some, Option, List, [], ◌∷◌, ◌++◌, Bytes,
  length, take, drop, arith, drop-append_self, append-nil, append_assoc, ◌⊎◌, inl, inr,
  if◌then◌else◌, ◌==◌, take-length,
}
use liblo.Osc.{lo_arg_size}
use liblo.Argument.{Arg, host_bytes, lo_arg_size-host}
use liblo.Message.State.{Message}
use liblo.Message.Values.{Holds, host_data, type_chars}
use liblo.Message.Wire.{AllArgs}
use liblo.Message.RoundTrip.{offsets}

unfoldable pub lo_message_get_argc : Message → ℕ
lo_message_get_argc m = m.typelen - 1

unfoldable pub lo_message_get_types : Message → Bytes
lo_message_get_types m = drop 1 m.types

-- The loop that computes the array. `ptr` is what remains of the data, from offset `off` on.
unfoldable pub argv_loop : Bool → Bytes → Bytes → ℕ → List (Option ℕ)
argv_loop big [] ptr off = []
argv_loop big (t ∷ types) ptr off =
    let len = lo_arg_size big t ptr in
    (if len == 0 then none else some off) ∷ argv_loop big types (drop len ptr) (off + len)

unfoldable pub lo_message_get_argv : Bool → Message → List (Option ℕ) × Message
lo_message_get_argv big m = elim m.argv [
  | some argv ↦ (argv, m)
  | none ↦
      let types = take (lo_message_get_argc m) (lo_message_get_types m) in
      let argv = argv_loop big types m.data_bytes 0 in (argv, record m { argv = some argv })
]

argv_loop-host :
    (big : Bool) (args : List Arg) (r : Bytes) (off : ℕ)
    → AllArgs args
    → argv_loop big (type_chars args) (host_data big args ++ r) off ≡ offsets big args off
unfolding argv_loop type_chars host_data offsets
argv_loop-host big [] r off h = refl
argv_loop-host big (a ∷ as_) r off h =
    let rest = host_data big as_ ++ r in
    let size = lo_arg_size-host big a rest h.0 in
    let next : drop (length (host_bytes big a)) (host_bytes big a ++ rest) ≡ rest =
      drop-append_self (host_bytes big a) rest in
    rw (append_assoc (host_bytes big a) (host_data big as_) r, size, next)
      (ap (λ t. (if length (host_bytes big a) == 0 then none else some off) ∷ t)
        (argv_loop-host big as_ r _ h.1))

argv_loop-Holds :
    (big : Bool) (m : Message) (args : List Arg)
    → Holds big m args
    → AllArgs args
    → argv_loop big (take (m.typelen - 1) (drop 1 m.types)) m.data_bytes 0 ≡ offsets big args 0
argv_loop-Holds big m args h valid =
    let n = length (type_chars args) in
    let types : drop 1 m.types ≡ type_chars args = ap (λ t. drop 1 t) h.types_are in
    let count : m.typelen - 1 ≡ n =
      ap (λ k. k - 1) (h.typelen_is ∙ ap length h.types_are) ∙ omega arith in
    let cut : take (m.typelen - 1) (drop 1 m.types) ≡ type_chars args =
      ap₂ take count types ∙ take-length (type_chars args) in
    let bytes : m.data_bytes ≡ host_data big args ++ [] =
      h.data_are ∙ sym (append-nil (host_data big args)) in
    ap₂ (λ t d. argv_loop big t d 0) cut bytes ∙ argv_loop-host big args [] 0 valid

-- Of a message that holds given arguments and whose cached array, if there is one, is right,
-- lo_message_get_argv returns the place of every argument in the data, and leaves a message that
-- holds the same arguments and has that array cached.
lo_message_get_argv-Holds :
    (big : Bool) (m : Message) (args : List Arg)
    → Holds big m args
    → AllArgs args
    → (m.argv ≡ none) ⊎ (m.argv ≡ some (offsets big args 0))
    → let (argv, m') = lo_message_get_argv big m in
      (argv ≡ offsets big args 0) × (m'.argv ≡ some (offsets big args 0)) × Holds big m' args
unfolding lo_message_get_argv lo_message_get_argc lo_message_get_types
lo_message_get_argv-Holds big m args h valid (inr cached) =
    rw (lo_message_get_argv, cached) (refl, cached, h)
lo_message_get_argv-Holds big m args h valid (inl empty) =
    let computed = argv_loop-Holds big m args h valid in
    let held : Holds big (record m { argv = some (offsets big args 0) }) args = record {
      types_are = h.types_are;
      data_are = h.data_are;
      typelen_is = h.typelen_is;
      datalen_is = h.datalen_is;
    } in
    rw (lo_message_get_argv, empty, lo_message_get_argc, computed) (refl, refl, held)
