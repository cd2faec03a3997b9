-- ===== src/Server/Coerce.antt =====
-- Which types may be given to a method in place of others: lo_is_numerical_type and
-- lo_is_string_type of src/message.c, lo_can_coerce and lo_can_coerce_spec of src/server.c.
use liblo.Base.{
  ℕ, ◌≡◌, ◌≢◌, refl, Bool, true, false, not, ◌&&◌, ◌||◌, [], ◌∷◌, Bytes, length, ◌==◌,
  if◌then◌else◌, arith,
}

-- `strchr` over the two arrays, which finds their terminator too.
unfoldable pub lo_is_numerical_type : ℕ → Bool
lo_is_numerical_type a = a == b'i' || a == b'f' || a == b'h' || a == b'd' || a == 0

unfoldable pub lo_is_string_type : ℕ → Bool
lo_is_string_type a = a == b's' || a == b'S' || a == 0

unfoldable pub lo_can_coerce : ℕ → ℕ → Bool
lo_can_coerce a b =
    a == b
    || (lo_is_numerical_type a && lo_is_numerical_type b)
    || (lo_is_string_type a && lo_is_string_type b)

-- The loop, over strings of one length.
unfoldable pub coerce_loop : Bytes → Bytes → Bool
coerce_loop [] b = true
coerce_loop (x ∷ a) [] = true
coerce_loop (x ∷ a) (y ∷ b) = lo_can_coerce x y && coerce_loop a b

unfoldable pub lo_can_coerce_spec : Bytes → Bytes → Bool
lo_can_coerce_spec a b = if not (length a == length b) then false else coerce_loop a b

-- No typechar is NUL.
abbrev pub IsSpec : Bytes → Type 0
IsSpec [] = Unit
IsSpec (c ∷ s) = (c ≢ 0) × IsSpec s

lo_can_coerce_refl : (a : ℕ) → lo_can_coerce a a ≡ true
unfolding lo_can_coerce
lo_can_coerce_refl a = ground arith

lo_can_coerce_sym : (a b : ℕ) → lo_can_coerce a b ≡ true → lo_can_coerce b a ≡ true
unfolding lo_can_coerce
lo_can_coerce_sym a b h = ground arith

lo_can_coerce_trans :
    (a b c : ℕ)
    → b ≢ 0
    → lo_can_coerce a b ≡ true
    → lo_can_coerce b c ≡ true
    → lo_can_coerce a c ≡ true
unfolding lo_can_coerce lo_is_numerical_type lo_is_string_type
lo_can_coerce_trans a b c n h k = ground arith

spec_refl : (a : Bytes) → lo_can_coerce_spec a a ≡ true
unfolding lo_can_coerce_spec coerce_loop
spec_refl [] = refl
spec_refl (x ∷ a) = ground (arith, spec_refl a, lo_can_coerce_refl x)

spec_sym : (a b : Bytes) → lo_can_coerce_spec a b ≡ true → lo_can_coerce_spec b a ≡ true
unfolding lo_can_coerce_spec coerce_loop
spec_sym [] [] h = refl
spec_sym [] (y ∷ b) h = ground arith
spec_sym (x ∷ a) [] h = ground arith
spec_sym (x ∷ a) (y ∷ b) h = ground (arith, spec_sym a b, lo_can_coerce_sym x y)

spec_trans :
    (a b c : Bytes)
    → IsSpec b
    → lo_can_coerce_spec a b ≡ true
    → lo_can_coerce_spec b c ≡ true
    → lo_can_coerce_spec a c ≡ true
unfolding lo_can_coerce_spec coerce_loop
spec_trans [] [] c s h k = k
spec_trans [] (y ∷ b) c s h k = ground arith
spec_trans (x ∷ a) [] c s h k = ground arith
spec_trans (x ∷ a) (y ∷ b) [] s h k = ground arith
spec_trans (x ∷ a) (y ∷ b) (z ∷ c) s h k =
    ground (arith, spec_trans a b c s.1, lo_can_coerce_trans x y z s.0)

-- Coercibility of type strings is an equivalence: every string is coercible to itself, the order
-- of two strings does not matter, and a chain of two coercions is a coercion, if the typechars of
-- the string between them are not NUL.
lo_can_coerce_spec_equivalence :
    (a b c : Bytes)
    → (lo_can_coerce_spec a a ≡ true)
      × (lo_can_coerce_spec a b ≡ true → lo_can_coerce_spec b a ≡ true)
      × (IsSpec b
          → lo_can_coerce_spec a b ≡ true
          → lo_can_coerce_spec b c ≡ true
          → lo_can_coerce_spec a c ≡ true)
lo_can_coerce_spec_equivalence a b c = (spec_refl a, spec_sym a b, spec_trans a b c)
