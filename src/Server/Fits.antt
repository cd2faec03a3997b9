-- ===== src/Server/Fits.antt =====
-- One argument that dispatch_method of src/server.c coerces, and the place it is given.
use liblo.Base.{
  ℕ, ◌≤◌, ◌≡◌, ◌≢◌, refl, sym, ap, subst, ◌∙◌, Bool, true, false, ◌&&◌, some, List, [], ◌∷◌, ◌++◌,
  Bytes, length, take, drop, ◌==◌, arith, Bool-cases, inl, inr, ◌⊎◌, length-append, append-nil,
  append_assoc, take-append_self, drop-append_self,
}
use liblo.Osc.{
  typechar, store32, lo_arg_size, lo_strsize, to_type, c_string, strlen, length-store32,
}
use liblo.Osc.Padding.{IsText, padded, c_string-padded, strlen-padded, strlen_text}
use liblo.Argument.{Arg, IsArg, type_of, host_bytes, lo_arg_size-host, store64, length-store64}
use liblo.Message.Values.{type_chars, host_data}
use liblo.Message.Wire.{AllArgs}
use liblo.Server.Coerce.{
  lo_can_coerce, lo_is_numerical_type, lo_is_string_type, coerce_loop, lo_can_coerce_spec, IsSpec,
}
use liblo.Server.Hires.{Conversions, lo_hires_val, lo_coerce}

-- What is written for an argument has no more bytes than its type is counted for at `ptr`, and the
-- next place is as far behind it as was counted.
abbrev FitsPlace : Bool → ℕ → Bytes → Bytes → Type 0
FitsPlace big u ptr bytes =
    (length bytes ≤ lo_arg_size big u ptr) × (lo_arg_size big u bytes ≡ lo_arg_size big u ptr)

-- The same type: the argument is copied.
same_fits :
    (big : Bool) (a : Arg) (r : Bytes)
    → IsArg a
    → let t = typechar (type_of a) in
      FitsPlace big t
        (host_bytes big a ++ r)
        (take (lo_arg_size big t (host_bytes big a ++ r)) (host_bytes big a ++ r))
same_fits big a r valid =
    let t = typechar (type_of a) in
    let size = lo_arg_size-host big a r valid in
    let copied : take (lo_arg_size big t (host_bytes big a ++ r)) (host_bytes big a ++ r)
        ≡ host_bytes big a =
      ap (λ n. take n (host_bytes big a ++ r)) size ∙ take-append_self (host_bytes big a) r in
    let alone : lo_arg_size big t (host_bytes big a) ≡ length (host_bytes big a) =
      ap (lo_arg_size big t) (sym (append-nil (host_bytes big a)))
      ∙ lo_arg_size-host big a [] valid in
    subst (FitsPlace big t (host_bytes big a ++ r)) (sym copied)
      (omega (arith, size), alone ∙ sym size)

-- The coercion succeeds, into a place that is large enough.
abbrev pub Coerces : Bool → Conversions → ℕ → ℕ → Bytes → Type 0
Coerces big c u t ptr =
    (bytes : Bytes) × (lo_coerce big c u t ptr ≡ some bytes) × FitsPlace big u ptr bytes

-- A string or a symbol as the other one of the two.
string_fits :
    (big : Bool) (c : Conversions) (s r : Bytes) (u t : ℕ)
    → IsText s
    → (u ≡ b's') ⊎ (u ≡ b'S')
    → (u == t) ≡ false
    → lo_is_string_type t ≡ true
    → Coerces big c u t (padded s ++ r)
unfolding lo_coerce lo_is_string_type lo_arg_size to_type lo_strsize
string_fits big c s r u t text which other string_t =
    let copied : c_string (padded s ++ r) ≡ s = c_string-padded s r text in
    let size : strlen (padded s ++ r) ≡ length s = strlen-padded s r text in
    let size' : strlen (s ++ 0 ∷ []) ≡ length s = strlen_text s [] text in
    let room = length-append s (0 ∷ []) in
    let At : ℕ → Type 0 = λ u. (u == t) ≡ false → Coerces big c u t (padded s ++ r) in
    elim which [
      | inl e ↦
          subst At (sym e)
            (λ ne. (
              s ++ 0 ∷ [],
              rw (ne, string_t) (ap (λ x. some (x ++ 0 ∷ [])) copied),
              (omega arith, omega arith),
            ))
            other
      | inr e ↦
          subst At (sym e)
            (λ ne. (
              s ++ 0 ∷ [],
              rw (ne, string_t) (ap (λ x. some (x ++ 0 ∷ [])) copied),
              (omega arith, omega arith),
            ))
            other
    ]

abbrev IsNumeric : ℕ → Type 0
IsNumeric u = (u ≡ b'i') ⊎ ((u ≡ b'h') ⊎ ((u ≡ b'f') ⊎ (u ≡ b'd')))

-- A number as another kind of number.
number_fits :
    (big : Bool) (c : Conversions) (ptr : Bytes) (u t : ℕ)
    → IsNumeric u
    → (u == t) ≡ false
    → lo_is_numerical_type t ≡ true
    → Coerces big c u t ptr
unfolding lo_coerce lo_is_string_type lo_is_numerical_type lo_arg_size to_type
number_fits big c ptr u t which other number_t =
    let At : ℕ → Type 0 = λ u. (u == t) ≡ false → Coerces big c u t ptr in
    let h = lo_hires_val big c t ptr in
    let fits4 : (n : ℕ) → length (store32 big n) ≤ 4 = λ n. omega (arith, length-store32 big n) in
    let fits8 : (n : ℕ) → length (store64 big n) ≤ 8 = λ n. omega (arith, length-store64 big n) in
    elim which [
      | inl e ↦
          subst At (sym e)
            (λ ne. (store32 big (c.to_uint32 h), rw (ne, number_t) refl, (fits4 _, refl))) other
      | inr (inl e) ↦
          subst At (sym e)
            (λ ne. (store64 big (c.to_uint64 h), rw (ne, number_t) refl, (fits8 _, refl))) other
      | inr (inr (inl e)) ↦
          subst At (sym e)
            (λ ne. (store32 big (c.to_float h), rw (ne, number_t) refl, (fits4 _, refl))) other
      | inr (inr (inr e)) ↦
          subst At (sym e)
            (λ ne. (store64 big (c.to_double h), rw (ne, number_t) refl, (fits8 _, refl))) other
    ]

string_types : (u : ℕ) → lo_is_string_type u ≡ true → u ≢ 0 → (u ≡ b's') ⊎ (u ≡ b'S')
unfolding lo_is_string_type
string_types u h ne = ground arith

lo_is_numerical_type-IsNumeric : (u : ℕ) → lo_is_numerical_type u ≡ true → u ≢ 0 → IsNumeric u
unfolding lo_is_numerical_type
lo_is_numerical_type-IsNumeric u h ne = ground arith

-- The arguments whose types are those of strings.
text_fits :
    (big : Bool) (c : Conversions) (a : Arg) (r : Bytes) (u : ℕ)
    → IsArg a
    → (u ≡ b's') ⊎ (u ≡ b'S')
    → (u == typechar (type_of a)) ≡ false
    → lo_is_string_type (typechar (type_of a)) ≡ true
    → Coerces big c u (typechar (type_of a)) (host_bytes big a ++ r)
unfolding typechar type_of lo_is_string_type host_bytes
text_fits big c (Arg.string s) r u valid which other h =
    string_fits big c s r u b's' valid which other h
text_fits big c (Arg.symbol s) r u valid which other h =
    string_fits big c s r u b'S' valid which other h
text_fits big c (Arg.int32 n) r u valid which other h = absurd (ground arith)
text_fits big c _ r u valid which other h = absurd (ground arith)

-- One argument.
coerce_fits :
    (big : Bool) (c : Conversions) (a : Arg) (r : Bytes) (u : ℕ)
    → IsArg a
    → u ≢ 0
    → lo_can_coerce (typechar (type_of a)) u ≡ true
    → Coerces big c u (typechar (type_of a)) (host_bytes big a ++ r)
unfolding lo_coerce lo_can_coerce
coerce_fits big c a r u valid ne can =
    let t = typechar (type_of a) in
    let p = host_bytes big a ++ r in
    elim (Bool-cases (u == t)) [
      | inl same ↦
          let e : u ≡ t = ground arith in
          subst (λ u. Coerces big c u t p) (sym e)
            (take (lo_arg_size big t p) p, ground arith, same_fits big a r valid)
      | inr other ↦ elim (Bool-cases (lo_is_string_type t && lo_is_string_type u)) [
        | inl both ↦
            text_fits big c a r u valid (string_types u (ground arith) ne) other (ground arith)
        | inr not_both ↦
            number_fits big c p u t (lo_is_numerical_type-IsNumeric u (ground arith) ne) other
              (ground arith)
      ]
    ]

-- Every coercion succeeds, into a place that is large enough.
abbrev pub AllCoerce : Bool → Conversions → Bytes → Bytes → Bytes → Type 0
AllCoerce big c typespec [] ptr = Unit
AllCoerce big c [] (t ∷ types) ptr = ⊥
AllCoerce big c (u ∷ typespec) (t ∷ types) ptr =
    Coerces big c u t ptr × AllCoerce big c typespec types (drop (lo_arg_size big t ptr) ptr)

pub all_coerce :
    (big : Bool) (c : Conversions) (args : List Arg) (spec r : Bytes)
    → AllArgs args
    → IsSpec spec
    → lo_can_coerce_spec (type_chars args) spec ≡ true
    → AllCoerce big c spec (type_chars args) (host_data big args ++ r)
unfolding lo_can_coerce_spec coerce_loop type_chars host_data
all_coerce big c [] spec r valid is_spec can = tt
all_coerce big c (a ∷ args) [] r valid is_spec can = absurd (ground arith)
all_coerce big c (a ∷ args) (u ∷ spec) r valid is_spec can =
    let t = typechar (type_of a) in
    let rest = host_data big args ++ r in
    let size = lo_arg_size-host big a rest valid.0 in
    let left : drop (lo_arg_size big t (host_bytes big a ++ rest)) (host_bytes big a ++ rest)
        ≡ rest =
      ap (λ n. drop n (host_bytes big a ++ rest)) size ∙ drop-append_self (host_bytes big a) rest in
    rw (append_assoc (host_bytes big a) (host_data big args) r) (
      coerce_fits big c a rest u valid.0 is_spec.0 (ground arith),
      subst (AllCoerce big c spec (type_chars args)) (sym left)
          (all_coerce big c args spec r valid.1 is_spec.1 (ground arith)),
    )
