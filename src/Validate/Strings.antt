-- ===== src/Validate/Strings.antt =====
-- lo_validate_string, and what it accepts.
use liblo.Base.{
  ℕ, zero, suc, ◌+◌, ◌-◌, ◌*◌, ◌/◌, ◌%◌, ◌≡◌, ◌≤◌, ◌<◌, ◌≢◌, ◌∙◌, sym, refl, ap, ap₂, fault,
  drop-drop, Bool, true, ◌&&◌, Option, none, some, [], ◌∷◌, ◌++◌, arith, Bytes, length, take, drop,
  ltb, ◌==◌, if◌then◌else◌, Result, ok, err, esize, eterm, epad, length-append, length-replicate,
  replicate, Option-cases, inl, inr, append_assoc, take-append-drop, length-take, length-drop,
  drop-append_self,
}
use liblo.Osc.Padding.{IsText, padded, padded-eq}

-- The first loop: the index of the first NUL among the bytes.
unfoldable pub find_nul : Bytes → Option ℕ
find_nul [] = none
find_nul (c ∷ m) =
    if c == 0 then some 0 else elim (find_nul m) [ none ↦ none | some i ↦ some (suc i) ]

-- The second loop: the pad bytes are all NUL.
unfoldable pub all_zero : Bytes → Bool
all_zero [] = true
all_zero (c ∷ m) = c == 0 && all_zero m

-- The checks after the first loop, which stopped at index `i`.
unfoldable pub check_pad : Bytes → ℕ → Result ℕ
check_pad m i =
    let len = 4 * (i / 4 + 1) in
    if ltb (length m) len
    then err esize
    else if all_zero (take (len - i) (drop i m))
    then ok len
    else err epad

unfoldable pub lo_validate_string : Bytes → Result ℕ
lo_validate_string m = elim (find_nul m) [ none ↦ err eterm | some i ↦ check_pad m i ]

find_nul_text : (s m : Bytes) → IsText s → find_nul (s ++ 0 ∷ m) ≡ some (length s)
unfolding find_nul
find_nul_text [] m h = refl
find_nul_text (c ∷ s) m h = ground (arith, find_nul_text s m)

find_nul_inv :
    (m : Bytes) (i : ℕ)
    → find_nul m ≡ some i
    → IsText (take i m) × (length (take i m) ≡ i) × (i < length m)
unfolding find_nul
find_nul_inv [] i h = ground arith
find_nul_inv (c ∷ m) zero h = (tt, refl, omega arith)
find_nul_inv (c ∷ m) (suc i) h = ground (arith, find_nul_inv m i)

pub all_zero-replicate : (n : ℕ) → all_zero (replicate n 0) ≡ true
unfolding all_zero
all_zero-replicate zero = refl
all_zero-replicate (suc n) = all_zero-replicate n

pub all_zero→replicate : (m : Bytes) → all_zero m ≡ true → m ≡ replicate (length m) 0
unfolding all_zero
all_zero→replicate [] h = refl
all_zero→replicate (c ∷ m) h = ground (arith, all_zero→replicate m)

pub take-replicate : (k j : ℕ) (m : Bytes) → j ≡ k → take j (replicate k 0 ++ m) ≡ replicate k 0
take-replicate zero zero m h = refl
take-replicate zero (suc j) m h = absurd (omega arith)
take-replicate (suc k) zero m h = absurd (omega arith)
take-replicate (suc k) (suc j) m h = ap (λ t. 0 ∷ t) (take-replicate k j m (omega arith))

check_pad-padded :
    (s m : Bytes) → check_pad (padded s ++ m) (length s) ≡ ok (4 * (length s / 4 + 1))
unfolding check_pad padded
check_pad-padded s m =
    let pads : Bytes = replicate (4 - length s % 4) 0 in
    let split : (s ++ pads) ++ m ≡ s ++ (pads ++ m) = append_assoc s pads m in
    let cut : take (4 * (length s / 4 + 1) - length s) (pads ++ m) ≡ pads =
      take-replicate (4 - length s % 4) (4 * (length s / 4 + 1) - length s) m (omega arith) in
    let long : 4 * (length s / 4 + 1) ≤ length (s ++ (pads ++ m)) = omega (
      arith,
      length-append s (pads ++ m),
      length-append pads m,
      length-replicate {A = ℕ} (4 - length s % 4) 0,
    ) in
    rw (split, drop-append_self s (pads ++ m), cut, all_zero-replicate) (ground arith)

-- A padded string is accepted, whatever follows it, with its padded length.
pub lo_validate_string-padded :
    (s m : Bytes) → IsText s → lo_validate_string (padded s ++ m) ≡ ok (4 * (length s / 4 + 1))
unfolding lo_validate_string
lo_validate_string-padded s m h =
    let found : find_nul (padded s ++ m) ≡ some (length s) =
      rw (padded-eq s, append_assoc s _ m) (find_nul_text s _ h) in
    rw (found, lo_validate_string) (check_pad-padded s m)

check_pad_facts :
    (m : Bytes) (i n : ℕ)
    → check_pad m i ≡ ok n
    → (n ≡ 4 * (i / 4 + 1)) × (n ≤ length m) × (all_zero (take (n - i) (drop i m)) ≡ true)
unfolding check_pad
check_pad_facts m i n h = ground arith

check_pad_inv :
    (m : Bytes) (i n : ℕ) → i < length m → check_pad m i ≡ ok n → m ≡ padded (take i m) ++ drop n m
unfolding padded
check_pad_inv m i n inside h =
    let facts = check_pad_facts m i n h in
    let tail = drop i m in
    let k : n - i ≡ 4 - i % 4 = omega arith in
    let cut : length (take (n - i) tail) ≡ 4 - i % 4 =
      omega (arith, length-take (n - i) tail, length-drop i m) in
    let pads : take (n - i) tail ≡ replicate (4 - i % 4) 0 =
      all_zero→replicate _ facts.2 ∙ ap (λ j. replicate j 0) cut in
    let rest : drop (n - i) tail ≡ drop n m = drop-drop (n - i) i n m (omega arith) in
    let front : length (take i m) ≡ i = length-take i m (omega arith) in
    sym (
      ap (λ j. (take i m ++ replicate (4 - j % 4) 0) ++ drop n m) front
      ∙ append_assoc (take i m) (replicate (4 - i % 4) 0) (drop n m)
      ∙ ap (λ t. take i m ++ t) (ap₂ ◌++◌ (sym pads) (sym rest) ∙ take-append-drop (n - i) tail)
      ∙ take-append-drop i m)

-- What is accepted is a padded string with its length, then the rest of the data.
pub lo_validate_string_inv :
    (m : Bytes) (n : ℕ)
    → lo_validate_string m ≡ ok n
    → (s : Bytes) × IsText s
      × (m ≡ padded s ++ drop n m)
      × (n ≡ 4 * (length s / 4 + 1))
      × (n ≤ length m)
unfolding lo_validate_string
lo_validate_string_inv m n h = elim (Option-cases (find_nul m)) [
  | inl nothing ↦ absurd (cc (rw (nothing, lo_validate_string) at h))
  | inr (i, found) ↦
      let h' : check_pad m i ≡ ok n = rw (found, lo_validate_string) at h in
      let (text, len, inside) = find_nul_inv m i found in
      let (size, fits, _) = check_pad_facts m i n h' in
      (take i m, text, check_pad_inv m i n inside h', rw len size, fits)
]

-- lo_validate_string never reads outside its data.
pub lo_validate_string_no_fault : (m : Bytes) → lo_validate_string m ≢ fault
unfolding lo_validate_string check_pad
lo_validate_string_no_fault m h = ground arith
