-- ===== src/Pattern/Stars.antt =====
-- What patterns of plain characters, '?' and '*' mean, for the matcher of src/pattern_match.c.
use liblo.Base.{ℕ, ◌≡◌, ◌≢◌, ◌↔◌, ◌⊎◌, [], ◌∷◌, Bytes, ◌==◌, arith, Bool-cases, inl, inr}
use liblo.Pattern.Match.{Verdict, accept, reject, over_read, no_fuel, skip_stars, skip_until}

-- What a pattern without sets and braces means.
pub data Matches : Bytes → Bytes → Type 0 where
  done : Matches [] []
  same : {c x : ℕ} {p str : Bytes} → c ≢ b'*' → c ≡ x → Matches p str → Matches (c ∷ p) (x ∷ str)
  any : {c x : ℕ} {p str : Bytes} → c ≡ b'?' → Matches p str → Matches (c ∷ p) (x ∷ str)
  leave : {c : ℕ} {p str : Bytes} → c ≡ b'*' → Matches p str → Matches (c ∷ p) str
  take_one : {c x : ℕ} {p str : Bytes} → c ≡ b'*' → Matches (c ∷ p) str → Matches (c ∷ p) (x ∷ str)

-- No bracket and no brace opens in the pattern.
abbrev pub IsWild : Bytes → Type 0
IsWild [] = Unit
IsWild (c ∷ p) = (c ≢ b'[') × (c ≢ b'{') × IsWild p

-- The verdict answers the question `G`.
abbrev pub Decides : Type 0 → Verdict → Type 0
Decides G accept = G
Decides G reject = ¬ G
Decides G over_read = ⊥
Decides G no_fuel = ⊥

pub skip_stars_star : (c : ℕ) (p : Bytes) → c ≡ b'*' → skip_stars (c ∷ p) ≡ skip_stars p
unfolding skip_stars
skip_stars_star c p h = rw h

pub skip_stars_other : (c : ℕ) (p : Bytes) → c ≢ b'*' → skip_stars (c ∷ p) ≡ c ∷ p
unfolding skip_stars
skip_stars_other c p h = ground arith

pub star_inv :
    {c x : ℕ} {q str : Bytes}
    → c ≡ b'*'
    → Matches (c ∷ q) (x ∷ str)
    → Matches q (x ∷ str) ⊎ Matches (c ∷ q) str
star_inv h (same ne e d) = absurd (ne h)
star_inv h (any e d) = absurd (omega arith)
star_inv h (leave e d) = inl d
star_inv h (take_one e d) = inr d

pub star_nil_inv : {c : ℕ} {q : Bytes} → c ≡ b'*' → Matches (c ∷ q) [] → Matches q []
star_nil_inv h (leave e d) = d

pub one_nil : {c : ℕ} {q : Bytes} → c ≢ b'*' → ¬ Matches (c ∷ q) []
one_nil h (leave e d) = h e

pub one_inv :
    {c x : ℕ} {q str : Bytes}
    → c ≢ b'*'
    → Matches (c ∷ q) (x ∷ str)
    → ((c ≡ x) ⊎ (c ≡ b'?')) × Matches q str
one_inv h (same ne e d) = (inl e, d)
one_inv h (any e d) = (inr e, d)
one_inv h (leave e d) = absurd (h e)
one_inv h (take_one e d) = absurd (h e)

pub star_all : {c : ℕ} (str : Bytes) → c ≡ b'*' → Matches (c ∷ []) str
star_all [] h = leave h done
star_all (x ∷ str) h = take_one h (star_all str h)

-- Stars in a row mean one star.
more_stars :
    {c d : ℕ} {p str : Bytes} → c ≡ b'*' → d ≡ b'*' → Matches (c ∷ p) str → Matches (c ∷ d ∷ p) str
more_stars h k (same ne e m) = absurd (ne h)
more_stars h k (any e m) = absurd (omega arith)
more_stars h k (leave e m) = leave e (leave k m)
more_stars h k (take_one e m) = take_one e (more_stars h k m)

fewer_stars :
    {c d : ℕ} {p : Bytes} (str : Bytes)
    → c ≡ b'*'
    → d ≡ b'*'
    → Matches (d ∷ p) str
    → Matches (c ∷ p) str
fewer_stars [] h k m = leave h (star_nil_inv k m)
fewer_stars (x ∷ str) h k m = elim (star_inv k m) [
  | inl now ↦ leave h now
  | inr later ↦ take_one h (fewer_stars str h k later)
]

fewer_stars_two :
    {c d : ℕ} {p : Bytes} (str : Bytes)
    → c ≡ b'*'
    → d ≡ b'*'
    → Matches (c ∷ d ∷ p) str
    → Matches (c ∷ p) str
fewer_stars_two [] h k m = leave h (star_nil_inv k (star_nil_inv h m))
fewer_stars_two (x ∷ str) h k m = elim (star_inv h m) [
  | inl now ↦ fewer_stars (x ∷ str) h k now
  | inr later ↦ take_one h (fewer_stars_two str h k later)
]

pub skip_stars_iff :
    (c : ℕ) (p str : Bytes) → c ≡ b'*' → Matches (c ∷ p) str ↔ Matches (c ∷ skip_stars p) str
skip_stars_iff c [] str h = unfold skip_stars in (λ m. m, λ m. m)
skip_stars_iff c (d ∷ p) str h = elim (Bool-cases (d == b'*')) [
  | inl e ↦
      let star : d ≡ b'*' = ground arith in
      let (there, back) = skip_stars_iff c p str h in
      rw (skip_stars_star d p star)
        (λ m. there (fewer_stars_two str h star m), λ m. more_stars h star (back m))
  | inr e ↦ let other : d ≢ b'*' = ground arith in rw (skip_stars_other d p other) (λ m. m, λ m. m)
]

-- Before a plain character a star may take everything up to that character.
pub skip_until_iff :
    (c d : ℕ) (q str : Bytes)
    → c ≡ b'*'
    → d ≢ b'*'
    → d ≢ b'?'
    → Matches (c ∷ d ∷ q) str ↔ Matches (c ∷ d ∷ q) (skip_until d str)
unfolding skip_until
skip_until_iff c d q [] h k l = (λ m. m, λ m. m)
skip_until_iff c d q (x ∷ str) h k l = elim (Bool-cases (d == x)) [
  | inl e ↦ rw e (λ m. m, λ m. m)
  | inr e ↦
      let (there, back) = skip_until_iff c d q str h k l in
      rw e (
        λ m. elim (star_inv h m) [
          | inl now ↦ elim (one_inv k now).0 [
            | inl same_char ↦ absurd (ground arith)
            | inr q ↦ absurd (l q)
          ]
          | inr later ↦ there later
        ],
        λ m. take_one h (back m),
      )
]
