-- ===== src/Pattern/Braces.antt =====
-- Lists of alternatives in braces, and sets: what the matcher does where it leaves the pattern,
-- and where it takes a character for a comma.
use liblo.Base.{
  ℕ, suc, ◌≡◌, ◌≢◌, ◌∙◌, refl, true, false, some, [], ◌∷◌, ◌++◌, Bytes, length, arith,
  if◌then◌else◌, str_eq,
}
use liblo.Pattern.Match.{
  Verdict, accept, reject, over_read, set_loop, after_set, match_set, after_brace, brace_loop,
  match_brace, round, run, lo_pattern_match,
}

-- The text of an alternative: no comma and no closing brace.
abbrev pub IsAlternative : Bytes → Type 0
IsAlternative [] = Unit
IsAlternative (c ∷ a) = (c ≢ b',') × (c ≢ b'}') × IsAlternative a

module _ (next : Bytes → Bytes → Verdict) (place : Bytes) where
  -- An alternative that agrees with the string so far, before the rest `d ∷ p` of the list.
  brace_loop_same :
      (c d : ℕ) (s p : Bytes)
      → c ≢ b','
      → c ≢ b'}'
      → brace_loop next [] place false (c ∷ s) (c ∷ d ∷ p)
        ≡ brace_loop next [] place false s (d ∷ p)
  unfolding brace_loop
  brace_loop_same c d s p h k = ground arith

  brace_loop_prefix :
      (a t : Bytes) (d : ℕ) (p : Bytes)
      → IsAlternative a
      → brace_loop next [] place false (a ++ t) (a ++ d ∷ p)
        ≡ brace_loop next [] place false t (d ∷ p)
  brace_loop_prefix [] t d p h = refl
  brace_loop_prefix (c ∷ []) t d p h = brace_loop_same c d t p h.0 h.1
  brace_loop_prefix (c ∷ e ∷ a) t d p h =
      brace_loop_same c e (e ∷ (a ++ t)) (a ++ d ∷ p) h.0 h.1 ∙ brace_loop_prefix (e ∷ a) t d p h.2

  brace_loop_skip :
      (b str : Bytes)
      → IsAlternative b
      → brace_loop next [] place true str (b ++ b'}' ∷ []) ≡ reject
  unfolding brace_loop
  brace_loop_skip [] str h = refl
  brace_loop_skip (c ∷ b) str h =
      ground (arith, brace_loop_skip b place h.2, brace_loop_skip b str h.2)

  -- The last alternative of a list that ends the pattern is compared with the whole string.
  brace_loop_last :
      (b str : Bytes)
      → IsAlternative b
      → ((x : ℕ) (s : Bytes) → next (x ∷ s) [] ≡ reject)
      → brace_loop next [] place false str (b ++ b'}' ∷ [])
        ≡ (if str_eq str b then accept else reject)
  unfolding brace_loop str_eq
  brace_loop_last [] [] h end = refl
  brace_loop_last [] (x ∷ s) h end = ground (arith, end x s)
  brace_loop_last (c ∷ []) [] h end = ground arith
  brace_loop_last (c ∷ []) (x ∷ []) h end = ground (arith, brace_loop_last [] [] tt end)
  brace_loop_last (c ∷ []) (x ∷ y ∷ s) h end = ground (arith, brace_loop_last [] (y ∷ s) tt end)
  brace_loop_last (c ∷ d ∷ b) [] h end = ground (arith, brace_loop_skip (d ∷ b) place h.2)
  brace_loop_last (c ∷ d ∷ b) (x ∷ s) h end =
      ground (arith, brace_loop_skip (d ∷ b) place h.2, brace_loop_last (d ∷ b) s h.2 end)

after_brace_end :
    (a b : Bytes)
    → IsAlternative a
    → IsAlternative b
    → after_brace (a ++ b',' ∷ (b ++ b'}' ∷ [])) ≡ some []
unfolding after_brace
after_brace_end [] [] h k = refl
after_brace_end [] (c ∷ b) h k = ground (arith, after_brace_end [] b h k.2)
after_brace_end (c ∷ a) b h k = ground (arith, after_brace_end a b h.2 k)

-- The start of the work on a list in braces that is the whole pattern.
enter_brace :
    (x : ℕ) (str p : Bytes)
    → after_brace p ≡ some []
    → lo_pattern_match (x ∷ str) (b'{' ∷ p)
      ≡ brace_loop (run (suc (length p))) [] (x ∷ str) false (x ∷ str) p
unfolding lo_pattern_match run round match_brace
enter_brace x str p e = rw (e, match_brace)

run_nonempty : (fuel x : ℕ) (s : Bytes) → run (suc fuel) (x ∷ s) [] ≡ reject
unfolding run
run_nonempty fuel x s = refl

module _ (next : Bytes → Bytes → Verdict) (place : Bytes)
    (end : (x : ℕ) (s : Bytes) → next (x ∷ s) [] ≡ reject) where
  -- At a comma, when the rest of the string is not empty: the character behind it is passed over.
  brace_loop_comma :
      (x y : ℕ) (s p : Bytes)
      → brace_loop next [] place false (x ∷ s) (b',' ∷ y ∷ p)
        ≡ brace_loop next [] place false place p
  unfolding brace_loop
  brace_loop_comma x y s p = rw (end x s) refl

  after_first :
      (a : Bytes) (x y : ℕ) (s p : Bytes)
      → IsAlternative a
      → brace_loop next [] place false (a ++ x ∷ s) (a ++ b',' ∷ y ∷ p)
        ≡ brace_loop next [] place false place p
  after_first a x y s p h =
      brace_loop_prefix next place a (x ∷ s) b',' (y ∷ p) h ∙ brace_loop_comma x y s p

-- A list of alternatives that is the whole pattern, when the first alternative is a proper prefix
-- of the string: the work goes on behind the comma and one more character.
after_first_alternative :
    (a : Bytes) (x y : ℕ) (s p : Bytes)
    → IsAlternative a
    → after_brace (a ++ b',' ∷ y ∷ p) ≡ some []
    → (fuel : ℕ) × (lo_pattern_match (a ++ x ∷ s) (b'{' ∷ (a ++ b',' ∷ y ∷ p))
        ≡ brace_loop (run (suc fuel)) [] (a ++ x ∷ s) false (a ++ x ∷ s) p)
after_first_alternative [] x y s p h found = (
  _,
  enter_brace x s (b',' ∷ y ∷ p) found
      ∙ after_first (run _) (x ∷ s) (run_nonempty (suc (suc (length p)))) [] x y s p h,
)
after_first_alternative (c ∷ a) x y s p h found = (
  _,
  enter_brace c (a ++ x ∷ s) (c ∷ (a ++ b',' ∷ y ∷ p)) found
      ∙ after_first (run _) (c ∷ (a ++ x ∷ s)) (run_nonempty (suc (length (a ++ b',' ∷ y ∷ p))))
          (c ∷ a) x y s p h,
)

-- In a list of two alternatives of which the first is a proper prefix of the string, the second
-- is compared without its first character, whatever that is: `{a,xab}` matches "ab", and
-- `{a,ab}` does not.
pub lo_pattern_match-second_alternative :
    (a b : Bytes) (x y : ℕ) (s : Bytes)
    → IsAlternative a
    → IsAlternative (y ∷ b)
    → lo_pattern_match (a ++ x ∷ s) (b'{' ∷ (a ++ b',' ∷ y ∷ (b ++ b'}' ∷ [])))
      ≡ (if str_eq (a ++ x ∷ s) b then accept else reject)
lo_pattern_match-second_alternative a b x y s h k =
    let (fuel, e) =
      after_first_alternative a x y s (b ++ b'}' ∷ []) h (after_brace_end a (y ∷ b) h k) in
    e ∙ brace_loop_last (run (suc fuel)) (a ++ x ∷ s) b (a ++ x ∷ s) k.2 (run_nonempty fuel)

-- With an empty second alternative behind a proper prefix of the string the matcher passes over
-- the closing brace and reads beyond the end of the pattern.
lo_pattern_match-empty_alternative :
    (a : Bytes) (x : ℕ) (s : Bytes)
    → IsAlternative a
    → lo_pattern_match (a ++ x ∷ s) (b'{' ∷ (a ++ b',' ∷ b'}' ∷ [])) ≡ over_read
lo_pattern_match-empty_alternative a x s h =
    let (fuel, e) = after_first_alternative a x b'}' s [] h (after_brace_end a [] h tt) in
    e ∙ (unfold brace_loop in refl)

-- A pattern that ends in an open negated set is read beyond its end on every string that is not
-- empty.
pub lo_pattern_match-open_set :
    (x : ℕ) (s : Bytes) → lo_pattern_match (x ∷ s) (b'[' ∷ b'!' ∷ []) ≡ over_read
unfolding lo_pattern_match run round match_set set_loop after_set
lo_pattern_match-open_set x s = refl
