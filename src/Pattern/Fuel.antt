-- ===== src/Pattern/Fuel.antt =====
-- lo_pattern_match ends: every call of itself is on less of the pattern.
use liblo.Base.{
  ℕ, zero, suc, ◌≤◌, ◌<◌, ◌≡◌, ◌≢◌, Bool, true, false, some, [], ◌∷◌, Bytes, length, ◌==◌, arith,
  if◌then◌else◌, inl, inr, Option-cases,
}
use liblo.Pattern.Match.{
  Verdict, accept, no_fuel, skip_stars, skip_until, try_each, match_star, SetEnd, failed, beyond,
  stopped, set_loop, skip_set, after_set, match_set, after_brace, brace_loop, match_brace, round,
  run, lo_pattern_match, is_open,
}

-- `next` answers on every pattern of at most `n` bytes.
abbrev Answers : (Bytes → Bytes → Verdict) → ℕ → Type 0
Answers next n = (s q : Bytes) → length q ≤ n → next s q ≢ no_fuel

pub length-skip_stars : (p : Bytes) → length (skip_stars p) ≤ length p
unfolding skip_stars
length-skip_stars [] = omega arith
length-skip_stars (c ∷ p) = ground (arith, length-skip_stars p)

try_each_answers :
    (match : Bytes → Verdict) (str : Bytes)
    → ((s : Bytes) → match s ≢ no_fuel)
    → try_each match str ≢ no_fuel
unfolding try_each
try_each_answers match [] h = ground arith
try_each_answers match (x ∷ str) h = ground (arith, h (x ∷ str), try_each_answers match str h)

match_star-Answers :
    (next : Bytes → Bytes → Verdict) (str p : Bytes)
    → Answers next (length p)
    → match_star next str p ≢ no_fuel
unfolding match_star
match_star-Answers next str p h = go (skip_stars p) (length-skip_stars p)
  where
    go :
        (q : Bytes)
        → length q ≤ length p
        → (elim q as (λ _. Verdict) [
          | [] ↦ accept
          | c ∷ q ↦ try_each (λ s. next s (c ∷ q)) (if is_open c then str else skip_until c str)
        ])
          ≢ no_fuel
    go [] le = ground arith
    go (c ∷ q) le = try_each_answers (λ s. next s (c ∷ q)) _ (λ s. h s (c ∷ q) le)

abbrev StopsWithin : ℕ → SetEnd → Type 0
StopsWithin n failed = Unit
StopsWithin n beyond = Unit
StopsWithin n (stopped found p) = length p ≤ n

set_loop_within : (x : ℕ) (p : Bytes) (n : ℕ) → length p ≤ n → StopsWithin n (set_loop x p)
unfolding set_loop
set_loop_within x [] n h = tt
set_loop_within x (c ∷ []) n h = tt
set_loop_within x (c ∷ d ∷ []) n h = ground arith
set_loop_within x (c ∷ d ∷ e ∷ p) n h =
    ground (arith, set_loop_within x (e ∷ p) n, set_loop_within x (d ∷ e ∷ p) n)

skip_set_le : (p q : Bytes) → skip_set p ≡ some q → length q ≤ length p
unfolding skip_set
skip_set_le [] q h = absurd (cc)
skip_set_le (c ∷ p) q h = ground (arith, skip_set_le p q)

after_brace_le : (p q : Bytes) → after_brace p ≡ some q → length q ≤ length p
unfolding after_brace
after_brace_le [] q h = absurd (cc)
after_brace_le (c ∷ p) q h = ground (arith, after_brace_le p q)

after_set_answers :
    (next : Bytes → Verdict) (negate : Bool) (e : SetEnd) (n : ℕ)
    → ((q : Bytes) → length q ≤ n → next q ≢ no_fuel)
    → StopsWithin n e
    → after_set next negate e ≢ no_fuel
unfolding after_set
after_set_answers next negate failed n h w = ground arith
after_set_answers next negate beyond n h w = ground arith
after_set_answers next negate (stopped found p) n h w = elim (Option-cases (skip_set p)) [
  | inl e ↦ rw (e, after_set) (ground arith)
  | inr (q, e) ↦ rw (e, after_set) (ground (arith, h q, skip_set_le p q))
]

brace_loop-Answers :
    (next : Bytes → Bytes → Verdict) (remainder place : Bytes) (n : ℕ)
    → Answers next n
    → length remainder ≤ n
    → (skipping : Bool) (str p : Bytes) → length p ≤ n
    → brace_loop next remainder place skipping str p ≢ no_fuel
unfolding brace_loop
brace_loop-Answers next remainder place n h r skipping str [] le = ground arith
brace_loop-Answers next remainder place n h r true str (c ∷ p) le = ground (
  arith,
  brace_loop-Answers next remainder place n h r false place p,
  brace_loop-Answers next remainder place n h r true place p,
)
brace_loop-Answers next remainder place n h r false [] (c ∷ []) le =
    ground (arith, h [] remainder r, h [] [])
brace_loop-Answers next remainder place n h r false (x ∷ s) (c ∷ []) le =
    ground (arith, h (x ∷ s) remainder r, h (x ∷ s) [])
brace_loop-Answers next remainder place n h r false [] (c ∷ d ∷ p) le = ground (
  arith,
  h [] remainder r,
  h [] (d ∷ p),
  brace_loop-Answers next remainder place n h r false place p,
  brace_loop-Answers next remainder place n h r true place (d ∷ p),
)
brace_loop-Answers next remainder place n h r false (x ∷ s) (c ∷ d ∷ p) le = ground (
  arith,
  h (x ∷ s) remainder r,
  h (x ∷ s) (d ∷ p),
  brace_loop-Answers next remainder place n h r false place p,
  brace_loop-Answers next remainder place n h r true place (d ∷ p),
  brace_loop-Answers next remainder place n h r false s (d ∷ p),
)

match_set-Answers :
    (next : Bytes → Bytes → Verdict) (x : ℕ) (str p : Bytes)
    → Answers next (length p)
    → match_set next x str p ≢ no_fuel
unfolding match_set
match_set-Answers next x str [] h =
    after_set_answers (next str) false _ 0 (h str) (set_loop_within x [] 0 (omega arith))
match_set-Answers next x str (c ∷ p) h =
    after_set_answers (next str) (c == b'!') _ (suc (length p)) (h str)
      (set_loop_within x (if c == b'!' then p else c ∷ p) (suc (length p)) (ground arith))

match_brace-Answers :
    (next : Bytes → Bytes → Verdict) (str p : Bytes)
    → Answers next (length p)
    → match_brace next str p ≢ no_fuel
unfolding match_brace
match_brace-Answers next str p h = elim (Option-cases (after_brace p)) [
  | inl e ↦ rw (e, match_brace) (ground arith)
  | inr (r, e) ↦
      rw (e, match_brace)
        (brace_loop-Answers next r str (length p) h (after_brace_le p r e) false str p
          (omega arith))
]

round-Answers :
    (next : Bytes → Bytes → Verdict) (str : Bytes) (c : ℕ) (p : Bytes)
    → Answers next (length p)
    → round next str c p ≢ no_fuel
unfolding round
round-Answers next [] c p h = ground (arith, match_star-Answers next [] p h)
round-Answers next (x ∷ str) c p h = ground (
  arith,
  match_star-Answers next (x ∷ str) p h,
  match_set-Answers next x str p h,
  match_brace-Answers next (x ∷ str) p h,
  h str p,
)

run_answers : (fuel : ℕ) (str p : Bytes) → length p < fuel → run fuel str p ≢ no_fuel
unfolding run
run_answers zero str p h = elim h [ ]
run_answers (suc fuel) [] [] h = ground arith
run_answers (suc fuel) (x ∷ str) [] h = ground arith
run_answers (suc fuel) [] (c ∷ p) h =
    round-Answers (run fuel) [] c p (λ s q le. run_answers fuel s q (omega arith))
run_answers (suc fuel) (x ∷ str) (c ∷ p) h =
    round-Answers (run fuel) (x ∷ str) c p (λ s q le. run_answers fuel s q (omega arith))

-- lo_pattern_match ends on every string and pattern: with an answer, or with a read beyond the
-- end of the pattern.
pub lo_pattern_match_ends : (str p : Bytes) → lo_pattern_match str p ≢ no_fuel
unfolding lo_pattern_match
lo_pattern_match_ends str p = run_answers (suc (length p)) str p (omega arith)
