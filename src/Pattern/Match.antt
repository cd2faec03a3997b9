-- ===== src/Pattern/Match.antt =====
-- The matcher. `str` and `p` are the strings from the C pointers on, without their terminators,
-- so that `[]` stands for a pointer to the NUL. Where the C code moves a pointer beyond the NUL
-- and reads there, the verdict is `over_read`. `char` is signed, as on x86.
use liblo.Base.{
  ℕ, zero, suc, ◌+◌, ◌%◌, Bool, true, false, not, ◌&&◌, ◌||◌, Option, none, some, [], ◌∷◌, Bytes,
  length, ltb, leb, ◌==◌, if◌then◌else◌,
}

-- `accept` and `reject` are the results true and false. `no_fuel` belongs to the model only.
pub data Verdict : Type 0 where
  accept reject over_read no_fuel : Verdict

-- The order of signed characters.
abbrev pub char_value : ℕ → ℕ
char_value c = (c + 128) % 256

-- `while (*p == '*' && *p != '/') p++`
unfoldable pub skip_stars : Bytes → Bytes
skip_stars [] = []
skip_stars (c ∷ p) = let rest = skip_stars p in if c == b'*' && not (c == b'/') then rest else c ∷ p

-- `while (*str && *p != *str) str++`
unfoldable pub skip_until : ℕ → Bytes → Bytes
skip_until c [] = []
skip_until c (x ∷ str) = let rest = skip_until c str in if c == x then x ∷ str else rest

-- `while (*str) { if (lo_pattern_match(str, p)) return true; str++; } return false`
unfoldable pub try_each : (Bytes → Verdict) → Bytes → Verdict
try_each match [] = reject
try_each match (x ∷ str) =
    let later = try_each match str in
    elim (match (x ∷ str)) [
      | accept ↦ accept
      | reject ↦ later
      | over_read ↦ over_read
      | no_fuel ↦ no_fuel
    ]

abbrev pub is_open : ℕ → Bool
is_open c = c == b'?' || c == b'[' || c == b'{'

-- The case '*', with `p` after the star.
unfoldable pub match_star : (Bytes → Bytes → Verdict) → Bytes → Bytes → Verdict
match_star next str p = elim (skip_stars p) [
  | [] ↦ accept
  | c ∷ q ↦ try_each (λ s. next s (c ∷ q)) (if is_open c then str else skip_until c str)
]

-- How the loop over a set ends: by `return false`, with `match` and the pointer into the
-- pattern, or with the pointer beyond the terminator (and `match` false).
pub data SetEnd : Type 0 where
  failed beyond : SetEnd
  stopped : Bool → Bytes → SetEnd

-- `while (!match && (c = *p++))`, for the character `x` of the string.
unfoldable pub set_loop : ℕ → Bytes → SetEnd
set_loop x [] = beyond
set_loop x (c ∷ []) = failed
set_loop x (c ∷ d ∷ []) =
    if d == b'-'
    then failed
    else if d == b']'
    then stopped (c == x) (d ∷ [])
    else if c == x || d == x
    then stopped true (d ∷ [])
    else failed
set_loop x (c ∷ d ∷ e ∷ p) =
    let after_range = set_loop x (e ∷ p) in
    let after_one = set_loop x (d ∷ e ∷ p) in
    if d == b'-'
    then (if e == b']'
        then stopped (leb (char_value c) (char_value x)) (e ∷ p)
        else if x == c
            || x == e
            || (ltb (char_value c) (char_value x) && ltb (char_value x) (char_value e))
        then stopped true (e ∷ p)
        else after_range)
    else if d == b']'
    then stopped (c == x) (d ∷ e ∷ p)
    else if c == x || d == x
    then stopped true (d ∷ e ∷ p)
    else after_one

-- `while (*p && *p != ']') p++; if (!*p++) return false`
unfoldable pub skip_set : Bytes → Option Bytes
skip_set [] = none
skip_set (c ∷ p) = if c == b']' then some p else skip_set p

unfoldable pub after_set : (Bytes → Verdict) → Bool → SetEnd → Verdict
after_set next negate failed = reject
after_set next negate beyond = if negate then over_read else reject
after_set next negate (stopped found p) =
    let go : Verdict = elim (skip_set p) [ none ↦ reject | some q ↦ next q ] in
    if negate then (if found then reject else go) else (if found then go else reject)

abbrev pub starts_negated : Bytes → Bool
starts_negated [] = false
starts_negated (c ∷ p) = c == b'!'

abbrev pub tail_of : Bytes → Bytes
tail_of [] = []
tail_of (c ∷ p) = p

-- The case '[', with `x ∷ str` the string and `p` after the bracket.
unfoldable pub match_set : (Bytes → Bytes → Verdict) → ℕ → Bytes → Bytes → Verdict
match_set next x str p =
    let negate = starts_negated p in
    after_set (next str) negate (set_loop x (if negate then tail_of p else p))

-- `while (*remainder && *remainder != '}') remainder++; if (!*remainder++) return false`
unfoldable pub after_brace : Bytes → Option Bytes
after_brace [] = none
after_brace (c ∷ p) = let rest = after_brace p in if c == b'}' then some p else rest

-- The loop over the alternatives, by the pattern from the character `c = *p++` on. `skipping` is
-- the inner loop to the next comma. At the end of the pattern `c` is NUL and `p` is beyond it, so
-- that the next test of `*p` reads outside the pattern.
unfoldable pub brace_loop :
    (Bytes → Bytes → Verdict) → Bytes → Bytes → Bool → Bytes → Bytes → Verdict
brace_loop next remainder place skipping str [] = over_read
brace_loop next remainder place true str (c ∷ p) =
    let resume = brace_loop next remainder place false place p in
    let skip = brace_loop next remainder place true place p in
    if c == b',' then resume else if c == b'}' then reject else skip
brace_loop next remainder place false str (c ∷ []) =
    if c == b','
    then elim (next str remainder) [
      | accept ↦ accept
      | reject ↦ reject
      | over_read ↦ over_read
      | no_fuel ↦ no_fuel
    ]
    else if c == b'}'
    then (if length str == 0 then accept else next str [])
    else elim str [
      | [] ↦ over_read
      | x ∷ s ↦
          if c == x
          then (if length s == 0 && not (length remainder == 0) then reject else over_read)
          else over_read
    ]
brace_loop next remainder place false str (c ∷ d ∷ p) =
    -- After a failed alternative the C code skips `d` as if it were the comma.
    let resume = brace_loop next remainder place false place p in
    let skip = brace_loop next remainder place true place (d ∷ p) in
    if c == b','
    then elim (next str remainder) [
      | accept ↦ accept
      | reject ↦ resume
      | over_read ↦ over_read
      | no_fuel ↦ no_fuel
    ]
    else if c == b'}'
    then next str (d ∷ p)
    else elim str [
      | [] ↦ skip
      | x ∷ s ↦
          let on = brace_loop next remainder place false s (d ∷ p) in
          if c == x
          then (if length s == 0 && not (length remainder == 0) then reject else on)
          else skip
    ]

-- The case '{', with `p` after the brace.
unfoldable pub match_brace : (Bytes → Bytes → Verdict) → Bytes → Bytes → Verdict
match_brace next str p = elim (after_brace p) [
  | none ↦ reject
  | some remainder ↦ brace_loop next remainder str false str p
]

-- One round of the outer loop at the pattern `c ∷ p`; `next` is the rest of the work.
unfoldable pub round : (Bytes → Bytes → Verdict) → Bytes → ℕ → Bytes → Verdict
round next [] c p = if c == b'*' then match_star next [] p else reject
round next (x ∷ str) c p =
    if c == b'*'
    then match_star next (x ∷ str) p
    else if c == b'?'
    then next str p
    else if c == b'['
    then match_set next x str p
    else if c == b'{'
    then match_brace next (x ∷ str) p
    else if c == x
    then next str p
    else reject

unfoldable pub run : ℕ → Bytes → Bytes → Verdict
run zero str p = no_fuel
run (suc fuel) [] [] = accept
run (suc fuel) (x ∷ str) [] = reject
run (suc fuel) str (c ∷ p) = round (run fuel) str c p

-- Every round and every recursive call has less of the pattern left.
unfoldable pub lo_pattern_match : Bytes → Bytes → Verdict
lo_pattern_match str p = run (suc (length p)) str p
