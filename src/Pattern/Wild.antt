-- ===== src/Pattern/Wild.antt =====
-- Patterns of plain characters, '?' and '*': the matcher decides an inductive relation.
use liblo.Base.{
  ℕ, zero, suc, ◌≤◌, ◌<◌, ◌≡◌, ◌≢◌, ◌↔◌, false, [], ◌∷◌, Bytes, length, ◌==◌, arith, if◌then◌else◌,
  Bool-cases, inl, inr,
}
use liblo.Pattern.Fuel.{length-skip_stars}
use liblo.Pattern.Match.{
  Verdict, accept, reject, over_read, no_fuel, skip_stars, skip_until, try_each, match_star, round,
  run, lo_pattern_match, is_open,
}
use liblo.Pattern.Stars.{
  Matches, IsWild, Decides, skip_stars_star, skip_stars_other, star_inv, star_nil_inv, one_nil,
  one_inv, star_all, skip_stars_iff, skip_until_iff, done, same, any, leave, take_one,
}

-- Every place is tried: the verdict on a star before a pattern that does not begin with one.
try_each-Decides :
    (match : Bytes → Verdict) (c d : ℕ) (q str : Bytes)
    → c ≡ b'*'
    → d ≢ b'*'
    → ((s : Bytes) → Decides (Matches (d ∷ q) s) (match s))
    → Decides (Matches (c ∷ d ∷ q) str) (try_each match str)
unfolding try_each
try_each-Decides match c d q [] h k ih = λ m. one_nil k (star_nil_inv h m)
try_each-Decides match c d q (x ∷ str) h k ih =
    go (match (x ∷ str)) (ih (x ∷ str)) (try_each match str)
      (try_each-Decides match c d q str h k ih)
  where
    go :
        (v : Verdict)
        → Decides (Matches (d ∷ q) (x ∷ str)) v
        → (w : Verdict) → Decides (Matches (c ∷ d ∷ q) str) w
        → Decides
            (Matches (c ∷ d ∷ q) (x ∷ str))
            (elim v [ accept ↦ accept | reject ↦ w | over_read ↦ over_read | no_fuel ↦ no_fuel ])
    go accept m w n = leave h m
    go reject m accept n = take_one h n
    go reject m reject n = λ t. elim (star_inv h t) [ inl now ↦ m now | inr later ↦ n later ]
    go reject m over_read n = n
    go reject m no_fuel n = n
    go over_read m w n = m
    go no_fuel m w n = m

-- What is left after stars: nothing, or a pattern that does not begin with a star.
abbrev AfterStars : Bytes → Type 0
AfterStars [] = Unit
AfterStars (d ∷ q) = (d ≢ b'*') × IsWild (d ∷ q)

skip_stars_after : (p : Bytes) → IsWild p → AfterStars (skip_stars p)
skip_stars_after [] h = unfold skip_stars in tt
skip_stars_after (c ∷ p) h = elim (Bool-cases (c == b'*')) [
  | inl e ↦ rw (skip_stars_star c p (ground arith)) (skip_stars_after p h.2)
  | inr e ↦ let other : c ≢ b'*' = ground arith in rw (skip_stars_other c p other) (other, h)
]

Decides-iff : {G H : Type 0} (v : Verdict) → G ↔ H → Decides G v → Decides H v
Decides-iff accept e h = e.0 h
Decides-iff reject e h = λ g. h (e.1 g)
Decides-iff over_read e h = h
Decides-iff no_fuel e h = h

-- The matcher on `n` bytes of pattern at most.
abbrev Right : (Bytes → Bytes → Verdict) → ℕ → Type 0
Right next n = (s q : Bytes) → length q ≤ n → IsWild q → Decides (Matches q s) (next s q)

match_star-Decides :
    (next : Bytes → Bytes → Verdict) (c : ℕ) (str p : Bytes)
    → c ≡ b'*'
    → IsWild p
    → Right next (length p)
    → Decides (Matches (c ∷ p) str) (match_star next str p)
unfolding match_star
match_star-Decides next c str p h wild right =
    Decides-iff (match_star next str p) ((skip_stars_iff c p str h).1, (skip_stars_iff c p str h).0)
      (go (skip_stars p) (skip_stars_after p wild) (length-skip_stars p))
  where
    go :
        (q : Bytes)
        → AfterStars q
        → length q ≤ length p
        → Decides (Matches (c ∷ q) str) (elim q as (λ _. Verdict) [
          | [] ↦ accept
          | c ∷ q ↦ try_each (λ s. next s (c ∷ q)) (if is_open c then str else skip_until c str)
        ])
    go [] w le = star_all str h
    go (d ∷ q) (other, w) le = elim (Bool-cases (is_open d)) [
      | inl e ↦ rw e (try_each-Decides _ c d q str h other (λ s. right s (d ∷ q) le w))
      | inr e ↦
          let two = skip_until_iff c d q str h other (ground arith) in
          rw e (
            Decides-iff (try_each (λ s. next s (d ∷ q)) (skip_until d str)) (two.1, two.0)
              (try_each-Decides _ c d q (skip_until d str) h other (λ s. right s (d ∷ q) le w)))
    ]

round-Decides :
    (next : Bytes → Bytes → Verdict) (str : Bytes) (c : ℕ) (p : Bytes)
    → IsWild (c ∷ p)
    → Right next (length p)
    → Decides (Matches (c ∷ p) str) (round next str c p)
unfolding round
round-Decides next [] c p w right = elim (Bool-cases (c == b'*')) [
  | inl e ↦ rw e (match_star-Decides next c [] p (ground arith) w.2 right)
  | inr e ↦ rw e (one_nil (ground arith))
]
round-Decides next (x ∷ str) c p w right = elim (Bool-cases (c == b'*')) [
  | inl e ↦ rw e (match_star-Decides next c (x ∷ str) p (ground arith) w.2 right)
  | inr e ↦ elim (Bool-cases (c == b'?')) [
    | inl q ↦
        rw (e, q)
          (Decides-iff (next str p) (λ m. any (ground arith) m, λ m. (one_inv (ground arith) m).1)
            (right str p (omega arith) w.2))
    | inr q ↦
        let no_set : (c == b'[') ≡ false = ground arith in
        let no_brace : (c == b'{') ≡ false = ground arith in
        elim (Bool-cases (c == x)) [
          | inl s ↦
              rw (e, q, no_set, no_brace, s)
                (Decides-iff (next str p)
                  (λ m. same (ground arith) (ground arith) m, λ m. (one_inv (ground arith) m).1)
                  (right str p (omega arith) w.2))
          | inr s ↦
              rw (e, q, no_set, no_brace, s)
                λ m. elim (one_inv (ground arith) m).0 [
                  | inl h ↦ ground arith
                  | inr h ↦ ground arith
                ]
        ]
  ]
]

run-Decides :
    (fuel : ℕ) (str p : Bytes)
    → length p < fuel
    → IsWild p
    → Decides (Matches p str) (run fuel str p)
unfolding run
run-Decides zero str p h w = elim h [ ]
run-Decides (suc fuel) [] [] h w = done
run-Decides (suc fuel) (x ∷ str) [] h w = λ m. elim m [ ]
run-Decides (suc fuel) [] (c ∷ p) h w =
    round-Decides (run fuel) [] c p w (λ s q le v. run-Decides fuel s q (omega arith) v)
run-Decides (suc fuel) (x ∷ str) (c ∷ p) h w =
    round-Decides (run fuel) (x ∷ str) c p w (λ s q le v. run-Decides fuel s q (omega arith) v)

-- On a pattern without sets and braces lo_pattern_match answers, and answers true exactly on the
-- strings that match.
pub lo_pattern_match-Decides :
    (str p : Bytes) → IsWild p → Decides (Matches p str) (lo_pattern_match str p)
unfolding lo_pattern_match
lo_pattern_match-Decides str p w = run-Decides (suc (length p)) str p (omega arith) w
