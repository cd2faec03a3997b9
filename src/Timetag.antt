-- ===== src/Timetag.antt =====
-- Time tags (lo/lo_osc_types.h, src/timetag.c). lo_timetag_diff computes in double, so the tests
-- that the server makes of its result are modelled, each as the exact condition on the two
-- fields under which the double passes it: the seconds are exact in a double, and the constant
-- 0.00000000023283064365 is just below 2 ^ -32.
use liblo.Base.{ℕ, ◌+◌, ◌*◌, ◌^◌, ◌≡◌, Bool, true, ◌&&◌, ltb, leb, ◌==◌, if◌then◌else◌, arith}

pub record Timetag : Type 0 where
  pub sec : ℕ
  pub frac : ℕ

-- LO_TT_IMMEDIATE.
abbrev pub immediate : Timetag
immediate = record { sec = 0; frac = 1 }

unfoldable pub is_immediate : Timetag → Bool
is_immediate t = t.sec == 0 && t.frac == 1

-- The time in units of 2 ^ -32 seconds.
abbrev pub units : Timetag → ℕ
units t = t.sec * 2 ^ 32 + t.frac

-- `lo_timetag_diff(a, b) > 0.0`.
unfoldable pub is_later : Timetag → Timetag → Bool
is_later a b = ltb (units b) (units a)

-- `lo_timetag_diff(a, b) < FLT_EPSILON`. FLT_EPSILON is 512 units; a difference of exactly 512
-- rounds below it if the seconds are equal.
unfoldable pub is_near : Timetag → Timetag → Bool
is_near a b = if a.sec == b.sec then leb a.frac (b.frac + 512) else ltb (units a) (units b + 512)

-- A time that is no later is near.
pub near_of_not_later : (a b : Timetag) → is_later a b ≡ true → is_later b a ≡ true → ⊥
unfolding is_later
near_of_not_later a b h k = ground arith
