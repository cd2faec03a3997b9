-- ===== src/Stream/Within.antt =====
-- How far a call of slip_decode (src/server.c) reads and writes.
use liblo.Base.{
  ℕ, zero, suc, ◌+◌, ◌≤◌, [], ◌∷◌, ◌++◌, Bytes, length, ◌==◌, if◌then◌else◌, arith, length-append,
  Bool-cases, inl, inr,
}
use liblo.Stream.Slip.{
  slip_end, slip_esc, slip_esc_end, slip_esc_esc, SlipState, Decoded, slip_loop, slip_decode, plain,
  escaped, decoded, fault,
}

-- A call that is given at least `size` bytes: what it may do.
abbrev pub StaysWithin : ℕ → ℕ → ℕ → Decoded → Type 0
StaysWithin before read size (decoded more out state n) =
    (n ≤ read + size) × (read ≤ n) × (length out + read ≤ before + n)
StaysWithin before read size fault = ⊥

StaysWithin-later :
    (b b' read size : ℕ) (r : Decoded)
    → b' ≤ b + 1
    → StaysWithin b' (read + 1) size r
    → StaysWithin b read (suc size) r
StaysWithin-later b b' read size (decoded more out state n) le h = omega arith
StaysWithin-later b b' read size fault le h = h

slip_loop_within :
    (size : ℕ) (from out : Bytes) (state : SlipState) (read : ℕ)
    → size ≤ length from
    → StaysWithin (length out) read size (slip_loop size from out state read)
unfolding slip_loop
slip_loop_within zero from out state read h = omega arith
slip_loop_within (suc size) [] out state read h = elim h [ ]
slip_loop_within (suc size) (c ∷ from) out escaped read h =
    let out' : Bytes =
      if c == slip_esc_end
      then out ++ slip_end ∷ []
      else if c == slip_esc_esc
      then out ++ slip_esc ∷ []
      else out in
    let grows : length out' ≤ length out + 1 =
      ground (arith, length-append out (slip_end ∷ []), length-append out (slip_esc ∷ [])) in
    StaysWithin-later (length out) (length out') read size
      (slip_loop size (c ∷ from) out' plain (read + 1)) grows
      (slip_loop_within size (c ∷ from) out' plain (read + 1) (omega arith))
slip_loop_within (suc size) (c ∷ from) out plain read h = elim (Bool-cases (c == slip_end)) [
  | inl at_end ↦ rw at_end (omega arith)
  | inr not_end ↦ elim (Bool-cases (c == slip_esc)) [
    | inl at_esc ↦
        rw (not_end, at_esc)
          (StaysWithin-later (length out) (length out) read size
            (slip_loop size (c ∷ from) out escaped (read + 1)) (omega arith)
            (slip_loop_within size (c ∷ from) out escaped (read + 1) (omega arith)))
    | inr not_esc ↦
        rw (not_end, not_esc)
          (StaysWithin-later (length out) (length (out ++ c ∷ [])) read size
            (slip_loop size from (out ++ c ∷ []) plain (read + 1))
            (omega (arith, length-append out (c ∷ [])))
            (slip_loop_within size from (out ++ c ∷ []) plain (read + 1) (omega arith)))
  ]
]

-- Given `size` bytes, slip_decode ends without a read beyond them, counts at most `size` bytes
-- as read, and writes at most as many as it counts.
slip_decode_within :
    (out from : Bytes) (size : ℕ) (state : SlipState)
    → size ≤ length from
    → StaysWithin (length out) 0 size (slip_decode out from size state)
unfolding slip_decode
slip_decode_within out from size state h = slip_loop_within size from out state 0 h
