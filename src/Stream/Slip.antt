-- ===== src/Stream/Slip.antt =====
-- slip_decode and detect_slip of src/server.c. The C code leaves `from` where it is on
-- SLIP_ESC and in state 1, and so does the model.
use liblo.Base.{
  ℕ, zero, suc, ◌+◌, ◌≡◌, ◌≢◌, ◌∙◌, ◌↔◌, refl, sym, ap, Bool, true, false, ◌&&◌, ◌||◌, [], ◌∷◌,
  ◌++◌, Bytes, length, ◌==◌, if◌then◌else◌, arith, append_assoc, append-nil, length-append,
  Bool-cases, inl, inr,
}

abbrev pub slip_end : ℕ
slip_end = 0o300

abbrev pub slip_esc : ℕ
slip_esc = 0o333

abbrev pub slip_esc_end : ℕ
slip_esc_end = 0o334

abbrev pub slip_esc_esc : ℕ
slip_esc_esc = 0o335

-- The state variable: 0, or 1 after SLIP_ESC.
pub data SlipState : Type 0 where
  plain escaped : SlipState

-- What a call leaves behind: `more` is its return value, `out` what has been written to the
-- buffer. `fault` is a read beyond the end of `from`.
pub data Decoded : Type 0 where
  decoded : Bool → Bytes → SlipState → ℕ → Decoded
  fault : Decoded

-- `size` rounds are left, `read` bytes have been counted.
unfoldable pub slip_loop : ℕ → Bytes → Bytes → SlipState → ℕ → Decoded
slip_loop zero from out state read = decoded true out state read
slip_loop (suc size) [] out state read = fault
slip_loop (suc size) (c ∷ from) out plain read =
    let skip = slip_loop size (c ∷ from) out escaped (read + 1) in
    let copy = slip_loop size from (out ++ c ∷ []) plain (read + 1) in
    if c == slip_end
    then decoded false out plain (read + 1)
    else if c == slip_esc
    then skip
    else copy
slip_loop (suc size) (c ∷ from) out escaped read =
    slip_loop size (c ∷ from)
      (if c == slip_esc_end
        then out ++ slip_end ∷ []
        else if c == slip_esc_esc
        then out ++ slip_esc ∷ []
        else out)
      plain (read + 1)

unfoldable pub slip_decode : Bytes → Bytes → ℕ → SlipState → Decoded
slip_decode out from size state = slip_loop size from out state 0

-- `isprint` is that of the C library.
unfoldable pub detect_slip : (ℕ → Bool) → Bytes → Bool
detect_slip isprint (a ∷ b ∷ c ∷ d ∷ _) =
    let text = λ (x : ℕ). isprint x || x == 0 in
    (a == slip_end && b == b'/' && text c && text d)
    || (a == b'/' && text b && text c && text d)
    || (a == b'#' && b == b'b' && c == b'u' && d == b'n')
detect_slip isprint _ = false

-- Neither SLIP_END nor SLIP_ESC occurs.
unfoldable pub is_plain : Bytes → Bool
is_plain [] = true
is_plain (c ∷ s) =
    (if c == slip_end then false else if c == slip_esc then false else true) && is_plain s

-- RFC 1055: a packet with its special bytes stuffed, and SLIP_END behind it.
unfoldable pub stuffed : Bytes → Bytes
stuffed [] = slip_end ∷ []
stuffed (c ∷ s) =
    if c == slip_end
    then slip_esc ∷ slip_esc_end ∷ stuffed s
    else if c == slip_esc
    then slip_esc ∷ slip_esc_esc ∷ stuffed s
    else c ∷ stuffed s

-- Plain bytes are copied one by one.
slip_loop_plain :
    (s rest out : Bytes) (size n read : ℕ)
    → size ≡ length s + n
    → is_plain s ≡ true
    → slip_loop size (s ++ rest) out plain read
      ≡ slip_loop n rest (out ++ s) plain (read + length s)
unfolding is_plain slip_loop
slip_loop_plain [] rest out size n read e h =
    let e' : size ≡ n = omega arith in
    let r : read ≡ read + 0 = omega arith in
    ap (λ k. slip_loop k rest out plain read) e'
    ∙ ap (slip_loop n rest out plain) r
    ∙ ap (λ t. slip_loop n rest t plain (read + 0)) (sym (append-nil out))
slip_loop_plain (c ∷ s) rest out zero n read e h = absurd (omega arith)
slip_loop_plain (c ∷ s) rest out (suc size) n read e h =
    let not_end : (c == slip_end) ≡ false = ground arith in
    let not_esc : (c == slip_esc) ≡ false = ground arith in
    let tail : is_plain s ≡ true = ground arith in
    let r : read + 1 + length s ≡ read + suc (length s) = omega arith in
    rw (not_end, not_esc)
      (slip_loop_plain s rest (out ++ c ∷ []) size n (read + 1) (omega arith) tail
        ∙ ap (λ t. slip_loop n rest t plain (read + 1 + length s)) (append_assoc out (c ∷ []) s)
        ∙ ap (slip_loop n rest (out ++ c ∷ s) plain) r)

even : ℕ → Bool
even zero = true
even (suc n) = if even n then false else true

-- At SLIP_ESC the decoder goes round without moving, and writes nothing more.
slip_loop_stuck :
    (n : ℕ) (from out : Bytes) (read : ℕ)
    → (slip_loop n (slip_esc ∷ from) out plain read
        ≡ decoded true out (if even n then plain else escaped) (read + n))
      × (slip_loop n (slip_esc ∷ from) out escaped read
          ≡ decoded true out (if even n then escaped else plain) (read + n))
unfolding slip_loop even
slip_loop_stuck zero from out read =
    (ap (decoded true out plain) (omega arith), ap (decoded true out escaped) (omega arith))
slip_loop_stuck (suc n) from out read =
    let (at_plain, at_escaped) = slip_loop_stuck n from out (read + 1) in
    let r : read + 1 + n ≡ read + suc n = omega arith in
    (rw (at_escaped, r) (ground arith), rw (at_plain, r) (ground arith))

-- A packet without special bytes is decoded: whatever follows its SLIP_END is left alone.
pub slip_decode-plain :
    (out s rest : Bytes)
    → is_plain s ≡ true
    → slip_decode out (s ++ slip_end ∷ rest) (length (s ++ slip_end ∷ rest)) plain
      ≡ decoded false (out ++ s) plain (length s + 1)
unfolding slip_decode
slip_decode-plain out s rest h =
    slip_loop_plain s (slip_end ∷ rest) out _ (suc (length rest)) 0
      (length-append s (slip_end ∷ rest)) h
    ∙ (unfold slip_loop in ap (decoded false (out ++ s) plain) (omega arith))

-- From the first SLIP_ESC on, everything in the call is dropped: the call ends with only the
-- plain bytes before it, having counted all of its input as read.
slip_decode-escape :
    (out s rest : Bytes)
    → is_plain s ≡ true
    → (state : SlipState) × (slip_decode out
          (s ++ slip_esc ∷ rest)
          (length (s ++ slip_esc ∷ rest))
          plain
        ≡ decoded true (out ++ s) state (length (s ++ slip_esc ∷ rest)))
unfolding slip_decode
slip_decode-escape out s rest h =
    let n = suc (length rest) in
    let size = length-append s (slip_esc ∷ rest) in
    let total : 0 + length s + n ≡ length (s ++ slip_esc ∷ rest) = omega arith in
    (
      (if even n then plain else escaped),
      slip_loop_plain s (slip_esc ∷ rest) out _ n 0 size h
          ∙ (slip_loop_stuck n rest (out ++ s) (0 + length s)).0
          ∙ ap (decoded true (out ++ s) (if even n then plain else escaped)) total,
    )

stuffed_special :
    (s : Bytes)
    → is_plain s ≡ false
    → (front back : Bytes) × (is_plain front ≡ true) × (stuffed s ≡ front ++ slip_esc ∷ back)
unfolding is_plain stuffed
stuffed_special [] h = absurd (cc)
stuffed_special (c ∷ s) h = elim (Bool-cases (c == slip_end)) [
  | inl at_end ↦ ([], slip_esc_end ∷ stuffed s, refl, rw at_end)
  | inr not_end ↦ elim (Bool-cases (c == slip_esc)) [
    | inl at_esc ↦ ([], slip_esc_esc ∷ stuffed s, refl, rw (not_end, at_esc))
    | inr not_esc ↦
        let tail : is_plain s ≡ false = ground arith in
        let (front, back, plain_front, split) = stuffed_special s tail in
        (
          c ∷ front,
          back,
          rw (not_end, not_esc) plain_front,
          rw (not_end, not_esc) (ap (λ t. c ∷ t) split),
        )
  ]
]

stuffed_plain : (s : Bytes) → is_plain s ≡ true → stuffed s ≡ s ++ slip_end ∷ []
unfolding is_plain stuffed
stuffed_plain [] h = refl
stuffed_plain (c ∷ s) h =
    let not_end : (c == slip_end) ≡ false = ground arith in
    let not_esc : (c == slip_esc) ≡ false = ground arith in
    rw (not_end, not_esc) (ap (λ t. c ∷ t) (stuffed_plain s (ground arith)))

-- An encoded packet is decoded to its content exactly if the content has no byte to be stuffed.
pub slip_decode-encode_iff :
    (out s rest : Bytes)
    → (slip_decode out (stuffed s ++ rest) (length (stuffed s ++ rest)) plain
        ≡ decoded false (out ++ s) plain (length s + 1))
      ↔ (is_plain s ≡ true)
slip_decode-encode_iff out s rest = (needs_plain, decodes)
  where
    run : Bytes → Decoded
    run from = slip_decode out from (length from) plain

    decodes :
        is_plain s ≡ true → run (stuffed s ++ rest) ≡ decoded false (out ++ s) plain (length s + 1)
    decodes h =
        ap (λ t. run (t ++ rest)) (stuffed_plain s h)
        ∙ ap run (append_assoc s (slip_end ∷ []) rest)
        ∙ slip_decode-plain out s rest h

    stuck :
        is_plain s ≡ false → run (stuffed s ++ rest) ≢ decoded false (out ++ s) plain (length s + 1)
    stuck h e =
        let (front, back, plain_front, split) = stuffed_special s h in
        let (state, ends) = slip_decode-escape out front (back ++ rest) plain_front in
        let from = ap (λ t. t ++ rest) split ∙ append_assoc front (slip_esc ∷ back) rest in
        absurd (cc (sym e ∙ ap run from ∙ ends))

    needs_plain :
        run (stuffed s ++ rest) ≡ decoded false (out ++ s) plain (length s + 1) → is_plain s ≡ true
    needs_plain e = elim (Bool-cases (is_plain s)) [ inl h ↦ h | inr h ↦ absurd (stuck h e) ]
