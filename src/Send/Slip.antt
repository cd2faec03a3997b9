-- ===== src/Send/Slip.antt =====
-- slip_encode of src/send.c: its result, and the memory that it writes.
use liblo.Base.{
  ℕ, ◌+◌, ◌*◌, ◌≡◌, ◌∙◌, refl, ap, [], ◌∷◌, ◌++◌, Bytes, length, arith, leb, ◌==◌, if◌then◌else◌,
  Result, ok, fault, append_assoc,
}
use liblo.Stream.Slip.{slip_end, slip_esc, slip_esc_end, slip_esc_esc, stuffed}

-- The loop: the bytes that it puts behind `slipdata`.
unfoldable pub encode_loop : Bytes → Bytes → Bytes
encode_loop slipdata [] = slipdata
encode_loop slipdata (c ∷ d) =
    encode_loop
      (slipdata
        ++ (if c == slip_esc
            then slip_esc ∷ slip_esc_esc ∷ []
            else if c == slip_end
            then slip_esc ∷ slip_esc_end ∷ []
            else c ∷ []))
      d

-- The memory is twice as long as the data; a NUL is written behind the result.
unfoldable pub slip_encode : Bytes → Result Bytes
slip_encode d =
    let slipdata = encode_loop [] d ++ slip_end ∷ [] in
    if leb (length slipdata + 1) (length d * 2) then ok slipdata else fault

-- How many bytes are SLIP_END or SLIP_ESC.
unfoldable pub count_special : Bytes → ℕ
count_special [] = 0
count_special (c ∷ d) =
    (if c == slip_end then 1 else if c == slip_esc then 1 else 0) + count_special d

encode_loop-stuffed :
    (d slipdata : Bytes) → encode_loop slipdata d ++ slip_end ∷ [] ≡ slipdata ++ stuffed d
unfolding encode_loop stuffed
encode_loop-stuffed [] slipdata = refl
encode_loop-stuffed (c ∷ d) slipdata =
    encode_loop-stuffed d _ ∙ append_assoc slipdata _ (stuffed d) ∙ ap (λ t. slipdata ++ t) one
  where
    one :
        (if c == slip_esc
            then slip_esc ∷ slip_esc_esc ∷ []
            else if c == slip_end
            then slip_esc ∷ slip_esc_end ∷ []
            else c ∷ [])
          ++ stuffed d
        ≡ stuffed (c ∷ d)
    one = ground arith

length-stuffed : (d : Bytes) → length (stuffed d) ≡ length d + count_special d + 1
unfolding stuffed count_special
length-stuffed [] = refl
length-stuffed (c ∷ d) = ground (arith, length-stuffed d)

-- slip_encode returns the data with their special bytes stuffed, as RFC 1055 has it, if at least
-- two bytes of the data are not special; otherwise, on empty data for one, it writes beyond its
-- memory.
pub slip_encode-stuffed :
    (d : Bytes)
    → slip_encode d ≡ (if leb (count_special d + 2) (length d) then ok (stuffed d) else fault)
unfolding slip_encode
slip_encode-stuffed d =
    let loop = encode_loop-stuffed d [] in let size = length-stuffed d in rw loop (ground arith)
