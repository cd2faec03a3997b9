-- ===== src/Bundle/Rounds.antt =====
-- One round of the loop of lo_bundle_serialise (src/bundle.c) and its header.
use liblo.Base.{
  ℕ, ◌+◌, ◌-◌, ◌≤◌, ◌≡◌, ◌∙◌, refl, sym, ap, ap₂, Bool, true, false, ◌∷◌, ◌++◌, Bytes, length, take,
  drop, arith, codes, append_assoc, length-append, ltb, overwrite, blit, overwrite_whole,
  take-append_self, drop-append_self, drop-drop, length-take,
}
use liblo.Osc.{store32, length-store32, lo_otoh32}
use liblo.Osc.Padding.{padded}
use liblo.Bundle.State.{Bundle}
use liblo.Bundle.Packet.{Packet, Packets, cons, tag_bytes, packet_bytes, packets_bytes}
use liblo.Bundle.Sizes.{length-packets_bytes}
use liblo.Bundle.Serialise.{Written, written, behind, close_element, close_bundle, put_header}

lo_otoh32-store32 : (big : Bool) (n : ℕ) → lo_otoh32 big (store32 big n) ≡ store32 true n
unfolding lo_otoh32 store32
lo_otoh32-store32 true n = refl
lo_otoh32-store32 false n = refl

-- The name and the time tag, and what follows them in the buffer.
pub put_header_lem :
    (big : Bool) (v : Bundle) (to : Bytes)
    → 16 ≤ length to
    → put_header big v to ≡ (padded (codes "#bundle") ++ tag_bytes v.ts) ++ drop 16 to
unfolding put_header overwrite blit padded tag_bytes lo_otoh32 store32
put_header_lem true v (a ∷ b ∷ c ∷ d ∷ e ∷ f ∷ g ∷ h ∷ i ∷ j ∷ k ∷ l ∷ m ∷ n ∷ o ∷ p ∷ to) size =
    refl
put_header_lem false v (a ∷ b ∷ c ∷ d ∷ e ∷ f ∷ g ∷ h ∷ i ∷ j ∷ k ∷ l ∷ m ∷ n ∷ o ∷ p ∷ to) size =
    refl
put_header_lem big v to size = absurd (omega arith)

-- One round, for an element of `n` bytes that has been written behind the place of its size.
close_element_lem :
    (big : Bool) (bytes pos : Bytes) (n room : ℕ) (next : Bytes → ℕ → Written)
    → n ≡ length bytes
    → n + 4 ≤ room
    → room ≤ length pos
    → close_element big n pos (bytes ++ drop n (drop 4 pos)) room next
      ≡ behind (store32 true n ++ bytes) (next (drop (n + 4) pos) (room - (n + 4)))
unfolding close_element
close_element_lem big bytes pos n room next size fits long =
    let word = store32 true n in
    let rest = drop n (drop 4 pos) in
    let past : rest ≡ drop (n + 4) pos = drop-drop n 4 (n + 4) pos (omega arith) in
    let start : overwrite (take 4 pos) (lo_otoh32 big (store32 big n)) ≡ word =
      ap (overwrite (take 4 pos)) (lo_otoh32-store32 big n)
      ∙ overwrite_whole (take 4 pos) word
          (omega (arith, length-store32 true n, length-take 4 pos)) in
    let shape : overwrite (take 4 pos) (lo_otoh32 big (store32 big n)) ++ (bytes ++ rest)
        ≡ (word ++ bytes) ++ drop (n + 4) pos =
      ap₂ (λ x y. x ++ (bytes ++ y)) start past
      ∙ sym (append_assoc word bytes (drop (n + 4) pos)) in
    let count : n + 4 ≡ length (word ++ bytes) =
      omega (arith, length-append word bytes, length-store32 true n) in
    let front : take (n + 4) ((word ++ bytes) ++ drop (n + 4) pos) ≡ word ++ bytes =
      ap (λ k. take k ((word ++ bytes) ++ drop (n + 4) pos)) count
      ∙ take-append_self (word ++ bytes) (drop (n + 4) pos) in
    let back : drop (n + 4) ((word ++ bytes) ++ drop (n + 4) pos) ≡ drop (n + 4) pos =
      ap (λ k. drop k ((word ++ bytes) ++ drop (n + 4) pos)) count
      ∙ drop-append_self (word ++ bytes) (drop (n + 4) pos) in
    let enough : ltb room (n + 4) ≡ false = ground arith in rw (enough, shape, front, back) refl

-- What a nested call or a message leaves, with what came before.
joined :
    (big : Bool) (n : ℕ) (bytes rest tail pos : Bytes) (room : ℕ)
    → n ≡ length bytes
    → rest ≡ tail ++ drop (room - (n + 4)) (drop (n + 4) pos)
    → n + 4 ≤ room
    → (store32 true n ++ bytes) ++ rest
      ≡ (store32 true (length bytes) ++ (bytes ++ tail)) ++ drop room pos
joined big n bytes rest tail pos room size e fits =
    let word = store32 true n in
    let last : drop (room - (n + 4)) (drop (n + 4) pos) ≡ drop room pos =
      drop-drop (room - (n + 4)) (n + 4) room pos (omega arith) in
    append_assoc word bytes rest
    ∙ ap (λ t. word ++ (bytes ++ t)) (e ∙ ap (λ t. tail ++ t) last)
    ∙ ap (λ t. word ++ t) (sym (append_assoc bytes tail (drop room pos)))
    ∙ sym (append_assoc word (bytes ++ tail) (drop room pos))
    ∙ ap (λ k. (store32 true k ++ (bytes ++ tail)) ++ drop room pos) size

-- A round writes the packet behind its size, if the rest of the loop writes the others.
pub close_element-packet :
    (big : Bool) (n : ℕ) (bytes : Bytes) (p : Packet) (ps : Packets) (pos : Bytes) (room : ℕ)
    (next : Bytes → ℕ → Written)
    → n ≡ length bytes
    → bytes ≡ packet_bytes big p
    → room ≡ length (packets_bytes big (cons p ps))
    → room ≤ length pos
    → next (drop (n + 4) pos) (room - (n + 4))
      ≡ written (packets_bytes big ps ++ drop (room - (n + 4)) (drop (n + 4) pos))
    → close_element big n pos (bytes ++ drop n (drop 4 pos)) room next
      ≡ written (packets_bytes big (cons p ps) ++ drop room pos)
unfolding packets_bytes behind
close_element-packet big n bytes p ps pos room next count is_packet size long e =
    let all = length-packets_bytes big p ps in
    let fits : n + 4 ≤ room = omega (arith, ap length is_packet) in
    let tail = packets_bytes big ps in
    close_element_lem big bytes pos n room next count fits long
    ∙ ap (behind (store32 true n ++ bytes)) e
    ∙ ap written (joined big n bytes _ tail pos room count refl fits)
    ∙ ap (λ x. written ((store32 true (length x) ++ (x ++ tail)) ++ drop room pos)) is_packet

pub close_bundle_written :
    (big : Bool) (n : ℕ) (body pos : Bytes) (room : ℕ) (next : Bytes → ℕ → Written)
    → close_bundle big (n, written body) pos room next ≡ close_element big n pos body room next
unfolding close_bundle
close_bundle_written big n body pos room next = refl
