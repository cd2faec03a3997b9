-- ===== src/Bundle/Wire.antt =====
-- The bytes that lo_bundle_serialise produces: those of the packet that the bundle stands for.
use liblo.Base.{
  ℕ, zero, suc, ◌+◌, ◌-◌, ◌≤◌, ◌≡◌, ◌∙◌, refl, sym, ap, subst, Bool, none, some, List, [], ◌∷◌,
  ◌++◌, Bytes, length, take, drop, arith, codes, append_assoc, take-append_self, drop-append_self,
  drop-drop, length-drop, replicate, length-replicate, append-nil,
}
use liblo.Timetag.{Timetag}
use liblo.Osc.{store32}
use liblo.Osc.Padding.{IsText, padded}
use liblo.Message.{lo_message_length}
use liblo.Message.Wire.{message_bytes, lo_message_serialise-some, drop-all}
use liblo.Message.Sizes.{lo_message_length-message_bytes}
use liblo.Bundle.State.{Element, Heap, message, bundle, lo_bundle_length}
use liblo.Bundle.Packet.{
  Packets, message_of, bundle_of, nil, cons, tag_bytes, packet_bytes, packets_bytes, IsPacket,
  ArePackets, IsWithin, AreWithin, StandsFor, StandFor,
}
use liblo.Bundle.Sizes.{length-bundle_bytes, length-packets_bytes, lo_bundle_length-StandsFor}
use liblo.Bundle.Serialise.{
  written, behind, serialise_elements, serialise_sized, serialise_bundle, lo_bundle_serialise,
}
use liblo.Bundle.Rounds.{put_header_lem, close_element-packet, close_bundle_written}

-- The loop at fuel `fuel` writes the packets, at any place with room for them.
abbrev Writes : Bool → Heap → ℕ → List Element → Packets → Type 0
Writes big h fuel es ps =
    (pos : Bytes) (room : ℕ)
    → room ≡ length (packets_bytes big ps)
    → room ≤ length pos
    → serialise_elements big h (serialise_bundle big h fuel) es pos room
      ≡ written (packets_bytes big ps ++ drop room pos)

serialise_sized_lem :
    (big : Bool) (h : Heap) (fuel : ℕ) (ps : Packets) (b : ℕ) (to : Bytes) (s : ℕ)
    → Writes big h fuel (h.bundles b).elmnts ps
    → s ≡ 16 + length (packets_bytes big ps)
    → s ≤ length to
    → serialise_sized big h (serialise_bundle big h fuel) b to s
      ≡ written (packet_bytes big (bundle_of (h.bundles b).ts ps) ++ drop s to)
unfolding serialise_sized packet_bytes
serialise_sized_lem big h fuel ps b to s writes size long =
    let v = h.bundles b in
    let head = padded (codes "#bundle") ++ tag_bytes v.ts in
    let rest = packets_bytes big ps in
    let filled = put_header_lem big v to (omega arith) in
    let sixteen : length head ≡ 16 = unfold padded tag_bytes store32 in refl in
    let front : take 16 (head ++ drop 16 to) ≡ head =
      ap (λ k. take k (head ++ drop 16 to)) (sym sixteen) ∙ take-append_self head (drop 16 to) in
    let back : drop 16 (head ++ drop 16 to) ≡ drop 16 to =
      ap (λ k. drop k (head ++ drop 16 to)) (sym sixteen) ∙ drop-append_self head (drop 16 to) in
    let last : drop (s - 16) (drop 16 to) ≡ drop s to = drop-drop (s - 16) 16 s to (omega arith) in
    let inner = writes (drop 16 to) (s - 16) (omega arith) (omega (arith, length-drop 16 to)) in
    let shape : head ++ (rest ++ drop s to)
        ≡ (padded (codes "#bundle") ++ (tag_bytes v.ts ++ rest)) ++ drop s to =
      sym (append_assoc head rest (drop s to))
      ∙ ap (λ t. t ++ drop s to) (append_assoc (padded (codes "#bundle")) (tag_bytes v.ts) rest) in
    rw (filled, front, back, inner, last) (unfold behind in ap written shape)

serialise_bundle_step :
    (big : Bool) (h : Heap) (fuel : ℕ) (ts : Timetag) (ps : Packets) (b : ℕ) (to : Bytes)
    → Writes big h fuel (h.bundles b).elmnts ps
    → (h.bundles b).ts ≡ ts
    → lo_bundle_length h (suc fuel) b ≡ some (length (packet_bytes big (bundle_of ts ps)))
    → length (packet_bytes big (bundle_of ts ps)) ≤ length to
    → let bytes = packet_bytes big (bundle_of ts ps) in
      serialise_bundle big h (suc fuel) b to
      ≡ (length bytes, written (bytes ++ drop (length bytes) to))
serialise_bundle_step big h fuel ts ps b to writes tag size long =
    let n = length (packet_bytes big (bundle_of ts ps)) in
    let sized =
      serialise_sized_lem big h fuel ps b to n writes (length-bundle_bytes big ts ps) long in
    unfold serialise_bundle in
    (rw (size, serialise_bundle)
      (ap (λ x. (n, x)) sized
        ∙ ap (λ t. (n, written (packet_bytes big (bundle_of t ps) ++ drop n to))) tag))

-- The loop over the elements writes each packet behind its size, and leaves what follows.
serialise_elements-StandFor :
    (big : Bool) (h : Heap) (fuel : ℕ) (ps : Packets) (es : List Element)
    → StandFor big h es ps
    → ArePackets ps
    → AreWithin fuel ps
    → Writes big h fuel es ps
unfolding serialise_elements
serialise_elements-StandFor big h fuel nil [] s v w pos room size long =
    let none_left : room ≡ 0 = size ∙ (unfold packets_bytes in refl) in
    rw none_left (unfold packets_bytes in refl)
serialise_elements-StandFor big h fuel (cons (message_of path args) ps) (message path' m ∷ es) s v w
      pos room size long =
    let n = lo_message_length (h.messages m) path' in
    let text = subst IsText (sym s.0.0) v.0.1 in
    let bytes = message_bytes big path' args in
    let count : n ≡ length bytes =
      lo_message_length-message_bytes big (h.messages m) path' args s.0.1 text in
    let is_packet : bytes ≡ packet_bytes big (message_of path args) =
      ap (λ t. message_bytes big t args) s.0.0 ∙ (unfold packet_bytes in refl) in
    let all = length-packets_bytes big (message_of path args) ps in
    let fits : n + 4 ≤ room = omega (arith, ap length is_packet) in
    let sent =
      lo_message_serialise-some big (h.messages m) path' args (drop 4 pos) s.0.1 v.0.0 text
        (omega (arith, length-drop 4 pos)) in
    rw sent (
      close_element-packet big n bytes (message_of path args) ps pos room _ count is_packet size
        long
        (serialise_elements-StandFor big h fuel ps es s.1 v.1 w.1 (drop (n + 4) pos)
          (room - (n + 4)) (omega (arith, ap length is_packet))
          (omega (arith, length-drop (n + 4) pos))))
serialise_elements-StandFor big h zero (cons (bundle_of ts qs) ps) (bundle c ∷ es) s v w pos room
      size long =
    absurd w.0
serialise_elements-StandFor big h (suc fuel) (cons (bundle_of ts qs) ps) (bundle c ∷ es) s v w pos
      room size long =
    let bytes = packet_bytes big (bundle_of ts qs) in
    let n = length bytes in
    let all = length-packets_bytes big (bundle_of ts qs) ps in
    let fits : n + 4 ≤ room = omega arith in
    let sent : serialise_bundle big h (suc fuel) c (drop 4 pos)
        ≡ (n, written (bytes ++ drop n (drop 4 pos))) =
      serialise_bundle_step big h fuel ts qs c (drop 4 pos)
        (serialise_elements-StandFor big h fuel qs (h.bundles c).elmnts s.0.1 v.0.2 w.0) s.0.0
        (lo_bundle_length-StandsFor big h (suc fuel) c ts qs s.0 v.0 w.0)
        (omega (arith, length-drop 4 pos)) in
    rw sent (
      close_bundle_written big n (bytes ++ drop n (drop 4 pos)) pos room _
      ∙ close_element-packet big n bytes (bundle_of ts qs) ps pos room _ refl refl size long (
          serialise_elements-StandFor big h (suc fuel) ps es s.1 v.1 w.1 (drop (n + 4) pos)
            (room - (n + 4)) (omega arith) (omega (arith, length-drop (n + 4) pos))))
serialise_elements-StandFor big h fuel nil (e ∷ es) s v w pos room size long = absurd s
serialise_elements-StandFor big h fuel (cons p ps) [] s v w pos room size long = absurd s
serialise_elements-StandFor big h fuel (cons (message_of path args) ps) (bundle c ∷ es) s v w pos
      room size long =
    absurd s.0
serialise_elements-StandFor big h fuel (cons (bundle_of ts qs) ps) (message path m ∷ es) s v w pos
      room size long =
    absurd s.0

-- If a bundle of the heap stands for a packet and the fuel is above the depth to which bundles are
-- nested, lo_bundle_serialise reports the length of the packet's bytes, which is also that of
-- lo_bundle_length, and writes these bytes at the start of a buffer with room for them, whatever
-- it holds, and leaves what follows them alone; without a buffer it returns these bytes.
pub lo_bundle_serialise-StandsFor :
    (big : Bool) (h : Heap) (fuel : ℕ) (ts : Timetag) (ps : Packets) (b : ℕ) (to : Bytes)
    → StandsFor big h (bundle b) (bundle_of ts ps)
    → IsPacket (bundle_of ts ps)
    → IsWithin fuel (bundle_of ts ps)
    → length (packet_bytes big (bundle_of ts ps)) ≤ length to
    → let bytes = packet_bytes big (bundle_of ts ps) in
      (lo_bundle_length h fuel b ≡ some (length bytes))
      × (lo_bundle_serialise big h fuel b (some to)
          ≡ (length bytes, written (bytes ++ drop (length bytes) to)))
      × (lo_bundle_serialise big h fuel b none ≡ (length bytes, written bytes))
unfolding lo_bundle_serialise
lo_bundle_serialise-StandsFor big h zero ts ps b to s v w long = absurd w
lo_bundle_serialise-StandsFor big h (suc fuel) ts ps b to s v w long =
    let bytes = packet_bytes big (bundle_of ts ps) in
    let n = length bytes in
    let size = lo_bundle_length-StandsFor big h (suc fuel) b ts ps s v w in
    let into : (to : Bytes)
        → n ≤ length to
        → serialise_bundle big h (suc fuel) b to ≡ (n, written (bytes ++ drop n to)) =
      λ to long.
        serialise_bundle_step big h fuel ts ps b to
          (serialise_elements-StandFor big h fuel ps (h.bundles b).elmnts s.1 v.2 w) s.0 size
          long in
    let zeros : Bytes = replicate n 0 in
    let whole : bytes ++ drop n zeros ≡ bytes =
      ap (λ t. bytes ++ t) (drop-all n zeros (omega (arith, length-replicate {A = ℕ} n 0)))
      ∙ append-nil bytes in
    (
      size,
      into to long,
      rw (size, lo_bundle_serialise)
          (into zeros (omega (arith, length-replicate {A = ℕ} n 0))
            ∙ ap (λ x. (n, written x)) whole),
    )
