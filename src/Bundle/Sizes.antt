-- ===== src/Bundle/Sizes.antt =====
-- The sizes that lo_bundle_length computes: those of the packet that the bundle stands for.
use liblo.Base.{
  ℕ, zero, suc, ◌+◌, ◌*◌, ◌≡◌, ◌∙◌, refl, sym, ap, Bool, true, some, List, [], ◌∷◌, ◌++◌, length,
  arith, codes, length-append,
}
use liblo.Timetag.{Timetag}
use liblo.Osc.{store32, length-store32}
use liblo.Osc.Padding.{padded, length-padded}
use liblo.Message.{lo_message_length}
use liblo.Message.Wire.{message_bytes}
use liblo.Message.Sizes.{lo_message_length-message_bytes}
use liblo.Bundle.State.{Element, Heap, message, bundle, add_lengths, lo_bundle_length}
use liblo.Bundle.Packet.{
  Packet, Packets, message_of, bundle_of, nil, cons, tag_bytes, packet_bytes, packets_bytes,
  IsPacket, ArePackets, IsWithin, AreWithin, StandsFor, StandFor,
}

pub length-bundle_bytes :
    (big : Bool) (ts : Timetag) (ps : Packets)
    → length (packet_bytes big (bundle_of ts ps)) ≡ 16 + length (packets_bytes big ps)
unfolding packet_bytes tag_bytes
length-bundle_bytes big ts ps =
    let sec = store32 true ts.sec in
    let frac = store32 true ts.frac in
    let rest = packets_bytes big ps in
    omega (
      arith,
      length-append (padded (codes "#bundle")) ((sec ++ frac) ++ rest),
      length-padded (codes "#bundle"),
      length-append (sec ++ frac) rest,
      length-append sec frac,
      length-store32 true ts.sec,
      length-store32 true ts.frac,
    )

pub length-packets_bytes :
    (big : Bool) (p : Packet) (ps : Packets)
    → length (packets_bytes big (cons p ps))
      ≡ 4 + length (packet_bytes big p) + length (packets_bytes big ps)
unfolding packets_bytes
length-packets_bytes big p ps =
    let bytes = packet_bytes big p in
    let rest = packets_bytes big ps in
    omega (
      arith,
      length-append (store32 true (length bytes)) (bytes ++ rest),
      length-store32 true (length bytes),
      length-append bytes rest,
    )

-- The sizes of the elements, their size words included, over the accumulator of the loop.
add_lengths-StandFor :
    (big : Bool) (h : Heap) (fuel : ℕ) (ps : Packets) (es : List Element) (base : ℕ)
    → StandFor big h es ps
    → ArePackets ps
    → AreWithin fuel ps
    → add_lengths h (lo_bundle_length h fuel) (base + length es * 4) es
      ≡ some (base + length (packets_bytes big ps))
unfolding add_lengths lo_bundle_length
add_lengths-StandFor big h fuel nil [] base s v w = ap some (unfold packets_bytes in omega arith)
add_lengths-StandFor big h fuel (cons (message_of path args) ps) (message path' m ∷ es) base s v w =
    let bytes = message_bytes big path args in
    let size : lo_message_length (h.messages m) path' ≡ length bytes =
      ap (lo_message_length (h.messages m)) s.0.0
      ∙ lo_message_length-message_bytes big (h.messages m) path args s.0.1 v.0.1 in
    let shift : base + suc (length es) * 4 + lo_message_length (h.messages m) path'
        ≡ (base + 4 + length bytes) + length es * 4 =
      omega arith in
    let total : packet_bytes big (message_of path args) ≡ bytes = unfold packet_bytes in refl in
    ap (λ k. add_lengths h (lo_bundle_length h fuel) k es) shift
    ∙ add_lengths-StandFor big h fuel ps es (base + 4 + length bytes) s.1 v.1 w.1
    ∙ ap some (omega (arith, length-packets_bytes big (message_of path args) ps, ap length total))
add_lengths-StandFor big h zero (cons (bundle_of ts qs) ps) (bundle c ∷ es) base s v w = absurd w.0
add_lengths-StandFor big h (suc fuel) (cons (bundle_of ts qs) ps) (bundle c ∷ es) base s v w =
    let inner = length (packet_bytes big (bundle_of ts qs)) in
    let size : lo_bundle_length h (suc fuel) c ≡ some inner =
      add_lengths-StandFor big h fuel qs (h.bundles c).elmnts 16 s.0.1 v.0.2 w.0
      ∙ ap some (sym (length-bundle_bytes big ts qs)) in
    let shift : base + suc (length es) * 4 + inner ≡ (base + 4 + inner) + length es * 4 =
      omega arith in
    rw (size, add_lengths)
      (ap (λ k. add_lengths h (lo_bundle_length h (suc fuel)) k es) shift
        ∙ add_lengths-StandFor big h (suc fuel) ps es (base + 4 + inner) s.1 v.1 w.1
        ∙ ap some (omega (arith, length-packets_bytes big (bundle_of ts qs) ps)))
add_lengths-StandFor big h fuel nil (e ∷ es) base s v w = absurd s
add_lengths-StandFor big h fuel (cons p ps) [] base s v w = absurd s
add_lengths-StandFor big h fuel (cons (message_of path args) ps) (bundle c ∷ es) base s v w =
    absurd s.0
add_lengths-StandFor big h fuel (cons (bundle_of ts qs) ps) (message path m ∷ es) base s v w =
    absurd s.0

-- lo_bundle_length is the number of bytes of the packet.
pub lo_bundle_length-StandsFor :
    (big : Bool) (h : Heap) (fuel b : ℕ) (ts : Timetag) (ps : Packets)
    → StandsFor big h (bundle b) (bundle_of ts ps)
    → IsPacket (bundle_of ts ps)
    → IsWithin fuel (bundle_of ts ps)
    → lo_bundle_length h fuel b ≡ some (length (packet_bytes big (bundle_of ts ps)))
unfolding lo_bundle_length
lo_bundle_length-StandsFor big h zero b ts ps s v w = absurd w
lo_bundle_length-StandsFor big h (suc fuel) b ts ps s v w =
    add_lengths-StandFor big h fuel ps (h.bundles b).elmnts 16 s.1 v.2 w
    ∙ ap some (sym (length-bundle_bytes big ts ps))
