-- ===== src/Examples/Packets.antt =====
-- The theorems on the bytes of a bundle (src/bundle.c) and on their dispatch (src/server.c) at a
-- concrete heap.
use liblo.Base.{
  ◌≡◌, ◌==◌, if◌then◌else◌, ◌++◌, refl, false, none, some, [], ◌∷◌, codes, length, drop, replicate,
  ok, arith, str_eq,
}
use liblo.Osc.{store32}
use liblo.Osc.Padding.{IsText, padded}
use liblo.Timetag.{immediate}
use liblo.Argument.{wire_bytes, host_bytes}
use liblo.Message.Wire.{message_bytes, wire_data}
use liblo.Message.Values.{type_chars}
use liblo.Message.RoundTrip.{received, received-Holds}
use liblo.Bundle.{Heap, lo_bundle_new, lo_bundle_length, message, bundle}
use liblo.Bundle.Serialise.{lo_bundle_serialise, written}
use liblo.Bundle.Packet.{
  Packets, message_of, bundle_of, nil, cons, tag_bytes, packet_bytes, IsPacket, StandsFor,
}
use liblo.Bundle.Wire.{lo_bundle_serialise-StandsFor}
use liblo.Server.Dispatch.{lo_server_dispatch_data}
use liblo.Server.Bundles.{packet_events, dispatch_data-lo_bundle_serialise}
use liblo.Examples.Traffic.{receiver, server, volume}

abbrev elements : Packets
elements = cons (message_of (codes "/volume") volume) (cons (bundle_of immediate nil) nil)

-- Bundle 1 holds a message with two arguments and an empty bundle.
abbrev heap : Heap
heap = record {
  bundles = λ i.
      if i == 1
      then record {
        size = 4;
        ts = immediate;
        elmnts = message (codes "/volume") 0 ∷ bundle 2 ∷ [];
        refcount = 0;
      }
      else lo_bundle_new immediate;
  messages = λ i. received receiver volume;
}

heap-StandsFor : StandsFor false heap (bundle 1) (bundle_of immediate elements)
unfolding lo_bundle_new
heap-StandsFor = (refl, ((refl, received-Holds receiver volume), ((refl, tt), tt)))

elements-IsPacket : IsPacket (bundle_of immediate elements)
unfolding str_eq
elements-IsPacket =
    let left : IsText (codes "left") =
      (ground arith, (ground arith, (ground arith, (ground arith, tt)))) in
    let volume_path : IsText (codes "/volume") = (
      ground arith,
      (
        ground arith,
        (ground arith, (ground arith, (ground arith, (ground arith, (ground arith, tt))))),
      ),
    ) in
    (
      ground arith,
      ground arith,
      (((left, (ground arith, tt)), volume_path, refl), ((ground arith, ground arith, tt), tt)),
    )

lo_bundle_serialise-StandsFor_example :
    let bytes = packet_bytes false (bundle_of immediate elements) in
    (lo_bundle_length heap 2 1 ≡ some (length bytes))
    × (lo_bundle_serialise false heap 2 1 (some (replicate 100 7))
        ≡ (length bytes, written (bytes ++ drop (length bytes) (replicate 100 7))))
    × (lo_bundle_serialise false heap 2 1 none ≡ (length bytes, written bytes))
unfolding packet_bytes padded tag_bytes store32 message_bytes type_chars wire_data wire_bytes
    host_bytes
lo_bundle_serialise-StandsFor_example =
    lo_bundle_serialise-StandsFor false heap 2 immediate elements 1 (replicate 100 7) heap-StandsFor
      elements-IsPacket (tt, (tt, tt)) (omega arith)

dispatch_data-lo_bundle_serialise_example :
    let d = packet_bytes false (bundle_of immediate elements) in
    (lo_bundle_serialise false heap 2 1 none ≡ (length d, written d))
    × (lo_server_dispatch_data server d
        ≡ (packet_events server immediate (bundle_of immediate elements), ok (length d)))
unfolding packet_bytes padded tag_bytes store32 message_bytes type_chars wire_data wire_bytes
    host_bytes
dispatch_data-lo_bundle_serialise_example =
    dispatch_data-lo_bundle_serialise server heap 2 1 immediate elements (λ n. refl) heap-StandsFor
      elements-IsPacket (tt, (tt, tt)) (omega arith)
