-- ===== src/Server/Bundles.antt =====
-- What dispatch_data (src/server.c) does with the bytes of a bundle, nested bundles included.
use liblo.Base.{
  ℕ, zero, suc, ◌^◌, ◌<◌, ◌≡◌, ◌∙◌, refl, sym, ap, Bool, true, false, none, some, List, [], ◌∷◌,
  ◌++◌, Bytes, length, take, drop, codes, str_eq, str_eq_refl, arith, ltb, if◌then◌else◌, ok,
  append_assoc, take-append_self, drop-append_self,
}
use liblo.Osc.{store32, load32, lo_otoh32, c_string}
use liblo.Osc.Padding.{padded, c_string-padded}
use liblo.Timetag.{Timetag}
use liblo.Argument.{Arg}
use liblo.Message.Wire.{message_bytes}
use liblo.Message.RoundTrip.{AllAllocate, received, deserialise-message_bytes}
use liblo.Bundle.Packet.{
  Packet, Packets, message_of, bundle_of, nil, cons, packet_bytes, packets_bytes, IsPacket,
  ArePackets, IsWithin, AreWithin, StandsFor,
}
use liblo.Bundle.State.{Heap, bundle}
use liblo.Bundle.Serialise.{written, lo_bundle_serialise}
use liblo.Bundle.Wire.{lo_bundle_serialise-StandsFor}
use liblo.Bundle.Sizes.{length-bundle_bytes, length-packets_bytes}
use liblo.Validate.{bundle-IsText}
use liblo.Server.Dispatch.{
  Event, bundle_started, bundle_ended, Dispatcher, Outcome, strcmp_eq, before, deliver, past,
  dispatch_element, dispatch_elements, dispatch_data, lo_server_dispatch_data,
}
use liblo.Server.Parts.{
  load_network, strcmp_eq_ne, packet_valid, message_start, bundle_parts, dispatch_data_named,
  dispatch_bundle_valid,
}

module _ (s : Dispatcher) where
  -- The events of a packet within a bundle of time `ts`, in the order of the packets.
  unfoldable mutual
    pub packet_events : Timetag → Packet → List Event
    packet_events ts (message_of path args) = deliver s ts path (received s.platform args) ∷ []
    packet_events ts (bundle_of ts' ps) =
        (if s.start_handler then bundle_started ts' ∷ [] else [])
        ++ (packets_events ts' ps ++ (if s.end_handler then bundle_ended ∷ [] else []))

    pub packets_events : Timetag → Packets → List Event
    packets_events ts nil = []
    packets_events ts (cons p ps) = packet_events ts p ++ packets_events ts ps

module _ (s : Dispatcher) (alloc : AllAllocate s.platform) where
  -- The loop over the elements of a bundle of time `ts` makes the events of its packets.
  abbrev Dispatches : ℕ → Packets → Type 0
  Dispatches fuel ps =
      (ts : Timetag) (size rounds : ℕ)
      → length (packets_bytes s.platform.big ps) < rounds
      → length (packets_bytes s.platform.big ps) < 2 ^ 32
      → dispatch_elements s (dispatch_data s fuel) ts size rounds (packets_bytes s.platform.big ps)
        ≡ (packets_events s ts ps ++ (if s.end_handler then bundle_ended ∷ [] else []), ok size)

  dispatch_element-message :
      (nested : Bytes → Outcome) (ts : Timetag) (path : Bytes) (args : List Arg) (tail : Bytes)
      (next : Outcome)
      → IsPacket (message_of path args)
      → let bytes = packet_bytes s.platform.big (message_of path args) in
        dispatch_element s nested ts (bytes ++ tail) (length bytes) next
        ≡ before (deliver s ts path (received s.platform args) ∷ []) next
  unfolding packet_bytes
  dispatch_element-message nested ts path args tail next v =
      let bytes = message_bytes s.platform.big path args in
      let start = message_start s.platform.big path args tail in
      let name : strcmp_eq (bytes ++ tail) (codes "#bundle") ≡ some false =
        ap (λ t. strcmp_eq t (codes "#bundle")) start.2.1
        ∙ strcmp_eq_ne path (codes "#bundle") start.2.0 v.1 bundle-IsText v.2 in
      let path_eq : c_string (bytes ++ tail) ≡ path =
        ap c_string start.1 ∙ c_string-padded path start.0 v.1 in
      let cut : take (length bytes) (bytes ++ tail) ≡ bytes = take-append_self bytes tail in
      let read = deserialise-message_bytes s.platform path args v.1 v.0 alloc in
      unfold dispatch_element in rw (name, dispatch_element, cut, read, path_eq) refl

  dispatch_bundle_step :
      (fuel : ℕ) (ts : Timetag) (ps : Packets)
      → Dispatches fuel ps
      → IsPacket (bundle_of ts ps)
      → length (packet_bytes s.platform.big (bundle_of ts ps)) < 2 ^ 32
      → (outer : Timetag)
      → dispatch_data s (suc fuel) (packet_bytes s.platform.big (bundle_of ts ps)) ≡ (
        packet_events s outer (bundle_of ts ps),
        ok (length (packet_bytes s.platform.big (bundle_of ts ps))),
      )
  unfolding packet_events before
  dispatch_bundle_step fuel ts ps inner v short outer =
      let big = s.platform.big in
      let d = packet_bytes big (bundle_of ts ps) in
      let (path, name, sec, frac, rest) = bundle_parts big ts ps v.0 v.1 in
      let valid = packet_valid big ts ps short in
      let named : str_eq (c_string d) (codes "#bundle") ≡ true =
        ap (λ t. str_eq t (codes "#bundle")) name ∙ str_eq_refl (codes "#bundle") in
      let size = length-bundle_bytes big ts ps in
      let events = inner ts (length d) (suc (length d)) (omega arith) (omega arith) in
      dispatch_data_named s fuel d 8 path named
      ∙ dispatch_bundle_valid s (dispatch_data s fuel) d ts _ valid sec frac (
          ap (dispatch_elements s (dispatch_data s fuel) ts (length d) (suc (length d))) rest
          ∙ events)

  -- One round of the loop.
  dispatch_elements_round :
      (fuel : ℕ) (p : Packet) (ps : Packets) (ts : Timetag) (size rounds : ℕ)
      → length (packets_bytes s.platform.big (cons p ps)) < suc rounds
      → length (packets_bytes s.platform.big (cons p ps)) < 2 ^ 32
      → let bytes = packet_bytes s.platform.big p in
        let tail = packets_bytes s.platform.big ps in
        dispatch_elements s
          (dispatch_data s fuel)
          ts
          size
          (suc rounds)
          (packets_bytes s.platform.big (cons p ps))
        ≡ dispatch_element s
            (dispatch_data s fuel)
            ts
            (bytes ++ tail)
            (length bytes)
            (dispatch_elements s (dispatch_data s fuel) ts size rounds tail)
  dispatch_elements_round fuel p ps ts size rounds enough short =
      let big = s.platform.big in
      let bytes = packet_bytes big p in
      let tail = packets_bytes big ps in
      let pos = packets_bytes big (cons p ps) in
      let all = length-packets_bytes big p ps in
      let elem_len : load32 big (lo_otoh32 big pos) ≡ length bytes =
        unfold packets_bytes in load_network big (length bytes) (bytes ++ tail) (omega arith) in
      let rest : drop 4 pos ≡ bytes ++ tail = unfold packets_bytes store32 in refl in
      let more : ltb (length pos) 4 ≡ false = ground arith in
      unfold dispatch_elements in
      (rw (elem_len, dispatch_elements, more, rest, drop-append_self bytes tail) refl)

  dispatch_element-bundle :
      (nested : Bytes → Outcome) (ts outer : Timetag) (ps : Packets) (tail : Bytes)
      (es : List Event) (n : ℕ) (next : Outcome)
      → let bytes = packet_bytes s.platform.big (bundle_of ts ps) in
        nested bytes ≡ (es, ok n)
        → dispatch_element s nested outer (bytes ++ tail) (length bytes) next ≡ before es next
  dispatch_element-bundle nested ts outer ps tail es n next e =
      let bytes = packet_bytes s.platform.big (bundle_of ts ps) in
      let name : strcmp_eq (bytes ++ tail) (codes "#bundle") ≡ some true =
        unfold packet_bytes padded strcmp_eq in refl in
      unfold dispatch_element past in
      (rw (name, dispatch_element, take-append_self bytes tail, e) refl)

  packets-Dispatches :
      (fuel : ℕ) (ps : Packets) → ArePackets ps → AreWithin fuel ps → Dispatches fuel ps
  unfolding packets_events before
  packets-Dispatches fuel nil v w ts size zero enough short = elim enough [ ]
  packets-Dispatches fuel nil v w ts size (suc rounds) enough short =
      unfold dispatch_elements packets_bytes in refl
  packets-Dispatches fuel (cons p ps) v w ts size zero enough short = elim enough [ ]
  packets-Dispatches fuel (cons (message_of path args) ps) v w ts size (suc rounds) enough short =
      let all = length-packets_bytes s.platform.big (message_of path args) ps in
      let tail = packets_bytes s.platform.big ps in
      dispatch_elements_round fuel (message_of path args) ps ts size rounds enough short
      ∙ dispatch_element-message (dispatch_data s fuel) ts path args tail _ v.0
      ∙ ap (before (deliver s ts path (received s.platform args) ∷ []))
          (packets-Dispatches fuel ps v.1 w.1 ts size rounds (omega arith) (omega arith))
  packets-Dispatches zero (cons (bundle_of ts' qs) ps) v w ts size (suc rounds) enough short =
      absurd w.0
  packets-Dispatches (suc fuel) (cons (bundle_of ts' qs) ps) v w ts size (suc rounds) enough short =
      let big = s.platform.big in
      let all = length-packets_bytes big (bundle_of ts' qs) ps in
      dispatch_elements_round (suc fuel) (bundle_of ts' qs) ps ts size rounds enough short
      ∙ dispatch_element-bundle (dispatch_data s (suc fuel)) ts' ts qs (packets_bytes big ps) _ _ _
          (dispatch_bundle_step fuel ts' qs (packets-Dispatches fuel qs v.0.2 w.0) v.0 (omega arith)
            ts)
      ∙ ap (before (packet_events s ts (bundle_of ts' qs)))
          (packets-Dispatches (suc fuel) ps v.1 w.1 ts size rounds (omega arith) (omega arith))
      ∙ ap (λ es. (es, ok size)) (sym (append_assoc (packet_events s ts (bundle_of ts' qs)) _ _))

within_length :
    (big : Bool) (fuel : ℕ) (ps : Packets)
    → length (packets_bytes big ps) < fuel
    → AreWithin fuel ps
within_length big fuel nil h = tt
within_length big fuel (cons (message_of path args) ps) h =
    let all = length-packets_bytes big (message_of path args) ps in
    (tt, within_length big fuel ps (omega arith))
within_length big zero (cons (bundle_of ts qs) ps) h = elim h [ ]
within_length big (suc fuel) (cons (bundle_of ts qs) ps) h =
    let all = length-packets_bytes big (bundle_of ts qs) ps in
    let inner = length-bundle_bytes big ts qs in
    (within_length big fuel qs (omega arith), within_length big (suc fuel) ps (omega arith))

-- A bundle of the heap that stands for a packet, serialised and given to the dispatch of a server
-- of the same byte order: each message of the packet, those of nested bundles included, makes one
-- call of the methods or one entry of the queue, with its path and its arguments and the time of
-- its bundle, in the order of the packet, between the start and the end of its bundle.
pub dispatch_data-lo_bundle_serialise :
    (s : Dispatcher) (h : Heap) (fuel b : ℕ) (ts : Timetag) (ps : Packets)
    → AllAllocate s.platform
    → StandsFor s.platform.big h (bundle b) (bundle_of ts ps)
    → IsPacket (bundle_of ts ps)
    → IsWithin fuel (bundle_of ts ps)
    → length (packet_bytes s.platform.big (bundle_of ts ps)) < 2 ^ 32
    → let d = packet_bytes s.platform.big (bundle_of ts ps) in
      (lo_bundle_serialise s.platform.big h fuel b none ≡ (length d, written d))
      × (lo_server_dispatch_data s d ≡ (packet_events s ts (bundle_of ts ps), ok (length d)))
unfolding lo_server_dispatch_data
dispatch_data-lo_bundle_serialise s h fuel b ts ps alloc stands v w short =
    let big = s.platform.big in
    let d = packet_bytes big (bundle_of ts ps) in
    let deep : AreWithin (length d) ps =
      within_length big (length d) ps (omega (arith, length-bundle_bytes big ts ps)) in
    (
      (lo_bundle_serialise-StandsFor big h fuel ts ps b d stands v w (omega arith)).2,
      dispatch_bundle_step s alloc (length d) ts ps
          (packets-Dispatches s alloc (length d) ps v.2 deep) v short ts,
    )
