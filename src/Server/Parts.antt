-- ===== src/Server/Parts.antt =====
-- The parts of a bundle as dispatch_data (src/server.c) reads them, and its steps on them.
use liblo.Base.{
  ℕ, suc, ◌/◌, ◌%◌, ◌^◌, ◌<◌, ◌≡◌, ◌∙◌, refl, ap, Bool, true, false, some, List, [], ◌∷◌, ◌++◌,
  Bytes, length, drop, codes, str_eq, arith, if◌then◌else◌, ok, append_assoc, replicate, ◌-◌,
}
use liblo.Osc.{store32, load32, lo_otoh32, load32-lo_otoh32, c_string}
use liblo.Osc.Padding.{IsText, padded, padded-eq, c_string-padded}
use liblo.Timetag.{Timetag}
use liblo.Argument.{Arg}
use liblo.Message.Values.{type_chars}
use liblo.Message.Wire.{message_bytes, wire_data}
use liblo.Bundle.Packet.{Packets, bundle_of, nil, cons, tag_bytes, packet_bytes, packets_bytes}
use liblo.Bundle.Sizes.{length-bundle_bytes, length-packets_bytes}
use liblo.Validate.{lo_validate_string, lo_validate_bundle, lo_validate_string-padded}
use liblo.Validate.{frames, AllShort, layout→valid, bundle-IsText}
use liblo.Server.Dispatch.{
  bundle_started, Dispatcher, Outcome, strcmp_eq, before, dispatch_elements, dispatch_bundle,
  dispatch_data,
}

pub load_network :
    (big : Bool) (n : ℕ) (m : Bytes)
    → n < 2 ^ 32
    → load32 big (lo_otoh32 big (store32 true n ++ m)) ≡ n
unfolding store32
load_network big n m h =
    load32-lo_otoh32 big (n / 2 ^ 24 % 256) (n / 2 ^ 16 % 256) (n / 2 ^ 8 % 256) (n % 256) m
    ∙ omega arith

pub strcmp_eq_ne :
    (s t m : Bytes)
    → IsText s
    → IsText t
    → str_eq s t ≡ false
    → strcmp_eq (s ++ 0 ∷ m) t ≡ some false
unfolding strcmp_eq str_eq
strcmp_eq_ne [] [] m hs ht h = absurd (cc)
strcmp_eq_ne [] (c ∷ t) m hs ht h = ground arith
strcmp_eq_ne (x ∷ s) [] m hs ht h = ground arith
strcmp_eq_ne (x ∷ s) (c ∷ t) m hs ht h = ground (arith, strcmp_eq_ne s t m)

-- The packets as a list of byte strings.
each_bytes : Bool → Packets → List Bytes
each_bytes big nil = []
each_bytes big (cons p ps) = packet_bytes big p ∷ each_bytes big ps

frames-each_bytes : (big : Bool) (ps : Packets) → packets_bytes big ps ≡ frames (each_bytes big ps)
unfolding packets_bytes frames each_bytes
frames-each_bytes big nil = refl
frames-each_bytes big (cons p ps) =
    ap (λ t. store32 true (length (packet_bytes big p)) ++ (packet_bytes big p ++ t))
      (frames-each_bytes big ps)

each_bytes-AllShort :
    (big : Bool) (ps : Packets)
    → length (packets_bytes big ps) < 2 ^ 32
    → AllShort (each_bytes big ps)
unfolding each_bytes
each_bytes-AllShort big nil h = tt
each_bytes-AllShort big (cons p ps) h =
    let all = length-packets_bytes big p ps in
    (omega arith, each_bytes-AllShort big ps (omega arith))

pub packet_valid :
    (big : Bool) (ts : Timetag) (ps : Packets)
    → length (packet_bytes big (bundle_of ts ps)) < 2 ^ 32
    → let d = packet_bytes big (bundle_of ts ps) in lo_validate_bundle big d ≡ ok (length d)
packet_valid big ts ps h = layout→valid big _ (
  tag_bytes ts,
  each_bytes big ps,
  unfold tag_bytes store32 in refl,
  each_bytes-AllShort big ps (omega (arith, length-bundle_bytes big ts ps)),
  unfold packet_bytes in
      ap (λ t. padded (codes "#bundle") ++ (tag_bytes ts ++ t)) (frames-each_bytes big ps),
)

pub message_start :
    (big : Bool) (path : Bytes) (args : List Arg) (tail : Bytes)
    → (q : Bytes) × (message_bytes big path args ++ tail ≡ padded path ++ q)
      × ((m : Bytes) × (message_bytes big path args ++ tail ≡ path ++ 0 ∷ m))
unfolding message_bytes
message_start big path args tail =
    let q = padded (b',' ∷ type_chars args) ++ wire_data big args in
    let zeros = replicate (3 - length path % 4) 0 in
    let shape = append_assoc (padded path) q tail in
    (
      q ++ tail,
      shape,
      (
        zeros ++ (q ++ tail),
        shape
            ∙ ap (λ t. t ++ (q ++ tail)) (padded-eq path)
            ∙ append_assoc path (0 ∷ zeros) (q ++ tail),
      ),
    )

-- What the code reads from the bytes of a bundle: name, time tag and elements.
pub bundle_parts :
    (big : Bool) (ts : Timetag) (ps : Packets)
    → ts.sec < 2 ^ 32
    → ts.frac < 2 ^ 32
    → let d = packet_bytes big (bundle_of ts ps) in
      (lo_validate_string d ≡ ok 8)
      × (c_string d ≡ codes "#bundle")
      × (load32 big (lo_otoh32 big (drop 8 d)) ≡ ts.sec)
      × (load32 big (lo_otoh32 big (drop 4 (drop 8 d))) ≡ ts.frac)
      × (drop 8 (drop 8 d) ≡ packets_bytes big ps)
unfolding packet_bytes
bundle_parts big ts ps sec frac =
    let q = tag_bytes ts ++ packets_bytes big ps in
    (
      lo_validate_string-padded (codes "#bundle") q bundle-IsText,
      c_string-padded (codes "#bundle") q bundle-IsText,
      unfold padded tag_bytes store32 in
          load_network big ts.sec (store32 true ts.frac ++ packets_bytes big ps) sec,
      unfold padded tag_bytes store32 in load_network big ts.frac (packets_bytes big ps) frac,
      unfold padded tag_bytes store32 in refl,
    )

pub dispatch_data_named :
    (s : Dispatcher) (fuel : ℕ) (d : Bytes) (len : ℕ)
    → lo_validate_string d ≡ ok len
    → str_eq (c_string d) (codes "#bundle") ≡ true
    → dispatch_data s (suc fuel) d ≡ dispatch_bundle s (dispatch_data s fuel) d len
unfolding dispatch_data
dispatch_data_named s fuel d len path named = rw (path, dispatch_data, named) refl

pub dispatch_bundle_valid :
    (s : Dispatcher) (nested : Bytes → Outcome) (d : Bytes) (ts : Timetag) (events : Outcome)
    → lo_validate_bundle s.platform.big d ≡ ok (length d)
    → load32 s.platform.big (lo_otoh32 s.platform.big (drop 8 d)) ≡ ts.sec
    → load32 s.platform.big (lo_otoh32 s.platform.big (drop 4 (drop 8 d))) ≡ ts.frac
    → dispatch_elements s nested ts (length d) (suc (length d)) (drop 8 (drop 8 d)) ≡ events
    → dispatch_bundle s nested d 8
      ≡ before (if s.start_handler then bundle_started ts ∷ [] else []) events
unfolding dispatch_bundle
dispatch_bundle_valid s nested d ts events valid sec frac e =
    rw (valid, dispatch_bundle, sec, frac) (ap (before _) e)
