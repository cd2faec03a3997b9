-- ===== src/Bundle/Packet.antt =====
-- The abstract view of a bundle: a tree of messages and bundles without sharing, its bytes in the
-- OSC format, and when a bundle of the heap stands for it.
use liblo.Base.{
  ℕ, zero, suc, ◌^◌, ◌<◌, ◌≡◌, Bool, true, false, List, [], ◌∷◌, ◌++◌, Bytes, length, codes, str_eq,
}
use liblo.Osc.{store32}
use liblo.Osc.Padding.{IsText, padded}
use liblo.Timetag.{Timetag}
use liblo.Argument.{Arg}
use liblo.Message.Values.{Holds}
use liblo.Message.Wire.{AllArgs, message_bytes}
use liblo.Bundle.State.{Element, Heap}

mutual
  pub data Packet : Type 0 where
    message_of : Bytes → List Arg → Packet
    bundle_of : Timetag → Packets → Packet

  pub data Packets : Type 0 where
    nil : Packets
    cons : Packet → Packets → Packets

unfoldable pub tag_bytes : Timetag → Bytes
tag_bytes ts = store32 true ts.sec ++ store32 true ts.frac

unfoldable mutual
  pub packet_bytes : Bool → Packet → Bytes
  packet_bytes big (message_of path args) = message_bytes big path args
  packet_bytes big (bundle_of ts ps) =
      padded (codes "#bundle") ++ (tag_bytes ts ++ packets_bytes big ps)

  -- Each packet behind its size.
  pub packets_bytes : Bool → Packets → Bytes
  packets_bytes big nil = []
  packets_bytes big (cons p ps) =
      store32 true (length (packet_bytes big p)) ++ (packet_bytes big p ++ packets_bytes big ps)

-- Arguments that the library can send, paths that are not the name of a bundle, and time tags of
-- 32-bit fields.
abbrev mutual
  pub IsPacket : Packet → Type 0
  IsPacket (message_of path args) =
      AllArgs args × IsText path × (str_eq path (codes "#bundle") ≡ false)
  IsPacket (bundle_of ts ps) = (ts.sec < 2 ^ 32) × (ts.frac < 2 ^ 32) × ArePackets ps

  pub ArePackets : Packets → Type 0
  ArePackets nil = Unit
  ArePackets (cons p ps) = IsPacket p × ArePackets ps

-- Bundles are nested less than `fuel` deep.
abbrev mutual
  pub IsWithin : ℕ → Packet → Type 0
  IsWithin fuel (message_of path args) = Unit
  IsWithin zero (bundle_of ts ps) = ⊥
  IsWithin (suc fuel) (bundle_of ts ps) = AreWithin fuel ps

  pub AreWithin : ℕ → Packets → Type 0
  AreWithin fuel nil = Unit
  AreWithin fuel (cons p ps) = IsWithin fuel p × AreWithin fuel ps

-- The element stands for the packet.
abbrev mutual
  pub StandsFor : Bool → Heap → Element → Packet → Type 0
  StandsFor big h (Element.message path m) (message_of path' args) =
      (path ≡ path') × Holds big (h.messages m) args
  StandsFor big h (Element.bundle c) (bundle_of ts ps) =
      ((h.bundles c).ts ≡ ts) × StandFor big h (h.bundles c).elmnts ps
  StandsFor big h _ _ = ⊥

  pub StandFor : Bool → Heap → List Element → Packets → Type 0
  StandFor big h [] nil = Unit
  StandFor big h (e ∷ es) (cons p ps) = StandsFor big h e p × StandFor big h es ps
  StandFor big h _ _ = ⊥
