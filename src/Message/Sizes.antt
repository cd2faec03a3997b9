-- ===== src/Message/Sizes.antt =====
-- lo_message_length, and the length of what lo_message_serialise writes.
use liblo.Base.{◌≡◌, sym, ap, subst, Bool, List, ◌∷◌, ◌++◌, Bytes, length, arith, length-append}
use liblo.Osc.Padding.{IsText, padded, length-padded}
use liblo.Argument.{Arg}
use liblo.Message.State.{Message}
use liblo.Message.Values.{Holds, type_chars}
use liblo.Message.Serialise.{lo_message_length}
use liblo.Message.Wire.{message_bytes, wire_data, lo_strsize_text, type_chars-IsText}
use liblo.Message.RoundTrip.{length-wire_data}

pub lo_message_length-message_bytes :
    (big : Bool) (m : Message) (path : Bytes) (args : List Arg)
    → Holds big m args
    → IsText path
    → lo_message_length m path ≡ length (message_bytes big path args)
unfolding lo_message_length message_bytes
lo_message_length-message_bytes big m path args h text =
    let types = b',' ∷ type_chars args in
    let types_text : IsText m.types =
      subst IsText (sym h.types_are) (omega arith, type_chars-IsText args) in
    omega (
      arith,
      lo_strsize_text path text,
      lo_strsize_text m.types types_text,
      ap length h.types_are,
      h.datalen_is,
      ap length h.data_are,
      length-wire_data big args,
      length-padded path,
      length-padded types,
      length-append (padded path) (padded types ++ wire_data big args),
      length-append (padded types) (wire_data big args),
    )
