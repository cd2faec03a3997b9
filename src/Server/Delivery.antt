-- ===== src/Server/Delivery.antt =====
-- From lo_message_serialise (src/message.c) to the call of the methods in dispatch_data
-- (src/server.c).
use liblo.Base.{
  ℕ, ◌+◌, ◌*◌, ◌/◌, ◌≡◌, refl, ap, ◌∙◌, false, List, [], ◌∷◌, Bytes, length, codes, str_eq, none,
  ok,
}
use liblo.Osc.{c_string}
use liblo.Osc.Padding.{IsText}
use liblo.Argument.{Arg}
use liblo.Message.{Message, lo_message_incref, lo_message_serialise, lo_message_deserialise}
use liblo.Message.Values.{Holds}
use liblo.Message.Wire.{AllArgs, message_bytes, lo_message_serialise-none}
use liblo.Message.RoundTrip.{AllAllocate, received, deserialise-serialise}
use liblo.Validate.{lo_validate_string, lo_validate_string-padded}
use liblo.Server.Dispatch.{
  method_called, Dispatcher, dispatch_message, dispatch_data, lo_server_dispatch_data,
}

-- The branch of a message.
dispatch_message_lem :
    (s : Dispatcher) (d path : Bytes) (m : Message)
    → c_string d ≡ path
    → lo_message_deserialise s.platform d ≡ ok m
    → dispatch_message s d ≡ (method_called path (lo_message_incref m) ∷ [], ok (length d))
unfolding dispatch_message
dispatch_message_lem s d path m path_eq read = rw (read, dispatch_message, path_eq) refl

dispatch_one :
    (s : Dispatcher) (d path : Bytes) (len : ℕ) (m : Message)
    → lo_validate_string d ≡ ok len
    → c_string d ≡ path
    → str_eq path (codes "#bundle") ≡ false
    → lo_message_deserialise s.platform d ≡ ok m
    → lo_server_dispatch_data s d ≡ (method_called path (lo_message_incref m) ∷ [], ok (length d))
unfolding lo_server_dispatch_data dispatch_data
dispatch_one s d path len m valid path_eq name read =
    let name' = ap (λ t. str_eq t (codes "#bundle")) path_eq ∙ name in
    rw (valid, dispatch_data, name') (dispatch_message_lem s d path m path_eq read)

-- A message that is built from arguments and serialised, given to the dispatch of a server of the
-- same byte order, comes to exactly one call of the methods, with its path and a message that
-- holds the arguments, if the path is not "#bundle".
pub dispatch_data-serialise :
    (s : Dispatcher) (m : Message) (path : Bytes) (args : List Arg)
    → Holds s.platform.big m args
    → AllArgs args
    → IsText path
    → AllAllocate s.platform
    → str_eq path (codes "#bundle") ≡ false
    → let d = lo_message_serialise s.platform.big m path none in
      lo_server_dispatch_data s d
      ≡ (method_called path (lo_message_incref (received s.platform args)) ∷ [], ok (length d))
dispatch_data-serialise s m path args h valid text alloc name =
    let d = lo_message_serialise s.platform.big m path none in
    let (path_eq, read, _) = deserialise-serialise s.platform m path args h valid text alloc in
    let wire = lo_message_serialise-none s.platform.big m path args h valid text in
    let path_ok : lo_validate_string d ≡ ok (4 * (length path / 4 + 1)) =
      ap lo_validate_string wire
      ∙ (unfold message_bytes in lo_validate_string-padded path _ text) in
    dispatch_one s d path _ (received s.platform args) path_ok path_eq name read
