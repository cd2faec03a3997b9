-- ===== src/Examples/Traffic.antt =====
-- The theorems on the dispatch of data (src/server.c) at concrete inputs.
use liblo.Base.{◌≡◌, refl, true, false, none, [], ◌∷◌, List, codes, str_eq, length, ok, arith}
use liblo.Timetag.{immediate}
use liblo.Argument.{Arg}
use liblo.Message.{Platform, Message, lo_message_incref, lo_message_serialise}
use liblo.Message.RoundTrip.{received, received-Holds}
use liblo.Server.Dispatch.{Dispatcher, method_called, lo_server_dispatch_data}
use liblo.Server.Delivery.{dispatch_data-serialise}

abbrev pub receiver : Platform
receiver = record {
  big = false;
  log_ratio = λ b a. 0;
  realloc = λ n. true;
  junk = λ i. 0;
  pointer = λ s. 4096;
}

abbrev pub server : Dispatcher
server = record {
  platform = receiver;
  start_handler = true;
  end_handler = true;
  enqueue = true;
  now = immediate;
}

abbrev pub volume : List Arg
volume = Arg.string (codes "left") ∷ Arg.int32 9 ∷ []

dispatch_data-serialise_example :
    let d = lo_message_serialise false (received receiver volume) (codes "/volume") none in
    lo_server_dispatch_data server d ≡ (
      method_called (codes "/volume") (lo_message_incref (received receiver volume)) ∷ [],
      ok (length d),
    )
unfolding str_eq
dispatch_data-serialise_example =
    dispatch_data-serialise server (received receiver volume) (codes "/volume") volume
      (received-Holds receiver volume) (omega arith) (omega arith) (λ n. refl) refl

-- The message without its cached array.
abbrev uncached : Message
uncached = record (received receiver volume) { argv = none }
