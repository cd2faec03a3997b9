-- ===== src/Server/Loop/Losses.antt =====
-- Messages that lo_server_recv_raw_stream of src/server.c takes out of a buffer and does not hand
-- out, in the code for poll.
use liblo.Base.{ℕ, ◌≡◌, ◌≤◌, length}
use liblo.Validate.{AllBytes}
use liblo.Stream.Receive.{Context, Outcome, prefixed, lo_server_recv_raw_stream_socket}
use liblo.Address.State.{Address}
use liblo.Server.Sockets.{Sockets}
use liblo.Server.Loop.{System, Waiter}

-- What the call on the socket at an index, as the call number `n`, comes to.
abbrev pub socket_outcome : System → Waiter → ℕ → Context → Outcome
socket_outcome sys w n c =
    lo_server_recv_raw_stream_socket w.dispatcher.platform.big sys.isprint (sys.allocates n)
      (sys.recvs n) c

-- A connection of messages behind their lengths, with no more in its buffer than its memory holds.
pub record IsPrefixed (c : Context) : Type 0 where
  pub is_prefixed : c.is_slip ≡ prefixed
  pub bytes : AllBytes c.sc.buffer
  pub fits : length c.sc.buffer ≤ c.buffer_size
