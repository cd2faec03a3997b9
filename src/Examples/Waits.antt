-- ===== src/Examples/Waits.antt =====
-- The theorems on the loop of the server (src/server.c) at concrete inputs.
use liblo.Base.{
  ℕ, zero, suc, ◌+◌, ◌*◌, ◌-◌, ◌%◌, ◌^◌, ◌<◌, ◌≤◌, ◌≡◌, ◌∙◌, refl, ap, true, false, none, some, [],
  ◌∷◌, ◌++◌, Bytes, length, codes, str_eq, ◌==◌, if◌then◌else◌, arith,
}
use liblo.Osc.{store32}
use liblo.Osc.Padding.{padded}
use liblo.Message.{Message, lo_message_incref, lo_message_serialise}
use liblo.Argument.{type_of, wire_bytes, host_bytes}
use liblo.Message.Values.{type_chars}
use liblo.Message.Wire.{message_bytes, wire_data, lo_message_serialise-none}
use liblo.Message.RoundTrip.{received, received-Holds}
use liblo.Address.State.{udp, tcp, lo_address_new}
use liblo.Stream.Buffer.{
  SocketContext, lo_server_buffer_contains_msg, lo_server_buffer_copy_for_dispatch,
}
use liblo.Stream.Receive.{Context, init_context, prefixed, arrived, would_block}
use liblo.Server.Sockets.{Sockets}
use liblo.Server.Queue.{Queued, dispatch_rest}
use liblo.Server.Dispatch.{method_called}
use liblo.Server.Loop.{
  quiet, ready, System, Waiter, ran, Reply, delay, is_far, set_context, accept_connection, called,
}
use liblo.Server.Loop.Recv.{first_reported, buffered, lo_server_recv, lo_server_recv_noblock}
use liblo.Server.Loop.Due.{lo_server_recv_due}
use liblo.Server.Loop.Keeps.{Kept}
use liblo.Server.Loop.Rounds.{lo_server_recv-Kept}
use liblo.Server.Loop.Answers.{lo_server_recv-framed, lo_server_recv-datagram}
use liblo.Examples.Traffic.{receiver, server, volume}

-- A system on which nothing happens, and on which each call of the clock comes a second later.
abbrev calm : System
calm = record {
  now = λ n. record { sec = n; frac = 0 };
  polls = λ n i. quiet;
  recvs = λ n. [];
  accepts = λ n. none;
  peers = λ n. lo_address_new none none;
  datagrams = λ n. none;
  allocates = λ n size. true;
  isprint = λ c. true;
}

abbrev volume_message : Message
volume_message = received receiver volume

abbrev wire : Bytes
wire = lo_message_serialise false volume_message (codes "/volume") none

-- One entry, for the time of two seconds.
abbrev entry : Queued
entry = record {
  ts = record { sec = 2; frac = 0 };
  path = codes "/volume";
  msg = volume_message;
  sock = none;
}

-- The listening socket 3, and the connection 7, which has received a message and a byte.
abbrev table : Sockets
table = record {
  sockets = 3 ∷ 7 ∷ [];
  sockets_alloc = 2;
  contexts = λ i.
      if i == 1
      then record init_context {
        is_slip = prefixed;
        sc = record {
          buffer = store32 true (length wire) ++ (wire ++ 0 ∷ []);
          buffer_msg_offset = 0;
        };
      }
      else init_context;
  sources = λ i. none;
  sources_len = 8;
}

abbrev datagram_server : Waiter
datagram_server = record {
  protocol = udp;
  dispatcher = server;
  table = record table { sockets = 3 ∷ [] };
  events = entry ∷ [];
  calls = 0;
}

lo_server_recv_due_example :
    (j : ℕ) × (j ≤ 1)
    × (is_far (delay entry.ts (calm.now (0 + j * 2))) ≡ false)
    × (lo_server_recv calm 1 2 datagram_server
        ≡ ran
            (Reply.returned 0 (called entry ∷ []))
            (record datagram_server { events = []; calls = 0 + (1 + j * 2) }))
unfolding is_far delay buffered dispatch_rest
lo_server_recv_due_example =
    lo_server_recv_due calm 1 1 2 datagram_server entry [] refl (λ n i. refl) refl (omega arith)
      refl

lo_server_recv-Kept_example :
    Kept 3 (lo_server_recv calm 1 2 datagram_server)
    × Kept 3 (lo_server_recv_noblock calm 1 2 datagram_server)
lo_server_recv-Kept_example = lo_server_recv-Kept calm 1 2 3 datagram_server refl (tt, tt)

wire-length : length wire ≡ 24
unfolding message_bytes wire_data wire_bytes host_bytes store32 type_chars padded type_of
wire-length =
    ap length (
      lo_message_serialise-none false volume_message (codes "/volume") volume
        (received-Holds receiver volume) (omega arith) (omega arith))
    ∙ refl

abbrev stream_server : Waiter
stream_server = record datagram_server { protocol = tcp; table = table; events = [] }

listener_empty :
    (j : ℕ) → j < 1 → lo_server_buffer_copy_for_dispatch false (table.contexts j).sc ≡ none
unfolding lo_server_buffer_copy_for_dispatch lo_server_buffer_contains_msg init_context
listener_empty zero lt = refl
listener_empty (suc j) lt = absurd (omega arith)

lo_server_recv-framed_example :
    let left : SocketContext = record {
      buffer = 0 ∷ [];
      buffer_msg_offset = (0 + 2 ^ 32 - (length wire + 4)) % 2 ^ 32;
    } in
    lo_server_recv calm 1 1 stream_server
    ≡ ran
        (Reply.returned
          (length wire)
          (method_called (codes "/volume") (lo_message_incref volume_message) ∷ []))
        (record stream_server {
          table = set_context table 1 (record (table.contexts 1) { sc = left });
          calls = 0 + 1;
        })
unfolding str_eq
lo_server_recv-framed_example =
    lo_server_recv-framed calm stream_server volume_message (codes "/volume") volume
      (received-Holds receiver volume) (omega arith) (omega arith) (λ n. refl) refl refl 1 0
      (3 ∷ []) [] 7 (0 ∷ []) 0 refl refl listener_empty refl (omega (arith, wire-length))

-- A message arrives as a datagram.
abbrev mail : System
mail = record calm { polls = λ n i. ready; datagrams = λ n. some wire }

lo_server_recv-datagram_example :
    lo_server_recv mail 1 1 (record datagram_server { events = [] })
    ≡ ran
        (Reply.returned
          (length wire)
          (method_called (codes "/volume") (lo_message_incref volume_message) ∷ []))
        (record datagram_server { events = []; calls = 0 + 1 + 1 + 1 })
unfolding str_eq first_reported
lo_server_recv-datagram_example =
    lo_server_recv-datagram mail (record datagram_server { events = [] }) volume_message
      (codes "/volume") volume (received-Holds receiver volume) (omega arith) (omega arith)
      (λ n. refl) refl refl 1 0 refl refl refl (omega (arith, wire-length))

-- Two connections: both are ready, and the one with the descriptor 8 receives a message of one
-- byte.
abbrev crowd : System
crowd = record calm {
  polls = λ n i. if i == 0 then quiet else ready;
  recvs = λ n. if n == 1 then arrived (0 ∷ 0 ∷ 0 ∷ 1 ∷ 9 ∷ []) ∷ [] else would_block ∷ [];
}

abbrev opened : Context
opened = record init_context { is_slip = prefixed }

abbrev crowded : Waiter
crowded = record stream_server {
  table = record table { sockets = 3 ∷ 7 ∷ 8 ∷ []; contexts = λ i. opened };
}

abbrev emptied : Context
emptied = record opened {
  sc = record { buffer = []; buffer_msg_offset = 4294967291 };
  buffer_size = 128;
}

-- One connection, which receives the same, and a new one.
abbrev visit : System
visit = record crowd { polls = λ n i. ready; accepts = λ n. some 9 }

abbrev visited : Waiter
visited = record crowded { table = record (crowded.table) { sockets = 3 ∷ 7 ∷ [] } }

abbrev joined : Waiter
joined =
    elim (accept_connection visit
      (record visited { table = set_context visited.table 1 emptied; calls = 0 + 1 + 1 })) [
        | none ↦ visited
        | some w ↦ w
      ]
