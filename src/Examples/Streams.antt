-- ===== src/Examples/Streams.antt =====
-- The theorems on stream sockets (src/server.c) at concrete inputs, and runs of the code.
use liblo.Base.{
  ◌≡◌, ◌<◌, ◌↔◌, ◌==◌, if◌then◌else◌, refl, true, false, none, some, List, [], ◌∷◌, get_elem?,
  arith,
}
use liblo.Stream.Receive.{
  Context, init_context, cleanup_context, Received, arrived, would_block, read_size, prefixed,
  lo_server_recv_raw_stream_socket,
}
use liblo.Stream.Growth.{read_size-none_iff}
use liblo.Stream.Conserve.{Conserves, lo_server_recv_raw_stream_socket-Conserves}
use liblo.Server.Sockets.{Sockets, lo_server_del_socket, lo_server_del_socket_shift}

read_size-none_iff_example : (read_size 1000 32768 16385 ≡ none) ↔ (16384 < 16385)
read_size-none_iff_example =
    read_size-none_iff 1000 32768 16385 (omega arith) (omega arith) (omega arith)

-- The rest of a message of three bytes, and the start of the next.
abbrev answers : List Received
answers = arrived (0 ∷ 3 ∷ 7 ∷ 8 ∷ 9 ∷ 0 ∷ []) ∷ would_block ∷ []

abbrev waiting : Context
waiting = record init_context {
  is_slip = prefixed;
  sc = record { buffer = 0 ∷ 0 ∷ []; buffer_msg_offset = 0 };
  buffer_size = 64;
}

lo_server_recv_raw_stream_socket-Conserves_example :
    Conserves
      (0 ∷ 0 ∷ [])
      (lo_server_recv_raw_stream_socket false (λ c. true) (λ n. true) answers waiting)
lo_server_recv_raw_stream_socket-Conserves_example =
    lo_server_recv_raw_stream_socket-Conserves false (λ c. true) (λ n. true) answers waiting refl
      (omega arith, (omega arith, tt)) (omega arith)
      (
        (
          omega arith,
          (omega arith, (omega arith, (omega arith, (omega arith, (omega arith, tt))))),
        ),
        tt,
      )

-- Three sockets; the last is in the middle of a message.
abbrev table : Sockets
table = record {
  sockets = 4 ∷ 5 ∷ 6 ∷ [];
  sockets_alloc = 4;
  contexts = λ i. if i == 2 then waiting else init_context;
  sources = λ i. none;
  sources_len = 8;
}

-- Descriptor 6, now in place 1, has lost what it received.
lo_server_del_socket_shift_example :
    (get_elem? (lo_server_del_socket table (some 1) none).sockets 1 ≡ some 6)
    × ((lo_server_del_socket table (some 1) none).contexts 1 ≡ cleanup_context)
lo_server_del_socket_shift_example =
    lo_server_del_socket_shift table 1 1 none (omega arith) (omega arith)
