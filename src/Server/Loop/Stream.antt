-- ===== src/Server/Loop/Stream.antt =====
-- lo_server_recv_raw_stream of src/server.c, with poll.
use liblo.Base.{ℕ, zero, suc, Option, none, some, Bytes, length, get_elem?, ◌==◌, if◌then◌else◌}
use liblo.Stream.Receive.{Outcome, returned, removed, lo_server_recv_raw_stream_socket}
use liblo.Server.Sockets.{lo_server_del_socket}
use liblo.Server.Loop.{
  quiet, failed, ready, System, Waiter, waiting, no_memory, endless, bad_access, Ran, ran, stopped,
  tick, set_context, scan_buffers, accept_connection,
}

-- The data, `none` for NULL, and the descriptor, `none` for -1.
abbrev pub Packet : Type 0
Packet = Option Bytes × Option ℕ

-- The end of one round of the loop over the sockets, for the data that the call on the socket
-- `fd` at `i` has set; `next` is the rest of the loop.
unfoldable pub socket_read : ℕ → ℕ → Waiter → (Waiter → Packet → Ran Packet) → Outcome → Ran Packet
socket_read i fd w next (returned d more c got) =
    next (tick (record w { table = set_context w.table i c })) (d, some fd)
socket_read i fd w next removed =
    next (tick (record w { table = lo_server_del_socket w.table (some i) (some fd) }))
      (none, some fd)
socket_read i fd w next Outcome.no_memory = stopped no_memory
socket_read i fd w next Outcome.endless = stopped endless
socket_read i fd w next Outcome.fault = stopped bad_access

unfoldable pub read_socket : System → ℕ → ℕ → Waiter → (Waiter → Packet → Ran Packet) → Ran Packet
read_socket sys i fd w next = socket_read i fd w next (
    lo_server_recv_raw_stream_socket w.dispatcher.platform.big sys.isprint (sys.allocates w.calls)
      (sys.recvs w.calls) (w.table.contexts i))

-- What the loop does with a socket that is ready: the first one takes a new connection, and
-- everything begins again.
unfoldable pub ready_socket :
    System → (Waiter → Ran Packet) → ℕ → Waiter → (Waiter → Packet → Ran Packet) → Ran Packet
ready_socket sys again i w next = elim (get_elem? w.table.sockets i) [
  | none ↦ stopped bad_access
  | some fd ↦ elim (get_elem? w.table.sockets 0) [
    | none ↦ stopped bad_access
    | some first ↦
        if fd == first
        then (elim (accept_connection sys w) [ none ↦ stopped bad_access | some w' ↦ again w' ])
        else read_socket sys i fd w next
  ]
]

-- A socket on which poll reports a failure is removed; if it is the first one, there are no data.
unfoldable pub failed_socket : ℕ → Waiter → (Waiter → Ran Packet) → Ran Packet
failed_socket zero w next = ran (none, none) w
failed_socket (suc i) w next = next (record w {
  table = lo_server_del_socket w.table (some (suc i)) (get_elem? w.table.sockets (suc i));
})

-- The loop after the call number `polled`, of poll, over the sockets at the indices below the
-- number, from the last one down.
unfoldable pub check_sockets : System → (Waiter → Ran Packet) → ℕ → ℕ → Waiter → Packet → Ran Packet
check_sockets sys again polled zero w p = ran p w
check_sockets sys again polled (suc i) w p =
    let next = check_sockets sys again polled i in
    elim (sys.polls polled i) [
      | quiet ↦ next w p
      | failed ↦ failed_socket i w (λ w'. next w' p)
      | ready ↦ ready_socket sys again i w next
    ]

-- With fuel for new connections, each of which begins another round.
unfoldable pub lo_server_recv_raw_stream : System → ℕ → Waiter → Ran Packet
lo_server_recv_raw_stream sys zero w = stopped waiting
lo_server_recv_raw_stream sys (suc fuel) w =
    let again = lo_server_recv_raw_stream sys fuel in
    elim (scan_buffers w.dispatcher.platform.big w.table 0 w.table.sockets) [
      | some (d, sock, table) ↦ ran (some d, some sock) (record w { table = table })
      | none ↦ check_sockets sys again w.calls (length w.table.sockets) (tick w) (none, none)
    ]
