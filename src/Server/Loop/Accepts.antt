-- ===== src/Server/Loop/Accepts.antt =====
-- lo_server_recv_raw_stream of src/server.c keeps the socket that listens.
use liblo.Base.{
  ℕ, zero, suc, ◌≡◌, ap, ◌∙◌, true, none, some, Bytes, length, get_elem?, ◌==◌, arith, inl, inr,
  Bool-cases, Option-cases,
}
use liblo.Stream.Receive.{Outcome, returned, removed}
use liblo.Server.Sockets.{Sockets}
use liblo.Server.Loop.{
  System, Waiter, bad_access, Ran, stopped, tick, set_context, scan_buffers, accept_connection,
}
use liblo.Server.Loop.Stream.{
  Packet, socket_read, read_socket, ready_socket, failed_socket, check_sockets,
  lo_server_recv_raw_stream,
}
use liblo.Server.Loop.Keeps.{
  Keeps, Kept, is_quiet, is_failed, is_ready, Revents-cases, scan_buffers-sockets,
  accept_connection-Keeps, del_socket-first,
}

module _ (sys : System) (fd : ℕ) (again : Waiter → Ran Packet)
    (again-Kept : (w : Waiter) → Keeps fd w → Kept fd (again w)) where
  socket_read-Kept :
      (i sock : ℕ) (w : Waiter) (next : Waiter → Packet → Ran Packet) (o : Outcome)
      → ((w : Waiter) (p : Packet) → Keeps fd w → Kept fd (next w p))
      → Keeps fd w
      → Kept fd (socket_read (suc i) sock w next o)
  unfolding socket_read set_context tick
  socket_read-Kept i sock w next (returned d more c got) rest keeps = rest _ _ keeps
  socket_read-Kept i sock w next removed rest (first, order) =
      rest _ _ (del_socket-first w.table i fd (some sock) first, order)
  socket_read-Kept i sock w next Outcome.no_memory rest keeps = λ h. cc
  socket_read-Kept i sock w next Outcome.endless rest keeps = λ h. cc
  socket_read-Kept i sock w next Outcome.fault rest keeps = λ h. cc

  accepted-Kept :
      (w : Waiter)
      → Keeps fd w
      → Kept fd (elim (accept_connection sys w) [ none ↦ stopped bad_access | some w' ↦ again w' ])
  accepted-Kept w keeps = elim (Option-cases (accept_connection sys w)) [
    | inl nothing ↦ rw nothing (λ h. cc)
    | inr (w', e) ↦ rw e (again-Kept w' (accept_connection-Keeps sys fd w w' e keeps))
  ]

  ready_socket-Kept :
      (i : ℕ) (w : Waiter) (next : Waiter → Packet → Ran Packet)
      → ((w : Waiter) (p : Packet) → Keeps fd w → Kept fd (next w p))
      → Keeps fd w
      → Kept fd (ready_socket sys again i w next)
  unfolding ready_socket read_socket
  ready_socket-Kept zero w next rest (first, order) =
      let same : (fd == fd) ≡ true = ground arith in
      rw (first, ready_socket, first, same) (accepted-Kept w (first, order))
  ready_socket-Kept (suc i) w next rest (first, order) =
      elim (Option-cases (get_elem? w.table.sockets (suc i))) [
        | inl nothing ↦ rw (nothing, ready_socket) (λ h. cc)
        | inr (sock, e) ↦ elim (Bool-cases (sock == fd)) [
          | inl same ↦ rw (e, ready_socket, first, same) (accepted-Kept w (first, order))
          | inr other ↦
              rw (e, ready_socket, first, other)
                (socket_read-Kept i sock w next _ rest (first, order))
        ]
      ]

  failed_socket-Kept :
      (i : ℕ) (w : Waiter) (next : Waiter → Ran Packet)
      → ((w : Waiter) → Keeps fd w → Kept fd (next w))
      → Keeps fd w
      → Kept fd (failed_socket i w next)
  unfolding failed_socket
  failed_socket-Kept zero w next rest keeps = keeps
  failed_socket-Kept (suc i) w next rest (first, order) =
      rest _ (del_socket-first w.table i fd _ first, order)

  check_sockets-Kept :
      (call n : ℕ) (w : Waiter) (p : Packet)
      → Keeps fd w
      → Kept fd (check_sockets sys again call n w p)
  unfolding check_sockets
  check_sockets-Kept call zero w p keeps = keeps
  check_sockets-Kept call (suc i) w p keeps = elim (Revents-cases (sys.polls call i)) [
    | is_quiet e ↦ rw (e, check_sockets) (check_sockets-Kept call i w p keeps)
    | is_failed e ↦
        rw (e, check_sockets)
          (failed_socket-Kept i w _ (λ w'. check_sockets-Kept call i w' p) keeps)
    | is_ready e ↦ rw (e, check_sockets) (ready_socket-Kept i w _ (check_sockets-Kept call i) keeps)
  ]

pub scanned-Keeps :
    (fd : ℕ) (w : Waiter) (d : Bytes) (sock : ℕ) (t : Sockets)
    → scan_buffers w.dispatcher.platform.big w.table 0 w.table.sockets ≡ some (d, sock, t)
    → Keeps fd w
    → Keeps fd (record w { table = t })
scanned-Keeps fd w d sock t e (first, order) =
    let same = scan_buffers-sockets _ w.table 0 w.table.sockets d sock t e in
    (ap (λ xs. get_elem? xs 0) same ∙ first, order)

pub lo_server_recv_raw_stream-Kept :
    (sys : System) (fuel fd : ℕ) (w : Waiter)
    → Keeps fd w
    → Kept fd (lo_server_recv_raw_stream sys fuel w)
unfolding lo_server_recv_raw_stream tick
lo_server_recv_raw_stream-Kept sys zero fd w keeps = λ h. cc
lo_server_recv_raw_stream-Kept sys (suc fuel) fd w keeps =
    elim (Option-cases (scan_buffers w.dispatcher.platform.big w.table 0 w.table.sockets)) [
      | inr ((d, sock, t), e) ↦
          rw (e, lo_server_recv_raw_stream) (scanned-Keeps fd w d sock t e keeps)
      | inl e ↦
          rw (e, lo_server_recv_raw_stream)
            (check_sockets-Kept sys fd (lo_server_recv_raw_stream sys fuel)
              (lo_server_recv_raw_stream-Kept sys fuel fd) w.calls (length w.table.sockets) (tick w)
              (none, none) keeps)
    ]
