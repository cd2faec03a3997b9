-- ===== src/Server/Loop/Arrivals.antt =====
-- What lo_server_recv of src/server.c finds in a buffer or a datagram.
use liblo.Base.{
  ℕ, zero, suc, ◌+◌, ◌*◌, ◌^◌, ◌≤◌, ◌<◌, ◌≡◌, refl, ap, ◌∙◌, subst, false, Bool, Option, none, some,
  List, [], ◌∷◌, ◌++◌, Bytes, length, take, codes, str_eq, arith,
}
use liblo.Osc.Padding.{IsText}
use liblo.Argument.{Arg}
use liblo.Message.{Message, lo_message_incref, lo_message_serialise}
use liblo.Message.Values.{Holds}
use liblo.Message.Wire.{AllArgs}
use liblo.Message.RoundTrip.{AllAllocate, received}
use liblo.Address.State.{udp, tcp}
use liblo.Stream.Buffer.{SocketContext, lo_server_buffer_copy_for_dispatch}
use liblo.Stream.Receive.{lo_max_msg_size}
use liblo.Server.Sockets.{Sockets}
use liblo.Server.Dispatch.{method_called}
use liblo.Server.Delivery.{dispatch_data-serialise}
use liblo.Server.Loop.{
  ready, System, Waiter, Ran, ran, Reply, returned, tick, is_far, lo_server_next_event_delay,
  lo_server_recv_raw, set_context, scan_buffers, queue_events, after_dispatch, got_data,
}
use liblo.Server.Loop.Stream.{lo_server_recv_raw_stream}
use liblo.Server.Loop.Recv.{
  first_reported, dispatch_received, receive_data, buffered, polled, recv_again, lo_server_recv,
}

-- The sockets before the one whose buffer has a message.
pub scan_skip :
    (big : Bool) (s : Sockets) (i : ℕ) (front fds : List ℕ)
    → ((j : ℕ)
        → j < length front
        → lo_server_buffer_copy_for_dispatch big (s.contexts (i + j)).sc ≡ none)
    → scan_buffers big s i (front ++ fds) ≡ scan_buffers big s (i + length front) fds
unfolding scan_buffers
scan_skip big s i [] fds none_whole = ap (λ n. scan_buffers big s n fds) (omega arith)
scan_skip big s i (fd ∷ front) fds none_whole =
    let here : lo_server_buffer_copy_for_dispatch big (s.contexts i).sc ≡ none =
      subst (λ n. lo_server_buffer_copy_for_dispatch big (s.contexts n).sc ≡ none) (omega arith)
        (none_whole 0 (omega arith)) in
    let place : suc i + length front ≡ i + suc (length front) = omega arith in
    rw (here, scan_buffers)
      (scan_skip big s (suc i) front fds (λ j lt.
          subst (λ n. lo_server_buffer_copy_for_dispatch big (s.contexts n).sc ≡ none) (omega arith)
            (none_whole (suc j) (omega arith)))
        ∙ ap (λ n. scan_buffers big s n fds) place)

pub scan_found :
    (big : Bool) (s : Sockets) (i fd : ℕ) (back : List ℕ) (d : Bytes) (sc : SocketContext)
    → lo_server_buffer_copy_for_dispatch big (s.contexts i).sc ≡ some (d, sc)
    → scan_buffers big s i (fd ∷ back)
      ≡ some (d, fd, set_context s i (record (s.contexts i) { sc = sc }))
unfolding scan_buffers
scan_found big s i fd back d sc e = rw (e, scan_buffers) refl

idle :
    (sys : System) (w : Waiter)
    → w.events ≡ []
    → lo_server_next_event_delay sys w ≡ (100 * 2 ^ 32, w)
unfolding lo_server_next_event_delay
idle sys w empty = rw empty refl

-- With an empty queue, the server looks at its sockets.
pub recv_idle :
    (sys : System) (rounds fuel : ℕ) (w : Waiter)
    → w.events ≡ []
    → lo_server_recv sys rounds fuel w ≡ recv_again sys rounds fuel (100 * 2 ^ 32) w
unfolding lo_server_recv
recv_idle sys rounds fuel w empty = rw (idle sys w empty, lo_server_recv) refl

pub recv_buffered :
    (sys : System) (rounds fuel : ℕ) (w : Waiter) (d : Bytes) (sock : ℕ) (t : Sockets)
    → buffered w ≡ some (d, sock, t)
    → recv_again sys rounds (suc fuel) (100 * 2 ^ 32) w
      ≡ got_data sys d (some sock) (record w { table = t })
unfolding recv_again is_far
recv_buffered sys rounds fuel w d sock t e = rw (e, recv_again) refl

take-all : (n : ℕ) (d : Bytes) → length d ≤ n → take n d ≡ d
take-all zero [] h = refl
take-all (suc n) [] h = refl
take-all zero (x ∷ d) h = absurd (omega arith)
take-all (suc n) (x ∷ d) h = ap (λ t. x ∷ t) (take-all n d (omega arith))

receive_udp :
    (sys : System) (rounds : ℕ) (w : Waiter)
    → w.protocol ≡ udp
    → let (d, w') = lo_server_recv_raw sys w in
      receive_data sys rounds w ≡ dispatch_received sys (ran (d, none) w')
unfolding receive_data
receive_udp sys rounds w proto =
    let (d, w') = lo_server_recv_raw sys w in
    ap
      (λ p. elim p [
        | tcp ↦ dispatch_received sys (lo_server_recv_raw_stream sys rounds w)
        | _ ↦ dispatch_received sys (ran (d, none) w')
      ])
      proto

buffered_udp : (w : Waiter) → w.protocol ≡ udp → buffered w ≡ none
unfolding buffered
buffered_udp w proto = rw proto refl

polled_datagram :
    (sys : System) (rounds : ℕ) (again : ℕ → Waiter → Ran Reply) (w : Waiter) (d : Bytes)
    → w.protocol ≡ udp
    → first_reported (sys.polls w.calls) 0 (length w.table.sockets) ≡ ready
    → sys.datagrams (w.calls + 1) ≡ some d
    → 0 < length d
    → length d ≤ lo_max_msg_size
    → polled sys rounds again w ≡ got_data sys d none (tick (tick w))
unfolding polled receive_data lo_server_recv_raw dispatch_received tick
polled_datagram sys rounds again w [] proto reported arrived some_data short = absurd (omega arith)
polled_datagram sys rounds again w (x ∷ d) proto reported arrived some_data short =
    let whole : take lo_max_msg_size (x ∷ d) ≡ x ∷ d = take-all lo_max_msg_size (x ∷ d) short in
    rw (reported, polled)
      (receive_udp sys rounds (tick w) proto
        ∙ rw (arrived, lo_server_recv_raw) (ap (λ t. got_data sys t none (tick (tick w))) whole))

pub recv_datagram :
    (sys : System) (rounds fuel : ℕ) (w : Waiter) (d : Bytes)
    → w.protocol ≡ udp
    → first_reported (sys.polls w.calls) 0 (length w.table.sockets) ≡ ready
    → sys.datagrams (w.calls + 1) ≡ some d
    → 0 < length d
    → length d ≤ lo_max_msg_size
    → recv_again sys rounds (suc fuel) (100 * 2 ^ 32) w ≡ got_data sys d none (tick (tick w))
unfolding recv_again is_far
recv_datagram sys rounds fuel w d proto reported arrived some_data short =
    rw (buffered_udp w proto, recv_again)
      (polled_datagram sys rounds (recv_again sys rounds fuel) w d proto reported arrived some_data
        short)

pub got_data-serialise :
    (sys : System) (w : Waiter) (sock : Option ℕ) (m : Message) (path : Bytes) (args : List Arg)
    → let p = w.dispatcher.platform in
      let d = lo_message_serialise p.big m path none in
      Holds p.big m args
      → AllArgs args
      → IsText path
      → AllAllocate p
      → str_eq path (codes "#bundle") ≡ false
      → got_data sys d sock w
        ≡ ran
            (returned (length d) (method_called path (lo_message_incref (received p args)) ∷ []))
            (tick w)
unfolding got_data after_dispatch queue_events
got_data-serialise sys w sock m path args h valid text alloc name =
    let disp = record (w.dispatcher) { now = sys.now w.calls } in
    ap (after_dispatch _ sock w) (dispatch_data-serialise disp m path args h valid text alloc name)
