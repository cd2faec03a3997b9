-- ===== src/Server/Loop/Rounds.antt =====
-- What lo_server_recv of src/server.c leaves as it was, over its rounds.
use liblo.Base.{
  ℕ, zero, suc, ◌-◌, ◌≡◌, ◌≢◌, refl, Bool, true, false, Option, none, some, List, [], ◌∷◌, Bytes,
  length, get_elem?, inl, inr, Bool-cases, Option-cases,
}
use liblo.Address.State.{Protocol, udp, tcp, unix}
use liblo.Server.Sockets.{Sockets}
use liblo.Server.Queue.{Queued, IsOrdered}
use liblo.Server.Loop.{
  ready, System, Waiter, Ran, ran, stopped, Reply, tick, is_far, lo_server_next_event_delay,
  lo_server_recv_raw, accept_connection,
}
use liblo.Server.Loop.Stream.{Packet}
use liblo.Server.Loop.Recv.{
  first_reported, dispatch_received, receive_data, buffered, polled, recv_again, lo_server_recv,
  any_whole, wait_others, wait_accept, wait_first, wait_again, lo_server_wait, recv_if,
  lo_server_recv_noblock,
}
use liblo.Server.Loop.Keeps.{
  Keeps, Kept, is_quiet, is_failed, is_ready, Revents-cases, dispatch_events-Kept, delay-some,
  got_data-Kept, accept_connection-Keeps,
}
use liblo.Server.Loop.Accepts.{scanned-Keeps, lo_server_recv_raw_stream-Kept}

dispatch_received-Kept :
    (sys : System) (fd : ℕ) (r : Ran Packet) → Kept fd r → Kept fd (dispatch_received sys r)
unfolding dispatch_received
dispatch_received-Kept sys fd (stopped e) keeps = keeps
dispatch_received-Kept sys fd (ran (none, sock) w) keeps = keeps
dispatch_received-Kept sys fd (ran (some d, sock) w) keeps = got_data-Kept sys fd d sock w keeps

recv_raw-Kept :
    (sys : System) (fd : ℕ) (w : Waiter)
    → Keeps fd w
    → let (d, w') = lo_server_recv_raw sys w in Kept fd (dispatch_received sys (ran (d, none) w'))
unfolding lo_server_recv_raw tick
recv_raw-Kept sys fd w keeps = go (sys.datagrams w.calls) refl
  where
    go :
        (o : Option Bytes)
        → sys.datagrams w.calls ≡ o
        → let (d, w') = lo_server_recv_raw sys w in
          Kept fd (dispatch_received sys (ran (d, none) w'))
    go none e = rw (e, lo_server_recv_raw) (dispatch_received-Kept sys fd _ keeps)
    go (some []) e = rw (e, lo_server_recv_raw) (dispatch_received-Kept sys fd _ keeps)
    go (some (x ∷ d)) e = rw (e, lo_server_recv_raw) (dispatch_received-Kept sys fd _ keeps)

receive_data-Kept :
    (sys : System) (rounds fd : ℕ) (w : Waiter) → Keeps fd w → Kept fd (receive_data sys rounds w)
unfolding receive_data
receive_data-Kept sys rounds fd w keeps = go w.protocol refl
  where
    go : (p : Protocol) → w.protocol ≡ p → Kept fd (receive_data sys rounds w)
    go tcp e =
        rw (e, receive_data)
          (dispatch_received-Kept sys fd _ (lo_server_recv_raw_stream-Kept sys rounds fd w keeps))
    go udp e = rw (e, receive_data) (recv_raw-Kept sys fd w keeps)
    go unix e = rw (e, receive_data) (recv_raw-Kept sys fd w keeps)

next_delay-Keeps :
    (sys : System) (fd : ℕ) (w : Waiter)
    → Keeps fd w
    → Keeps fd (lo_server_next_event_delay sys w).1
unfolding lo_server_next_event_delay tick
next_delay-Keeps sys fd w keeps = go w.events refl
  where
    go : (qs : List Queued) → w.events ≡ qs → Keeps fd (lo_server_next_event_delay sys w).1
    go [] e = rw (e, lo_server_next_event_delay) keeps
    go (q ∷ qs) e = rw (e, lo_server_next_event_delay) keeps

buffered-Keeps :
    (fd : ℕ) (w : Waiter) (d : Bytes) (sock : ℕ) (t : Sockets)
    → buffered w ≡ some (d, sock, t)
    → Keeps fd w
    → Keeps fd (record w { table = t })
unfolding buffered
buffered-Keeps fd w d sock t e keeps = go w.protocol refl
  where
    go : (p : Protocol) → w.protocol ≡ p → Keeps fd (record w { table = t })
    go tcp h = scanned-Keeps fd w d sock t (rw (h, buffered) at e) keeps
    go udp h = absurd (cc (rw (h, buffered) at e))
    go unix h = absurd (cc (rw (h, buffered) at e))

polled-Kept :
    (sys : System) (rounds fd : ℕ) (again : ℕ → Waiter → Ran Reply) (w : Waiter)
    → ((d : ℕ) (w : Waiter) → (is_far d ≡ false → w.events ≢ []) → Keeps fd w → Kept fd (again d w))
    → Keeps fd w
    → Kept fd (polled sys rounds again w)
unfolding polled tick
polled-Kept sys rounds fd again w rest keeps =
    elim (Revents-cases (first_reported (sys.polls w.calls) 0 (length w.table.sockets))) [
      | is_failed e ↦ rw (e, polled) keeps
      | is_ready e ↦ rw (e, polled) (receive_data-Kept sys rounds fd (tick w) keeps)
      | is_quiet e ↦
          let next = lo_server_next_event_delay sys (tick w) in
          let kept : Keeps fd next.1 = next_delay-Keeps sys fd (tick w) keeps in
          let some_event = delay-some sys (tick w) in
          elim (Bool-cases (is_far next.0)) [
            | inl far ↦ rw (e, polled, far) (rest next.0 next.1 some_event kept)
            | inr near ↦
                rw (e, polled, near) (dispatch_events-Kept fd next.1 (some_event near) kept)
          ]
    ]

recv_again-Kept :
    (sys : System) (rounds fuel fd sched_time : ℕ) (w : Waiter)
    → (is_far sched_time ≡ false → w.events ≢ [])
    → Keeps fd w
    → Kept fd (recv_again sys rounds fuel sched_time w)
unfolding recv_again
recv_again-Kept sys rounds zero fd sched_time w some_event keeps = λ h. cc
recv_again-Kept sys rounds (suc fuel) fd sched_time w some_event keeps =
    elim (Bool-cases (is_far sched_time)) [
      | inr near ↦ rw (near, recv_again) (dispatch_events-Kept fd w (some_event near) keeps)
      | inl far ↦ elim (Option-cases (buffered w)) [
        | inl e ↦
            rw (far, recv_again, e)
              (polled-Kept sys rounds fd (recv_again sys rounds fuel) w
                (recv_again-Kept sys rounds fuel fd) keeps)
        | inr ((d, sock, t), e) ↦
            rw (far, recv_again, e)
              (got_data-Kept sys fd d (some sock) (record w { table = t })
                (buffered-Keeps fd w d sock t e keeps))
      ]
    ]

recv-Kept :
    (sys : System) (rounds fuel fd : ℕ) (w : Waiter)
    → Keeps fd w
    → Kept fd (lo_server_recv sys rounds fuel w)
unfolding lo_server_recv
recv-Kept sys rounds fuel fd w keeps =
    let (sched_time, w') = lo_server_next_event_delay sys w in
    recv_again-Kept sys rounds fuel fd sched_time w' (delay-some sys w)
      (next_delay-Keeps sys fd w keeps)

wait_others-Kept :
    (sys : System) (fd call : ℕ) (w : Waiter) → Keeps fd w → Kept fd (wait_others sys call w)
unfolding wait_others
wait_others-Kept sys fd call w keeps =
    elim (Revents-cases (first_reported (sys.polls call) 1 (length w.table.sockets - 1))) [
      | is_quiet e ↦ rw (e, wait_others) (next_delay-Keeps sys fd w keeps)
      | is_failed e ↦ rw (e, wait_others) keeps
      | is_ready e ↦ rw (e, wait_others) keeps
    ]

module _ (sys : System) (fd : ℕ) (again : Waiter → Ran Bool)
    (again-Kept : (w : Waiter) → Keeps fd w → Kept fd (again w)) where
  wait_accept-Kept : (w : Waiter) → Keeps fd w → Kept fd (wait_accept sys again w)
  unfolding wait_accept tick
  wait_accept-Kept w keeps = elim (Option-cases (accept_connection sys w)) [
    | inl nothing ↦ rw (nothing, wait_accept) (λ h. cc)
    | inr (w', e) ↦
        rw (e, wait_accept)
          (again-Kept _
            (next_delay-Keeps sys fd (tick w') (accept_connection-Keeps sys fd w w' e keeps)))
  ]

  wait_first-Kept : (w : Waiter) → Keeps fd w → Kept fd (wait_first sys again w)
  unfolding wait_first tick
  wait_first-Kept w keeps = elim (Revents-cases (sys.polls w.calls 0)) [
    | is_quiet e ↦ rw (e, wait_first) (wait_others-Kept sys fd w.calls (tick w) keeps)
    | is_failed e ↦ rw (e, wait_first) keeps
    | is_ready e ↦ go e w.protocol refl
  ]
    where
      go :
          sys.polls w.calls 0 ≡ ready
          → (p : Protocol) → w.protocol ≡ p
          → Kept fd (wait_first sys again w)
      go e tcp h = rw (e, wait_first, h) (wait_accept-Kept (tick w) keeps)
      go e udp h = rw (e, wait_first, h) keeps
      go e unix h = rw (e, wait_first, h) keeps

wait_again-Kept :
    (sys : System) (fuel fd : ℕ) (w : Waiter) → Keeps fd w → Kept fd (wait_again sys fuel w)
unfolding wait_again tick
wait_again-Kept sys zero fd w keeps = λ h. cc
wait_again-Kept sys (suc fuel) fd w keeps =
    elim (Bool-cases (any_whole w.dispatcher.platform.big w.table 0 (length w.table.sockets))) [
      | inl e ↦ rw (e, wait_again) keeps
      | inr e ↦
          rw (e, wait_again)
            (wait_first-Kept sys fd (wait_again sys fuel) (wait_again-Kept sys fuel fd) (tick w)
              keeps)
    ]

recv_if-Kept :
    (sys : System) (rounds fuel fd : ℕ) (r : Ran Bool)
    → Kept fd r
    → Kept fd (recv_if sys rounds fuel r)
unfolding recv_if
recv_if-Kept sys rounds fuel fd (stopped e) keeps = keeps
recv_if-Kept sys rounds fuel fd (ran true w) keeps = recv-Kept sys rounds fuel fd w keeps
recv_if-Kept sys rounds fuel fd (ran false w) keeps = keeps

-- Whatever poll, accept, recv, recvfrom and the clock answer, lo_server_recv and
-- lo_server_recv_noblock never dispatch from an empty queue, and where they end, the first socket
-- of the table is the one that it was and the queue is still in the order of time.
pub lo_server_recv-Kept :
    (sys : System) (rounds fuel fd : ℕ) (w : Waiter)
    → get_elem? w.table.sockets 0 ≡ some fd
    → IsOrdered w.events
    → Kept fd (lo_server_recv sys rounds fuel w)
      × Kept fd (lo_server_recv_noblock sys rounds fuel w)
unfolding lo_server_recv_noblock lo_server_wait
lo_server_recv-Kept sys rounds fuel fd w first order = (
  recv-Kept sys rounds fuel fd w (first, order),
  recv_if-Kept sys rounds fuel fd _
      (wait_again-Kept sys fuel fd _ (next_delay-Keeps sys fd w (first, order))),
)
