-- ===== src/Server/Loop/Recv.antt =====
-- lo_server_recv, lo_server_wait and lo_server_recv_noblock of src/server.c, with poll.
use liblo.Base.{
  ℕ, zero, suc, ◌-◌, Bool, true, false, not, Option, none, some, [], Bytes, length, if◌then◌else◌,
}
use liblo.Stream.Buffer.{lo_server_buffer_contains_msg}
use liblo.Address.State.{tcp}
use liblo.Server.Sockets.{Sockets}
use liblo.Server.Loop.{
  Revents, quiet, failed, ready, System, Waiter, waiting, bad_access, Ran, ran, stopped, Reply,
  returned, tick, lo_server_next_event_delay, is_far, dispatch_events, lo_server_recv_raw,
  scan_buffers, accept_connection, got_data,
}
use liblo.Server.Loop.Stream.{Packet, lo_server_recv_raw_stream}

-- The first of the `n` sockets from `i` on of which poll reports anything.
unfoldable pub first_reported : (ℕ → Revents) → ℕ → ℕ → Revents
first_reported revents i zero = quiet
first_reported revents i (suc n) = elim (revents i) [
  | quiet ↦ first_reported revents (suc i) n
  | failed ↦ failed
  | ready ↦ ready
]

unfoldable pub dispatch_received : System → Ran Packet → Ran Reply
dispatch_received sys (stopped e) = stopped e
dispatch_received sys (ran (none, sock) w) = ran (returned 0 []) w
dispatch_received sys (ran (some d, sock) w) = got_data sys d sock w

unfoldable pub receive_data : System → ℕ → Waiter → Ran Reply
receive_data sys rounds w = elim w.protocol [
  | tcp ↦ dispatch_received sys (lo_server_recv_raw_stream sys rounds w)
  | _ ↦ let (d, w') = lo_server_recv_raw sys w in dispatch_received sys (ran (d, none) w')
]

-- On a stream, a message that waits in a buffer.
unfoldable pub buffered : Waiter → Option (Bytes × ℕ × Sockets)
buffered w = elim w.protocol [
  | tcp ↦ scan_buffers w.dispatcher.platform.big w.table 0 w.table.sockets
  | _ ↦ none
]

-- After poll; `again` is the next round of the loop for a time and a server.
unfoldable pub polled : System → ℕ → (ℕ → Waiter → Ran Reply) → Waiter → Ran Reply
polled sys rounds again w =
    let (sched_time, w') = lo_server_next_event_delay sys (tick w) in
    elim (first_reported (sys.polls w.calls) 0 (length w.table.sockets)) [
      | quiet ↦ if is_far sched_time then again sched_time w' else dispatch_events false w'
      | failed ↦ ran (returned 0 []) (tick w)
      | ready ↦ receive_data sys rounds (tick w)
    ]

-- From `again`; each round waits for at most ten seconds.
unfoldable pub recv_again : System → ℕ → ℕ → ℕ → Waiter → Ran Reply
recv_again sys rounds zero sched_time w = stopped waiting
recv_again sys rounds (suc fuel) sched_time w =
    let again = recv_again sys rounds fuel in
    if is_far sched_time
    then (elim (buffered w) [
      | some (d, sock, table) ↦ got_data sys d (some sock) (record w { table = table })
      | none ↦ polled sys rounds again w
    ])
    else dispatch_events false w

-- With fuel for the rounds of the wait, and for new connections in the last one.
unfoldable pub lo_server_recv : System → ℕ → ℕ → Waiter → Ran Reply
lo_server_recv sys rounds fuel w =
    let (sched_time, w') = lo_server_next_event_delay sys w in
    recv_again sys rounds fuel sched_time w'

-- Whether a message waits in a buffer.
unfoldable pub any_whole : Bool → Sockets → ℕ → ℕ → Bool
any_whole big s i zero = false
any_whole big s i (suc n) = elim (lo_server_buffer_contains_msg big (s.contexts i).sc) [
  | zero ↦ any_whole big s (suc i) n
  | suc _ ↦ true
]

-- The end of lo_server_wait: the sockets behind the first one, and then the queue.
unfoldable pub wait_others : System → ℕ → Waiter → Ran Bool
wait_others sys call w =
    let (sched_time, w') = lo_server_next_event_delay sys w in
    elim (first_reported (sys.polls call) 1 (length w.table.sockets - 1)) [
      | quiet ↦ ran (not (is_far sched_time)) w'
      | failed ↦ ran false w
      | ready ↦ ran true w
    ]

-- A new connection, after which the time is read and everything begins again.
unfoldable pub wait_accept : System → (Waiter → Ran Bool) → Waiter → Ran Bool
wait_accept sys again w = elim (accept_connection sys w) [
  | none ↦ stopped bad_access
  | some w' ↦ again (lo_server_next_event_delay sys (tick w')).1
]

unfoldable pub wait_first : System → (Waiter → Ran Bool) → Waiter → Ran Bool
wait_first sys again w =
    let w' = tick w in
    elim (sys.polls w.calls 0) [
      | failed ↦ ran false w'
      | ready ↦ elim w.protocol [ tcp ↦ wait_accept sys again w' | _ ↦ ran true w' ]
      | quiet ↦ wait_others sys w.calls w'
    ]

-- From `again`: the clock is read before poll.
unfoldable pub wait_again : System → ℕ → Waiter → Ran Bool
wait_again sys zero w = stopped waiting
wait_again sys (suc fuel) w =
    let again = wait_again sys fuel in
    if any_whole w.dispatcher.platform.big w.table 0 (length w.table.sockets)
    then ran true w
    else wait_first sys again (tick w)

unfoldable pub lo_server_wait : System → ℕ → Waiter → Ran Bool
lo_server_wait sys fuel w = wait_again sys fuel (lo_server_next_event_delay sys w).1

unfoldable pub recv_if : System → ℕ → ℕ → Ran Bool → Ran Reply
recv_if sys rounds fuel (stopped e) = stopped e
recv_if sys rounds fuel (ran false w) = ran (returned 0 []) w
recv_if sys rounds fuel (ran true w) = lo_server_recv sys rounds fuel w

unfoldable pub lo_server_recv_noblock : System → ℕ → ℕ → Waiter → Ran Reply
lo_server_recv_noblock sys rounds fuel w = recv_if sys rounds fuel (lo_server_wait sys fuel w)
