-- ===== src/Server/Loop/Due.antt =====
-- When lo_server_recv of src/server.c comes to the queue.
use liblo.Base.{
  ℕ, zero, suc, ◌+◌, ◌*◌, ◌≤◌, ◌<◌, ◌≡◌, refl, ap, ◌∙◌, true, false, none, List, ◌∷◌, map, length,
  if◌then◌else◌, subst, sym, arith, inl, inr, Bool-cases,
}
use liblo.Server.Queue.{Queued, dispatch_rest, dispatch_queued}
use liblo.Server.Loop.{
  Revents, quiet, System, Waiter, Ran, ran, Reply, returned, tick, delay, is_far, called,
  lo_server_next_event_delay, dispatch_events,
}
use liblo.Server.Loop.Recv.{first_reported, buffered, polled, recv_again, lo_server_recv}

-- poll reports nothing.
abbrev pub IsSilent : System → Type 0
IsSilent sys = (n i : ℕ) → sys.polls n i ≡ quiet

first_reported-quiet :
    (revents : ℕ → Revents) (i n : ℕ)
    → ((j : ℕ) → revents j ≡ quiet)
    → first_reported revents i n ≡ quiet
unfolding first_reported
first_reported-quiet revents i zero h = refl
first_reported-quiet revents i (suc n) h =
    rw (h i, first_reported) (first_reported-quiet revents (suc i) n h)

-- The server after `n` more calls of the system.
abbrev later_by : Waiter → ℕ → Waiter
later_by w n = record w { calls = w.calls + n }

next_delay :
    (sys : System) (w : Waiter) (head : Queued) (qs : List Queued)
    → w.events ≡ head ∷ qs
    → lo_server_next_event_delay sys w ≡ (delay head.ts (sys.now w.calls), tick w)
unfolding lo_server_next_event_delay
next_delay sys w head qs e = rw e refl

-- poll has reported nothing.
polled_silent :
    (sys : System) (rounds : ℕ) (again : ℕ → Waiter → Ran Reply) (w : Waiter) (head : Queued)
    (qs : List Queued)
    → w.events ≡ head ∷ qs
    → IsSilent sys
    → let d = delay head.ts (sys.now (w.calls + 1)) in
      polled sys rounds again w ≡ (
        if is_far d
        then again d (later_by (later_by w 1) 1)
        else dispatch_events false (later_by (later_by w 1) 1))
unfolding polled tick
polled_silent sys rounds again w head qs e silent =
    rw
      (
        first_reported-quiet (sys.polls w.calls) 0 (length w.table.sockets) (silent w.calls),
        next_delay sys (tick w) head qs e,
        polled,
      )
      refl

-- One round in which poll reports nothing.
silent_round :
    (sys : System) (rounds fuel sched_time : ℕ) (w : Waiter) (head : Queued) (qs : List Queued)
    → w.events ≡ head ∷ qs
    → IsSilent sys
    → buffered w ≡ none
    → is_far sched_time ≡ true
    → let d = delay head.ts (sys.now (w.calls + 1)) in
      let w' = later_by (later_by w 1) 1 in
      recv_again sys rounds (suc fuel) sched_time w
      ≡ (if is_far d then recv_again sys rounds fuel d w' else dispatch_events false w')
unfolding recv_again
silent_round sys rounds fuel sched_time w head qs e silent empty far =
    rw (far, empty, recv_again)
      (polled_silent sys rounds (recv_again sys rounds fuel) w head qs e silent)

two_more :
    (w : Waiter)
    → dispatch_events false (later_by (later_by w 1) 1)
      ≡ dispatch_events false (later_by w (2 + 0 * 2))
two_more w =
    let n : w.calls + 1 + 1 ≡ w.calls + (2 + 0 * 2) = omega arith in
    ap (λ c. dispatch_events false (record w { calls = c })) n

-- The queue is dispatched at one of the readings of the clock up to the one at which its first
-- entry is due.
recv_again_due :
    (sys : System) (rounds k fuel sched_time : ℕ) (w : Waiter) (head : Queued) (qs : List Queued)
    → w.events ≡ head ∷ qs
    → IsSilent sys
    → buffered w ≡ none
    → is_far sched_time ≡ true
    → k < fuel
    → is_far (delay head.ts (sys.now (w.calls + 1 + k * 2))) ≡ false
    → (j : ℕ) × (j ≤ k)
      × (is_far (delay head.ts (sys.now (w.calls + 1 + j * 2))) ≡ false)
      × (recv_again sys rounds fuel sched_time w ≡ dispatch_events false (later_by w (2 + j * 2)))
unfolding buffered
recv_again_due sys rounds k zero sched_time w head qs e silent empty far lt due =
    absurd (omega arith)
recv_again_due sys rounds zero (suc fuel) sched_time w head qs e silent empty far lt due =
    let round = silent_round sys rounds fuel sched_time w head qs e silent empty far in
    let zeroth : w.calls + 1 + 0 * 2 ≡ w.calls + 1 = omega arith in
    let now = subst (λ n. is_far (delay head.ts (sys.now n)) ≡ false) zeroth due in
    (0, omega arith, due, round ∙ rw now (two_more w))
recv_again_due sys rounds (suc k) (suc fuel) sched_time w head qs e silent empty far lt due =
    let d = delay head.ts (sys.now (w.calls + 1)) in
    let round = silent_round sys rounds fuel sched_time w head qs e silent empty far in
    elim (Bool-cases (is_far d)) [
      | inr now ↦ (
        0,
        omega arith,
        subst (λ n. is_far (delay head.ts (sys.now n)) ≡ false) (omega arith) now,
        round ∙ rw now (two_more w),
      )
      | inl yet ↦
          let reading : (i : ℕ) → w.calls + 1 + suc i * 2 ≡ w.calls + 1 + 1 + 1 + i * 2 =
            λ i. omega arith in
          let is_due : ℕ → Type 0 = λ n. is_far (delay head.ts (sys.now n)) ≡ false in
          let (j, le, then_due, e') =
            recv_again_due sys rounds k fuel d (later_by (later_by w 1) 1) head qs e silent empty
              yet (omega arith) (subst is_due (reading k) due) in
          let after : w.calls + 1 + 1 + (2 + j * 2) ≡ w.calls + (2 + suc j * 2) = omega arith in
          (
            suc j,
            omega arith,
            subst is_due (sym (reading j)) then_due,
            round ∙ rw yet e' ∙ ap (λ n. dispatch_events false (record w { calls = n })) after,
          )
    ]

dispatch_first :
    (w : Waiter) (head : Queued) (qs : List Queued)
    → w.events ≡ head ∷ qs
    → let (now, later) = dispatch_rest head.ts false qs in
      dispatch_events false w
      ≡ ran (returned 0 (map called (head ∷ now))) (record w { events = later })
unfolding dispatch_events dispatch_queued
dispatch_first w head qs e = rw (e, dispatch_queued) refl

-- The first reading.
first_reading :
    (sys : System) (rounds fuel : ℕ) (w : Waiter) (head : Queued) (qs : List Queued)
    → w.events ≡ head ∷ qs
    → lo_server_recv sys rounds fuel w
      ≡ recv_again sys rounds fuel (delay head.ts (sys.now w.calls)) (later_by w 1)
unfolding lo_server_recv tick
first_reading sys rounds fuel w head qs e = rw (next_delay sys w head qs e, lo_server_recv) refl

due_at_once :
    (sys : System) (rounds fuel sched_time : ℕ) (w : Waiter)
    → is_far sched_time ≡ false
    → 0 < fuel
    → recv_again sys rounds fuel sched_time w ≡ dispatch_events false w
unfolding recv_again
due_at_once sys rounds zero sched_time w now some_fuel = absurd (omega arith)
due_at_once sys rounds (suc fuel) sched_time w now some_fuel = rw (now, recv_again) refl

recv_due :
    (sys : System) (rounds k fuel : ℕ) (w : Waiter) (head : Queued) (qs : List Queued)
    → w.events ≡ head ∷ qs
    → IsSilent sys
    → buffered w ≡ none
    → k < fuel
    → is_far (delay head.ts (sys.now (w.calls + k * 2))) ≡ false
    → (j : ℕ) × (j ≤ k)
      × (is_far (delay head.ts (sys.now (w.calls + j * 2))) ≡ false)
      × (lo_server_recv sys rounds fuel w ≡ dispatch_events false (later_by w (1 + j * 2)))
unfolding buffered
recv_due sys rounds k fuel w head qs e silent empty enough due =
    let start = first_reading sys rounds fuel w head qs e in
    elim (Bool-cases (is_far (delay head.ts (sys.now w.calls)))) [
      | inr now ↦ (
        0,
        omega arith,
        subst IsDue (omega arith) now,
        start ∙ due_at_once sys rounds fuel _ (later_by w 1) now (omega arith),
      )
      | inl yet ↦ waits k enough due yet
    ]
  where
    IsDue : ℕ → Type 0
    IsDue n = is_far (delay head.ts (sys.now n)) ≡ false

    waits :
        (k : ℕ)
        → k < fuel
        → is_far (delay head.ts (sys.now (w.calls + k * 2))) ≡ false
        → is_far (delay head.ts (sys.now w.calls)) ≡ true
        → (j : ℕ) × (j ≤ k)
          × (is_far (delay head.ts (sys.now (w.calls + j * 2))) ≡ false)
          × (lo_server_recv sys rounds fuel w ≡ dispatch_events false (later_by w (1 + j * 2)))
    waits zero lt due yet =
        let now : is_far (delay head.ts (sys.now w.calls)) ≡ false =
          subst IsDue (omega arith) due in
        absurd (cc)
    waits (suc k) lt due yet =
        let (j, le, then_due, e') =
          recv_again_due sys rounds k fuel (delay head.ts (sys.now w.calls)) (later_by w 1) head qs
            e silent empty yet (omega arith) (subst IsDue (omega arith) due) in
        let after : w.calls + 1 + (2 + j * 2) ≡ w.calls + (1 + suc j * 2) = omega arith in
        (
          suc j,
          omega arith,
          subst IsDue (omega arith) then_due,
          first_reading sys rounds fuel w head qs e
              ∙ e'
              ∙ ap (λ n. dispatch_events false (record w { calls = n })) after,
        )

-- While poll reports nothing and no message waits in a buffer, lo_server_recv returns once the
-- clock is at most a hundredth of a second before the time of the first entry of the queue: if
-- that is so at the k-th time that it reads the clock, and the fuel is above k, then it returns 0
-- at that reading or an earlier one at which it is so as well, has called the methods for the
-- first entry and those that dispatch_queued takes with it, and leaves the others queued.
pub lo_server_recv_due :
    (sys : System) (rounds k fuel : ℕ) (w : Waiter) (head : Queued) (qs : List Queued)
    → w.events ≡ head ∷ qs
    → IsSilent sys
    → buffered w ≡ none
    → k < fuel
    → is_far (delay head.ts (sys.now (w.calls + k * 2))) ≡ false
    → let (now, later) = dispatch_rest head.ts false qs in
      (j : ℕ) × (j ≤ k)
      × (is_far (delay head.ts (sys.now (w.calls + j * 2))) ≡ false)
      × (lo_server_recv sys rounds fuel w
          ≡ ran
              (returned 0 (map called (head ∷ now)))
              (record w { events = later; calls = w.calls + (1 + j * 2) }))
lo_server_recv_due sys rounds k fuel w head qs e silent empty enough due =
    let (j, le, then_due, e') = recv_due sys rounds k fuel w head qs e silent empty enough due in
    (j, le, then_due, e' ∙ dispatch_first (later_by w (1 + j * 2)) head qs e)
