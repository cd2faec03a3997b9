-- ===== src/Server/Joins.antt =====
-- What the calls of src/server_thread.c come to, in every interleaving: how many threads receive for
-- a server, what lo_server_thread_stop waits for, and what a thread that cannot be created leaves.
use liblo.Base.{ℕ, zero, suc, ◌≤◌, ◌<◌, ◌≡◌, ◌⊎◌, refl, sym, subst, true, false, inl, inr, arith}
use liblo.Server.Thread.{
  idle, joining, undefined, absent, testing, receiving, ended, ServerThread, lo_server_thread_new,
  forget_thread, lo_server_thread_start, lo_server_thread_stop, stop_returns, thread_func,
  left_func, Step, start, stop, joined, not_joined, test, received, left_test, left_received,
  Reaches, here, next, Reaches-append, Keeps, Reaches-keeps, running,
}

-- While pthread_join has not failed no thread is left behind, and a thread that has not ended is one
-- of an active server, or the caller waits for it.
abbrev IsSound : ServerThread → Type 0
IsSound st =
    (0 < st.unjoined)
    ⊎ ((st.left_testing ≡ 0)
        × (st.left_receiving ≡ 0)
        × (((st.thread ≡ absent) ⊎ (st.thread ≡ ended))
            ⊎ (((st.active ≡ true) × (st.caller ≡ idle))
                ⊎ ((st.active ≡ false) × (st.caller ≡ joining))))
        × ((st.active ≡ false) ⊎ (st.caller ≡ idle))
        × (((st.caller ≡ idle) ⊎ (st.caller ≡ undefined))
            ⊎ ((st.thread ≡ testing) ⊎ ((st.thread ≡ receiving) ⊎ (st.thread ≡ ended)))))

IsSound-keeps : Keeps IsSound
unfolding lo_server_thread_start forget_thread lo_server_thread_stop stop_returns thread_func
    left_func
IsSound-keeps st st' (start zero free e) sound = subst IsSound (sym e) (ground arith)
IsSound-keeps st st' (start (suc n) free e) sound = subst IsSound (sym e) (ground arith)
IsSound-keeps st st' (stop free e) sound = subst IsSound (sym e) (ground arith)
IsSound-keeps st st' (joined waits over e) sound = subst IsSound (sym e) (ground arith)
IsSound-keeps st st' (not_joined n waits e) sound = subst IsSound (sym e) (inl (omega arith))
IsSound-keeps st st' (test at e) sound = subst IsSound (sym e) (ground arith)
IsSound-keeps st st' (received at e) sound = subst IsSound (sym e) (ground arith)
IsSound-keeps st st' (left_test some_left e) sound = subst IsSound (sym e) (ground arith)
IsSound-keeps st st' (left_received some_left e) sound = subst IsSound (sym e) (ground arith)

reached-IsSound : (st : ServerThread) → Reaches lo_server_thread_new st → IsSound st
unfolding lo_server_thread_new
reached-IsSound st reached =
    Reaches-keeps IsSound IsSound-keeps reached
      (inr (refl, refl, inl (inl refl), inl refl, inl (inl refl)))

-- However the steps of the caller and of the threads interleave from a new server thread on, while no
-- call of pthread_join has failed: at most one thread has not ended; and where the caller has called
-- lo_server_thread_stop and it has returned, so that the server is not active and the caller is not
-- waiting, none has.
pub Reaches-one_thread :
    (st : ServerThread)
    → Reaches lo_server_thread_new st
    → st.unjoined ≡ 0
    → (running st ≤ 1) × ((st.active ≡ true) ⊎ ((st.caller ≡ joining) ⊎ (running st ≡ 0)))
unfolding running
Reaches-one_thread st reached joins = let sound = reached-IsSound st reached in ground arith

-- How many steps the thread of a server that is not active has left.
unfoldable pub remaining : ServerThread → ℕ
remaining st = elim st.thread [ absent ↦ 0 | testing ↦ 1 | receiving ↦ 2 | ended ↦ 0 ]

-- The caller waits for its thread, and for no other.
abbrev Waits : ServerThread → Type 0
Waits st =
    (st.unjoined ≡ 0)
    × (st.caller ≡ joining)
    × (st.active ≡ false)
    × (st.left_testing ≡ 0)
    × (st.left_receiving ≡ 0)
    × ((st.thread ≡ testing) ⊎ ((st.thread ≡ receiving) ⊎ (st.thread ≡ ended)))

reached-Waits :
    (st : ServerThread)
    → Reaches lo_server_thread_new st
    → st.unjoined ≡ 0
    → st.caller ≡ joining
    → Waits st
reached-Waits st reached joins waits = let sound = reached-IsSound st reached in ground arith

-- A step while the caller waits.
abbrev pub Nearer : ServerThread → ServerThread → Type 0
Nearer st st' =
    (st'.receives ≡ st.receives) × ((st'.caller ≡ idle) ⊎ (remaining st' < remaining st))

Step-Nearer : (st st' : ServerThread) → Waits st → Step st st' → Nearer st st'
unfolding remaining stop_returns thread_func
Step-Nearer st st' w (start result free e) = absurd (cc)
Step-Nearer st st' w (stop free e) = absurd (cc)
Step-Nearer st st' w (joined waits over e) = subst (Nearer st) (sym e) (refl, inl refl)
Step-Nearer st st' w (not_joined n waits e) = subst (Nearer st) (sym e) (refl, inl refl)
Step-Nearer st st' w (test at e) = subst (Nearer st) (sym e) (ground arith)
Step-Nearer st st' w (received at e) = subst (Nearer st) (sym e) (ground arith)
Step-Nearer st st' w (left_test some_left e) = absurd (omega (arith, w.3))
Step-Nearer st st' w (left_received some_left e) = absurd (omega (arith, w.4))

-- The caller has gone on, with no thread left and no error.
abbrev pub Returned : ServerThread → Type 0
Returned st = (st.caller ≡ idle) × (running st ≡ 0) × (st.unjoined ≡ 0)

from_ended :
    (st : ServerThread)
    → Waits st
    → st.thread ≡ ended
    → (b : ServerThread) × Reaches st b × Returned b
unfolding stop_returns running
from_ended st w over =
    ((stop_returns 0 st).1, next (here st) (joined w.1 over refl), (refl, ground arith, w.0))

from_testing :
    (st : ServerThread)
    → Waits st
    → st.thread ≡ testing
    → (b : ServerThread) × Reaches st b × Returned b
unfolding thread_func
from_testing st w at =
    let (b, reached, returned) =
      from_ended (record st { thread = ended; done = true })
        (w.0, w.1, w.2, w.3, w.4, inr (inr refl)) refl in
    let last : Step st (record st { thread = ended; done = true }) = test at (ground arith) in
    (b, Reaches-append (next (here st) last) reached, returned)

from_receiving :
    (st : ServerThread)
    → Waits st
    → st.thread ≡ receiving
    → (b : ServerThread) × Reaches st b × Returned b
from_receiving st w at =
    let (b, reached, returned) =
      from_testing (record st { thread = testing }) (w.0, w.1, w.2, w.3, w.4, inl refl) refl in
    (b, Reaches-append (next (here st) (received at refl)) reached, returned)

-- While the caller waits in lo_server_thread_stop and no call of pthread_join has failed, no call of
-- lo_server_recv_noblock begins, though the one in progress goes on; each step that is made brings
-- the thread nearer to its end, or the caller goes on; and by some steps the call returns 0, with no
-- thread left.
pub lo_server_thread_stop_returns :
    (st : ServerThread)
    → Reaches lo_server_thread_new st
    → st.unjoined ≡ 0
    → st.caller ≡ joining
    → ((st' : ServerThread) → Step st st' → Nearer st st')
      × ((b : ServerThread) × Reaches st b × Returned b)
lo_server_thread_stop_returns st reached joins waits =
    let w = reached-Waits st reached joins waits in
    (
      λ st' step. Step-Nearer st st' w step,
      elim w.5 [
        | inl at ↦ from_testing st w at
        | inr (inl at) ↦ from_receiving st w at
        | inr (inr at) ↦ from_ended st w at
      ],
    )

-- There is no thread, and the caller can neither start one nor wait for one.
abbrev pub Stuck : ℕ → ServerThread → Type 0
Stuck n st =
    (st.thread ≡ absent)
    × (st.left_testing ≡ 0)
    × (st.left_receiving ≡ 0)
    × (st.receives ≡ n)
    × (((st.active ≡ true) × (st.caller ≡ idle)) ⊎ (st.caller ≡ undefined))

Stuck-keeps : (n : ℕ) → Keeps (Stuck n)
unfolding lo_server_thread_start forget_thread lo_server_thread_stop stop_returns thread_func
    left_func
Stuck-keeps n st st' (start zero free e) h = subst (Stuck n) (sym e) (ground arith)
Stuck-keeps n st st' (start (suc k) free e) h = subst (Stuck n) (sym e) (ground arith)
Stuck-keeps n st st' (stop free e) h = subst (Stuck n) (sym e) (ground arith)
Stuck-keeps n st st' (joined waits over e) h = absurd (ground arith)
Stuck-keeps n st st' (not_joined k waits e) h = absurd (ground arith)
Stuck-keeps n st st' (test at e) h = absurd (cc)
Stuck-keeps n st st' (received at e) h = absurd (cc)
Stuck-keeps n st st' (left_test some_left e) h = absurd (omega (arith, h.1))
Stuck-keeps n st st' (left_received some_left e) h = absurd (omega (arith, h.2))

failed-Stuck :
    (st : ServerThread) (k : ℕ)
    → Reaches lo_server_thread_new st
    → st.unjoined ≡ 0
    → st.active ≡ false
    → st.caller ≡ idle
    → Stuck st.receives (lo_server_thread_start (suc k) st).1
unfolding lo_server_thread_start forget_thread
failed-Stuck st k reached joins off free = let sound = reached-IsSound st reached in ground arith

-- Where pthread_create fails for a server that is not active, and no call of pthread_join has failed
-- before, then whatever steps follow, however often lo_server_thread_start is called again: no
-- thread is ever created, nothing more is received, and the server counts as active or
-- lo_server_thread_stop has waited for a thread that was never created.
pub lo_server_thread_start_failed :
    (st st' : ServerThread) (k : ℕ)
    → Reaches lo_server_thread_new st
    → st.unjoined ≡ 0
    → st.active ≡ false
    → st.caller ≡ idle
    → Reaches (lo_server_thread_start (suc k) st).1 st'
    → Stuck st.receives st'
lo_server_thread_start_failed st st' k reached joins off free later =
    Reaches-keeps (Stuck st.receives) (Stuck-keeps st.receives) later
      (failed-Stuck st k reached joins off free)

abbrev Crowded : ℕ → ServerThread → Type 0
Crowded n st =
    (st.active ≡ true)
    × (st.caller ≡ idle)
    × (st.thread ≡ testing)
    × (st.left_testing ≡ n)
    × (st.left_receiving ≡ 0)

-- A stop that fails and a new start.
one_more :
    (n : ℕ) (st : ServerThread)
    → Crowded n st
    → (b : ServerThread) × Reaches st b × Crowded (suc n) b
unfolding lo_server_thread_stop stop_returns lo_server_thread_start forget_thread
one_more n st h =
    let a = lo_server_thread_stop st in
    let b = (stop_returns 35 a).1 in
    let c = (lo_server_thread_start 0 b).1 in
    let steps : Reaches st c =
      next (next (next (here st) (stop h.1 refl)) (not_joined 34 (ground arith) refl))
        (start 0 refl refl) in
    (c, steps, ground arith)

crowd : (n : ℕ) → (st : ServerThread) × Reaches lo_server_thread_new st × Crowded n st
unfolding lo_server_thread_new lo_server_thread_start forget_thread
crowd zero = (
  (lo_server_thread_start 0 lo_server_thread_new).1,
  next (here lo_server_thread_new) (start 0 refl refl),
  (refl, refl, refl, refl, refl),
)
crowd (suc n) =
    let (st, reached, crowded) = crowd n in
    let (b, more, crowded') = one_more n st crowded in (b, Reaches-append reached more, crowded')

-- Where calls of pthread_join fail, as when a handler calls lo_server_thread_stop, any number of
-- threads come to receive for one server: for every number there are steps of a new server thread
-- after which so many threads and one more have not ended, and the server is active.
pub Reaches-many_threads :
    (n : ℕ)
    → (st : ServerThread) × Reaches lo_server_thread_new st
      × (running st ≡ suc n)
      × (st.active ≡ true)
unfolding running
Reaches-many_threads n = let (st, reached, h) = crowd n in (st, reached, ground arith, h.0)
