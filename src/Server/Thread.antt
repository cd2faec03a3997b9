-- ===== src/Server/Thread.antt =====
-- src/server_thread.c: the thread that receives for a server, and the calls that start and stop it,
-- as steps of the caller and of the threads that interleave.
use liblo.Base.{ℕ, zero, suc, ◌+◌, ◌-◌, ◌<◌, ◌≡◌, Bool, true, false, if◌then◌else◌}

-- What the caller does: nothing with the thread; it waits in pthread_join; or it has called
-- pthread_join for a thread that was never created, which C does not define.
pub data Caller : Type 0 where
  idle joining undefined : Caller

-- Where a thread is: there is none; before the test of `active`; in lo_server_recv_noblock; or it
-- has ended.
pub data Phase : Type 0 where
  absent testing receiving ended : Phase

-- struct _lo_server_thread, with what the system knows: `thread` is where st->thread is, `left` are
-- the threads that st->thread no longer names and that have not ended, of which `left_receiving` are
-- in lo_server_recv_noblock; `receives` counts the calls of lo_server_recv_noblock that have begun,
-- and `unjoined` the calls of pthread_join that have failed.
pub record ServerThread : Type 0 where
  pub active : Bool
  pub done : Bool
  pub thread : Phase
  pub left_testing : ℕ
  pub left_receiving : ℕ
  pub receives : ℕ
  pub unjoined : ℕ
  pub caller : Caller

unfoldable pub lo_server_thread_new : ServerThread
lo_server_thread_new = record {
  active = false;
  done = false;
  thread = absent;
  left_testing = 0;
  left_receiving = 0;
  receives = 0;
  unjoined = 0;
  caller = idle;
}

-- st->thread is about to name another thread.
unfoldable pub forget_thread : ServerThread → ServerThread
forget_thread st = elim st.thread [
  | testing ↦ record st { left_testing = st.left_testing + 1; thread = absent }
  | receiving ↦ record st { left_receiving = st.left_receiving + 1; thread = absent }
  | _ ↦ record st { thread = absent }
]

-- lo_server_thread_start, where pthread_create returns `result`: the number of the error, whose
-- negative is returned, or 0.
unfoldable pub lo_server_thread_start : ℕ → ServerThread → ℕ × ServerThread
lo_server_thread_start result st = if st.active then (0, st) else elim result [
  | zero ↦ (0, record (forget_thread st) { active = true; done = false; thread = testing })
  | suc n ↦ (suc n, record (forget_thread st) { active = true; done = false })
]

-- lo_server_thread_stop up to pthread_join.
unfoldable pub lo_server_thread_stop : ServerThread → ServerThread
lo_server_thread_stop st =
    if st.active
    then record st { active = false; caller = elim st.thread [ absent ↦ undefined | _ ↦ joining ] }
    else st

-- The rest of lo_server_thread_stop, where pthread_join returns `result`: 0, or the number of the
-- error, whose negative is returned.
unfoldable pub stop_returns : ℕ → ServerThread → ℕ × ServerThread
stop_returns zero st = (0, record st { caller = idle })
stop_returns (suc n) st = (suc n, record st { caller = idle; unjoined = st.unjoined + 1 })

-- thread_func from the test of `active`: lo_server_recv_noblock is called, or the thread ends.
unfoldable pub thread_func : ServerThread → ServerThread
thread_func st =
    if st.active
    then record st { thread = receiving; receives = st.receives + 1 }
    else record st { thread = ended; done = true }

unfoldable pub left_func : ServerThread → ServerThread
left_func st =
    if st.active
    then record st {
      left_testing = st.left_testing - 1;
      left_receiving = st.left_receiving + 1;
      receives = st.receives + 1;
    }
    else record st { left_testing = st.left_testing - 1; done = true }

-- The caller, which may be a handler that a thread calls, starts and stops the thread; pthread_join
-- returns 0 when the thread has ended, and an error at any time; and each thread goes its way, where
-- lo_server_recv_noblock takes as long as it takes.
pub data Step (st : ServerThread) (st' : ServerThread) : Type 0 where
  start : (result : ℕ) → st.caller ≡ idle → st' ≡ (lo_server_thread_start result st).1 → Step st st'
  stop : st.caller ≡ idle → st' ≡ lo_server_thread_stop st → Step st st'
  joined : st.caller ≡ joining → st.thread ≡ ended → st' ≡ (stop_returns 0 st).1 → Step st st'
  not_joined : (e : ℕ) → st.caller ≡ joining → st' ≡ (stop_returns (suc e) st).1 → Step st st'
  test : st.thread ≡ testing → st' ≡ thread_func st → Step st st'
  received : st.thread ≡ receiving → st' ≡ record st { thread = testing } → Step st st'
  left_test : 0 < st.left_testing → st' ≡ left_func st → Step st st'
  left_received :
      0 < st.left_receiving
      → st'
        ≡ record st { left_testing = st.left_testing + 1; left_receiving = st.left_receiving - 1 }
      → Step st st'

pub data Reaches : ServerThread → ServerThread → Type 0 where
  here : (st : ServerThread) → Reaches st st
  next : {a b c : ServerThread} → Reaches a b → Step b c → Reaches a c

pub Reaches-append : {a b c : ServerThread} → Reaches a b → Reaches b c → Reaches a c
Reaches-append r (here st) = r
Reaches-append r (next s step) = next (Reaches-append r s) step

-- A property of states that every step keeps.
abbrev pub Keeps : (ServerThread → Type 0) → Type 0
Keeps P = (st st' : ServerThread) → Step st st' → P st → P st'

pub Reaches-keeps :
    (P : ServerThread → Type 0) → Keeps P → {a b : ServerThread} → Reaches a b → P a → P b
Reaches-keeps P keeps (here st) h = h
Reaches-keeps P keeps (next {b = b} reached step) h =
    keeps b _ step (Reaches-keeps P keeps reached h)

-- How many threads have not ended.
unfoldable pub running : ServerThread → ℕ
running st =
    st.left_testing
    + st.left_receiving
    + elim st.thread [ absent ↦ 0 | testing ↦ 1 | receiving ↦ 1 | ended ↦ 0 ]
