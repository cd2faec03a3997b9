-- ===== src/Examples/Threads.antt =====
-- The theorems on src/server_thread.c at concrete inputs.
use liblo.Base.{◌≡◌, ◌≤◌, ◌⊎◌, refl, true}
use liblo.Server.Thread.{
  joining, ServerThread, lo_server_thread_new, lo_server_thread_start, lo_server_thread_stop,
  thread_func, forget_thread, Step, start, stop, test, Reaches, here, next, running,
}
use liblo.Server.Joins.{
  Nearer, Returned, Stuck, Reaches-one_thread, lo_server_thread_stop_returns,
  lo_server_thread_start_failed, Reaches-many_threads,
}

-- The thread has been started and receives, and the caller waits for its end.
abbrev started : ServerThread
started = (lo_server_thread_start 0 lo_server_thread_new).1

abbrev busy : ServerThread
busy = thread_func started

abbrev stopping : ServerThread
stopping = lo_server_thread_stop busy

stopping-reached : Reaches lo_server_thread_new stopping
unfolding lo_server_thread_new lo_server_thread_start thread_func forget_thread
stopping-reached =
    next (next (next (here lo_server_thread_new) (start 0 refl refl)) (test refl refl))
      (stop refl refl)

Reaches-one_thread_example :
    (running stopping ≤ 1)
    × ((stopping.active ≡ true) ⊎ ((stopping.caller ≡ joining) ⊎ (running stopping ≡ 0)))
unfolding lo_server_thread_new lo_server_thread_start lo_server_thread_stop thread_func
    forget_thread
Reaches-one_thread_example = Reaches-one_thread stopping stopping-reached refl

lo_server_thread_stop_returns_example :
    ((st : ServerThread) → Step stopping st → Nearer stopping st)
    × ((st : ServerThread) × Reaches stopping st × Returned st)
unfolding lo_server_thread_new lo_server_thread_start lo_server_thread_stop thread_func
    forget_thread
lo_server_thread_stop_returns_example =
    lo_server_thread_stop_returns stopping stopping-reached refl refl

-- pthread_create fails twice.
abbrev failed : ServerThread
failed = (lo_server_thread_start 11 lo_server_thread_new).1

abbrev failed_twice : ServerThread
failed_twice = (lo_server_thread_start 11 failed).1

lo_server_thread_start_failed_example : Stuck 0 failed_twice
unfolding lo_server_thread_new lo_server_thread_start forget_thread
lo_server_thread_start_failed_example =
    lo_server_thread_start_failed lo_server_thread_new failed_twice 10 (here lo_server_thread_new)
      refl refl refl (next (here failed) (start 11 refl refl))

Reaches-many_threads_example :
    (st : ServerThread) × Reaches lo_server_thread_new st × (running st ≡ 3) × (st.active ≡ true)
Reaches-many_threads_example = Reaches-many_threads 2
