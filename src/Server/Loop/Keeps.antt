-- ===== src/Server/Loop/Keeps.antt =====
-- What lo_server_recv of src/server.c leaves as it was: the socket that listens, and the order of
-- the queue.
use liblo.Base.{
  ℕ, suc, ◌≡◌, ◌≢◌, refl, ap, subst, sym, ◌∙◌, Bool, false, Option, none, some, List, [], ◌∷◌, ◌++◌,
  Bytes, get_elem?, ◌||◌, arith, inl, inr, Bool-cases, Option-cases, ok, err, fault,
}
use mathlib.Core.Option.{some-injective}
use liblo.Timetag.{Timetag, is_near}
use liblo.Address.State.{Address}
use liblo.Server.Sockets.{
  Sockets, grow_sources, grow_sockets, lo_server_add_socket, remove_at, del_index,
  lo_server_del_socket,
}
use liblo.Server.Queue.{Queued, dispatch_rest, dispatch_queued, IsOrdered, queue_data-IsOrdered}
use liblo.Server.Dispatch
use liblo.Server.Dispatch.{Event, method_called, queued, thrown, bundle_started, bundle_ended}
use liblo.Server.Loop.{
  Revents, quiet, failed, ready, System, Waiter, empty_queue, Ran, ran, stopped, tick, is_far,
  lo_server_next_event_delay, dispatch_events, set_context, scan_buffers, accept_connection,
  queue_events, after_dispatch, got_data,
}

-- The first socket is `fd`, and the queue is in the order of time.
abbrev pub Keeps : ℕ → Waiter → Type 0
Keeps fd w = (get_elem? w.table.sockets 0 ≡ some fd) × IsOrdered w.events

-- A call that ends leaves it so, and no call dispatches from an empty queue.
abbrev pub Kept {ℓ} : {A : Type ℓ} → ℕ → Ran A → Type 0
Kept fd (ran a w) = Keeps fd w
Kept fd (stopped e) = e ≢ empty_queue

queue_events-IsOrdered :
    (sock : Option ℕ) (es : List Event) (qs : List Queued)
    → IsOrdered qs
    → IsOrdered (queue_events sock es qs)
unfolding queue_events
queue_events-IsOrdered sock [] qs o = o
queue_events-IsOrdered sock (queued ts path msg ∷ es) qs o =
    queue_events-IsOrdered sock es _ (queue_data-IsOrdered qs _ o)
queue_events-IsOrdered sock (method_called path msg ∷ es) qs o = queue_events-IsOrdered sock es qs o
queue_events-IsOrdered sock (thrown e ∷ es) qs o = queue_events-IsOrdered sock es qs o
queue_events-IsOrdered sock (bundle_started ts ∷ es) qs o = queue_events-IsOrdered sock es qs o
queue_events-IsOrdered sock (bundle_ended ∷ es) qs o = queue_events-IsOrdered sock es qs o

dispatch_rest-IsOrdered :
    (t : Timetag) (all : Bool) (qs : List Queued)
    → IsOrdered qs
    → IsOrdered (dispatch_rest t all qs).1
unfolding dispatch_rest
dispatch_rest-IsOrdered t all [] o = tt
dispatch_rest-IsOrdered t all (q ∷ qs) o = elim (Bool-cases (is_near q.ts t || all)) [
  | inl e ↦ rw e (dispatch_rest-IsOrdered t all qs o.1)
  | inr e ↦ rw e o
]

pub dispatch_events-Kept :
    (fd : ℕ) (w : Waiter) → w.events ≢ [] → Keeps fd w → Kept fd (dispatch_events false w)
unfolding dispatch_events dispatch_queued
dispatch_events-Kept fd w some_event (first, order) = go w.events refl
  where
    go : (qs : List Queued) → w.events ≡ qs → Kept fd (dispatch_events false w)
    go [] e = absurd (some_event e)
    go (q ∷ qs) e =
        rw (e, dispatch_queued)
          (
            first,
            dispatch_rest-IsOrdered q.ts false qs
                (let o : IsOrdered (q ∷ qs) = subst IsOrdered e order in o.1),
          )

-- A delay that is not far belongs to an entry.
pub delay-some :
    (sys : System) (w : Waiter)
    → is_far (lo_server_next_event_delay sys w).0 ≡ false
    → (lo_server_next_event_delay sys w).1.events ≢ []
unfolding lo_server_next_event_delay is_far tick
delay-some sys w near empty = ground arith

after_dispatch-Kept :
    (fd : ℕ) (d : Bytes) (sock : Option ℕ) (w : Waiter) (o : Dispatch.Outcome)
    → Keeps fd w
    → Kept fd (after_dispatch d sock w o)
unfolding after_dispatch tick
after_dispatch-Kept fd d sock w (es, ok n) (first, order) =
    (first, queue_events-IsOrdered sock es w.events order)
after_dispatch-Kept fd d sock w (es, err e) (first, order) =
    (first, queue_events-IsOrdered sock es w.events order)
after_dispatch-Kept fd d sock w (es, fault) keeps = λ h. cc

pub got_data-Kept :
    (sys : System) (fd : ℕ) (d : Bytes) (sock : Option ℕ) (w : Waiter)
    → Keeps fd w
    → Kept fd (got_data sys d sock w)
unfolding got_data
got_data-Kept sys fd d sock w keeps = after_dispatch-Kept fd d sock w _ keeps

pub scan_buffers-sockets :
    (big : Bool) (s : Sockets) (i : ℕ) (fds : List ℕ) (d : Bytes) (sock : ℕ) (t : Sockets)
    → scan_buffers big s i fds ≡ some (d, sock, t)
    → t.sockets ≡ s.sockets
unfolding scan_buffers set_context
scan_buffers-sockets big s i [] d sock t e = cc
scan_buffers-sockets big s i (fd ∷ fds) d sock t e =
    ground (arith, scan_buffers-sockets big s (suc i) fds d sock t)

append-first :
    (xs : List ℕ) (x fd : ℕ) → get_elem? xs 0 ≡ some fd → get_elem? (xs ++ x ∷ []) 0 ≡ some fd
append-first [] x fd e = cc
append-first (y ∷ xs) x fd e = e

grow_sockets-sockets :
    (realloc : Bool) (s t : Sockets) → grow_sockets realloc s ≡ some t → t.sockets ≡ s.sockets
unfolding grow_sockets
grow_sockets-sockets realloc s t e = ground arith

grow_sources-sockets : (s : Sockets) (n : ℕ) → (grow_sources s n).sockets ≡ s.sockets
unfolding grow_sources
grow_sources-sockets s n = ground arith

lo_server_add_socket-sockets :
    (realloc : Bool) (s : Sockets) (socket : ℕ) (a : Option Address) (accepted : Address) (i : ℕ)
    (t : Sockets)
    → lo_server_add_socket realloc s socket a accepted ≡ some (i, t)
    → t.sockets ≡ s.sockets ++ socket ∷ []
unfolding lo_server_add_socket
lo_server_add_socket-sockets realloc s socket a accepted i t e =
    elim (Option-cases (grow_sockets realloc s)) [
      | inl nothing ↦ absurd (cc (rw (nothing, lo_server_add_socket) at e))
      | inr (room, grown) ↦
          let h = rw (grown, lo_server_add_socket) at e in
          let more : Sockets = record room { sockets = room.sockets ++ socket ∷ [] } in
          let t_is : t.sockets ≡ (grow_sources more socket).sockets = sym (ap added h) in
          t_is
          ∙ grow_sources-sockets more socket
          ∙ ap (λ xs. xs ++ socket ∷ []) (grow_sockets-sockets realloc s room grown)
    ]
  where
    added : Option (ℕ × Sockets) → List ℕ
    added none = []
    added (some (i, t)) = t.sockets

pub accept_connection-Keeps :
    (sys : System) (fd : ℕ) (w w' : Waiter)
    → accept_connection sys w ≡ some w'
    → Keeps fd w
    → Keeps fd w'
unfolding accept_connection set_context tick
accept_connection-Keeps sys fd w w' e (first, order) = elim (Option-cases (sys.accepts w.calls)) [
  | inl nothing ↦ absurd (cc (rw (nothing, accept_connection) at e))
  | inr (sock, taken) ↦
      let h = rw (taken, accept_connection) at e in
      elim (Option-cases (added sock)) [
        | inl nothing ↦ absurd (cc (rw (nothing, accept_connection) at h))
        | inr ((i, t), room) ↦
            let same = some-injective _ _ (rw (room, accept_connection) at h) in
            let grown : t.sockets ≡ w.table.sockets ++ sock ∷ [] =
              lo_server_add_socket-sockets _ w.table sock none _ i t room in
            subst (Keeps fd) same (rw grown (append-first w.table.sockets sock fd first), order)
      ]
]
  where
    added : ℕ → Option (ℕ × Sockets)
    added sock =
        lo_server_add_socket (sys.allocates w.calls 0) w.table sock none (sys.peers w.calls)

pub data ReventsCases (r : Revents) : Type 0 where
  is_quiet : r ≡ quiet → ReventsCases r
  is_failed : r ≡ failed → ReventsCases r
  is_ready : r ≡ ready → ReventsCases r

pub Revents-cases : (r : Revents) → ReventsCases r
Revents-cases quiet = is_quiet refl
Revents-cases failed = is_failed refl
Revents-cases ready = is_ready refl

remove_at-first :
    (xs : List ℕ) (i fd : ℕ)
    → get_elem? xs 0 ≡ some fd
    → get_elem? (remove_at xs (suc i)) 0 ≡ some fd
unfolding remove_at
remove_at-first [] i fd e = e
remove_at-first (x ∷ xs) i fd e = e

-- The first socket stays where another one is removed.
pub del_socket-first :
    (s : Sockets) (i fd : ℕ) (socket : Option ℕ)
    → get_elem? s.sockets 0 ≡ some fd
    → get_elem? (lo_server_del_socket s (some (suc i)) socket).sockets 0 ≡ some fd
unfolding lo_server_del_socket del_index
del_socket-first s i fd socket first = elim (Option-cases (get_elem? s.sockets (suc i))) [
  | inl nothing ↦ rw (nothing, del_index) first
  | inr (x, e) ↦ rw (e, del_index) (remove_at-first s.sockets i fd first)
]
