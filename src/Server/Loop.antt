-- ===== src/Server/Loop.antt =====
-- What a server keeps while it waits and receives (src/server.c), and what the system answers to
-- its calls: lo_server_next_event_delay, lo_server_events_pending, lo_server_enable_queue and
-- lo_server_recv_raw, and the steps that the functions of Loop/ share. It is the code for poll.
use liblo.Base.{
  ℕ, suc, ◌+◌, ◌*◌, ◌-◌, ◌^◌, Bool, true, false, not, ◌&&◌, Option, none, some, List, [], ◌∷◌, map,
  Bytes, length, take, ltb, ◌==◌, if◌then◌else◌, ok, err, fault,
}
use liblo.Timetag.{Timetag, units}
use liblo.Address.State.{Address, Protocol}
use liblo.Stream.Buffer.{lo_server_buffer_copy_for_dispatch}
use liblo.Stream.Receive.{Context, Received, lo_max_msg_size, init_context}
use liblo.Server.Sockets.{Sockets, lo_server_add_socket}
use liblo.Server.Queue.{Queued, queue_data, dispatch_queued}
use liblo.Server.Dispatch.{
  Event, method_called, queued, thrown, Dispatcher, Outcome, lo_server_dispatch_data,
}
pub mod Stream
pub mod Recv
pub mod Due
pub mod Keeps
pub mod Accepts
pub mod Rounds
mod Arrivals
pub mod Answers
pub mod Losses

-- What poll writes for a socket: nothing, POLLERR or POLLHUP and no other bit, or anything else.
pub data Revents : Type 0 where
  quiet failed ready : Revents

-- What the system answers to the call number `n`: the clock; poll, for the socket at an index;
-- the calls of recv that one call of lo_server_recv_raw_stream_socket makes; accept, `none` for
-- -1, with the address of the peer; recvfrom, `none` for an error; and whether realloc succeeds
-- for a size. No answer depends on the time for which poll is asked to wait.
pub record System : Type 0 where
  pub now : ℕ → Timetag
  pub polls : ℕ → ℕ → Revents
  pub recvs : ℕ → List Received
  pub accepts : ℕ → Option ℕ
  pub peers : ℕ → Address
  pub datagrams : ℕ → Option Bytes
  pub allocates : ℕ → ℕ → Bool
  pub isprint : ℕ → Bool

-- `dispatcher` has the handlers and the flag LO_SERVER_ENQUEUE; its time is set for each call.
-- `calls` counts the calls of the system.
pub record Waiter : Type 0 where
  pub protocol : Protocol
  pub dispatcher : Dispatcher
  pub table : Sockets
  pub events : List Queued
  pub calls : ℕ

-- Why there is no result: the fuel ends while the server still waits; the queue is empty where
-- one entry has to be dispatched, for which LO_INT_ERR is thrown; no memory for a buffer; the loop
-- of the buffer size does not end; or an access outside the memory.
pub data Stop : Type 0 where
  waiting empty_queue no_memory endless bad_access : Stop

pub data Ran {ℓ} (A : Type ℓ) : Type ℓ where
  ran : A → Waiter → Ran A
  stopped : Stop → Ran A

-- What lo_server_recv returns, with the events: a number, or -1.
pub data Reply : Type 0 where
  returned : ℕ → List Event → Reply
  refused : List Event → Reply

unfoldable pub tick : Waiter → Waiter
tick w = record w { calls = w.calls + 1 }

-- The delay in units of 2 ^ -32 seconds, from 0 to 100 seconds.
unfoldable pub delay : Timetag → Timetag → ℕ
delay ts now = let d = units ts - units now in if ltb (100 * 2 ^ 32) d then 100 * 2 ^ 32 else d

unfoldable pub lo_server_next_event_delay : System → Waiter → ℕ × Waiter
lo_server_next_event_delay sys w = elim w.events [
  | [] ↦ (100 * 2 ^ 32, w)
  | q ∷ _ ↦ (delay q.ts (sys.now w.calls), tick w)
]

-- `> 0.01`, which no whole number of units equals: a hundredth of a second is 42949672.96 units.
unfoldable pub is_far : ℕ → Bool
is_far d = ltb 42949672 d

unfoldable pub lo_server_events_pending : Waiter → Bool
lo_server_events_pending w = elim w.events [ [] ↦ false | _ ∷ _ ↦ true ]

unfoldable pub called : Queued → Event
called q = method_called q.path q.msg

unfoldable pub dispatch_events : Bool → Waiter → Ran Reply
dispatch_events all w = elim (dispatch_queued w.events all) [
  | none ↦ stopped empty_queue
  | some (now, later) ↦ ran (returned 0 (map called now)) (record w { events = later })
]

-- The old setting is returned.
unfoldable pub lo_server_enable_queue : Waiter → Bool → Bool → Bool × Ran Reply
lo_server_enable_queue w enable dispatch_remaining =
    let w' = record w { dispatcher = record (w.dispatcher) { enqueue = enable } } in
    (
      w.dispatcher.enqueue,
      if not enable && dispatch_remaining && lo_server_events_pending w
          then dispatch_events true w'
          else ran (returned 0 []) w',
    )

-- A datagram; what is longer than the buffer is cut off.
unfoldable pub lo_server_recv_raw : System → Waiter → Option Bytes × Waiter
lo_server_recv_raw sys w = elim (sys.datagrams w.calls) [
  | none ↦ (none, tick w)
  | some [] ↦ (none, tick w)
  | some (x ∷ d) ↦ (some (take lo_max_msg_size (x ∷ d)), tick w)
]

unfoldable pub set_context : Sockets → ℕ → Context → Sockets
set_context s i c = record s { contexts = λ j. if j == i then c else s.contexts j }

-- The loop over the sockets before poll: the first message that waits in a buffer, with the
-- descriptor of its socket.
unfoldable pub scan_buffers : Bool → Sockets → ℕ → List ℕ → Option (Bytes × ℕ × Sockets)
scan_buffers big s i [] = none
scan_buffers big s i (fd ∷ fds) = elim (lo_server_buffer_copy_for_dispatch big (s.contexts i).sc) [
  | some (d, sc) ↦ some (d, fd, set_context s i (record (s.contexts i) { sc = sc }))
  | none ↦ scan_buffers big s (suc i) fds
]

-- A new connection: accept, lo_server_add_socket and init_context. A descriptor of -1 is used as
-- an index of the sources, and an index of -1 for the contexts.
unfoldable pub accept_connection : System → Waiter → Option Waiter
accept_connection sys w = elim (sys.accepts w.calls) [
  | none ↦ none
  | some sock ↦
      elim (lo_server_add_socket (sys.allocates w.calls 0) w.table sock none (sys.peers w.calls)) [
        | none ↦ none
        | some (i, table) ↦ some (tick (record w { table = set_context table i init_context }))
      ]
]

-- The calls of queue_data during dispatch_data.
unfoldable pub queue_events : Option ℕ → List Event → List Queued → List Queued
queue_events sock [] qs = qs
queue_events sock (queued ts path msg ∷ es) qs =
    queue_events sock es (queue_data qs (record { ts = ts; path = path; msg = msg; sock = sock }))
queue_events sock (_ ∷ es) qs = queue_events sock es qs

-- The returned number, and the entries for the queue.
unfoldable pub after_dispatch : Bytes → Option ℕ → Waiter → Outcome → Ran Reply
after_dispatch d sock w (es, ok _) =
    ran (returned (length d) es) (tick (record w { events = queue_events sock es w.events }))
after_dispatch d sock w (es, err _) =
    ran (refused es) (tick (record w { events = queue_events sock es w.events }))
after_dispatch d sock w (es, fault) = stopped bad_access

-- From `got_data`: the data are dispatched.
unfoldable pub got_data : System → Bytes → Option ℕ → Waiter → Ran Reply
got_data sys d sock w =
    after_dispatch d sock w
      (lo_server_dispatch_data (record (w.dispatcher) { now = sys.now w.calls }) d)
