-- ===== src/Server/Loop/Answers.antt =====
-- From the bytes of a message to the call of its methods, through lo_server_recv of src/server.c.
use liblo.Base.{
  ℕ, suc, ◌+◌, ◌^◌, ◌-◌, ◌%◌, ◌≤◌, ◌<◌, ◌≡◌, ap, ◌∙◌, subst, sym, true, false, Bool, none, some,
  List, [], ◌∷◌, ◌++◌, Bytes, length, codes, str_eq, arith, length-append, append-nil,
}
use liblo.Osc.{store32}
use liblo.Osc.Padding.{IsText, padded, length-padded}
use liblo.Argument.{Arg}
use liblo.Message.{Message, lo_message_incref, lo_message_serialise}
use liblo.Message.Values.{Holds}
use liblo.Message.Wire.{AllArgs, lo_message_serialise-none}
use liblo.Message.RoundTrip.{AllAllocate, received}
use liblo.Address.State.{udp, tcp}
use liblo.Stream.Buffer.{SocketContext, lo_server_buffer_copy_for_dispatch, buffer_copy_whole}
use liblo.Stream.Receive.{lo_max_msg_size}
use liblo.Server.Dispatch.{method_called}
use liblo.Server.Parts.{message_start}
use liblo.Server.Loop.{ready, System, Waiter, ran, returned, tick, set_context, scan_buffers}
use liblo.Server.Loop.Recv.{first_reported, buffered, lo_server_recv}
use liblo.Server.Loop.Arrivals.{
  scan_skip, scan_found, recv_idle, recv_buffered, recv_datagram, got_data-serialise,
}

-- A message has a path, and so some bytes.
some_bytes :
    (big : Bool) (m : Message) (path : Bytes) (args : List Arg)
    → Holds big m args
    → AllArgs args
    → IsText path
    → 0 < length (lo_message_serialise big m path none)
some_bytes big m path args h valid text =
    let wire = lo_message_serialise-none big m path args h valid text in
    let (q, shape, _) = message_start big path args [] in
    let size : length (lo_message_serialise big m path none) ≡ length (padded path) + length q =
      ap length (wire ∙ sym (append-nil _) ∙ shape) ∙ length-append (padded path) q in
    omega (arith, size, length-padded path)

buffered_tcp :
    (w : Waiter) (front back : List ℕ) (fd : ℕ) (d : Bytes) (sc : SocketContext)
    → let big = w.dispatcher.platform.big in
      let n = length front in
      w.protocol ≡ tcp
      → w.table.sockets ≡ front ++ fd ∷ back
      → ((j : ℕ) → j < n → lo_server_buffer_copy_for_dispatch big (w.table.contexts j).sc ≡ none)
      → lo_server_buffer_copy_for_dispatch big (w.table.contexts n).sc ≡ some (d, sc)
      → buffered w ≡ some (d, fd, set_context w.table n (record (w.table.contexts n) { sc = sc }))
unfolding buffered
buffered_tcp w front back fd d sc proto fds none_whole found =
    let big = w.dispatcher.platform.big in
    ap (λ p. elim p [ tcp ↦ scan_buffers big w.table 0 w.table.sockets | _ ↦ none ]) proto
    ∙ ap (scan_buffers big w.table 0) fds
    ∙ scan_skip big w.table 0 front (fd ∷ back) (λ j lt.
      subst (λ i. lo_server_buffer_copy_for_dispatch big (w.table.contexts i).sc ≡ none)
        (omega arith) (none_whole j lt))
    ∙ ap (λ i. scan_buffers big w.table i (fd ∷ back)) (omega arith)
    ∙ scan_found big w.table (length front) fd back d sc found

module _ (sys : System) (w : Waiter) (m : Message) (path : Bytes) (args : List Arg)
    (h : Holds w.dispatcher.platform.big m args) (valid : AllArgs args) (text : IsText path)
    (alloc : AllAllocate w.dispatcher.platform) (name : str_eq path (codes "#bundle") ≡ false)
    (empty : w.events ≡ []) where
  -- A stream without SLIP, on which the sockets before the one in the middle have no whole message
  -- in their buffers, and that one has received a message from lo_message_serialise behind its
  -- length, and other data behind it: with an empty queue, lo_server_recv hands the message to the
  -- methods, with its path and the arguments, returns its length, and leaves the other data in the
  -- buffer. The path is not "#bundle".
  pub lo_server_recv-framed :
      (rounds fuel : ℕ) (front back : List ℕ) (fd : ℕ) (rest : Bytes) (o : ℕ)
      → let p = w.dispatcher.platform in
        let n = length front in
        let d = lo_message_serialise p.big m path none in
        w.protocol ≡ tcp
        → w.table.sockets ≡ front ++ fd ∷ back
        → ((j : ℕ)
            → j < n
            → lo_server_buffer_copy_for_dispatch p.big (w.table.contexts j).sc ≡ none)
        → (w.table.contexts n).sc
          ≡ record { buffer = store32 true (length d) ++ (d ++ rest); buffer_msg_offset = o }
        → length d < 2 ^ 32
        → let left : SocketContext = record {
          buffer = rest;
          buffer_msg_offset = (o + 2 ^ 32 - (length d + 4)) % 2 ^ 32;
        } in
          lo_server_recv sys rounds (suc fuel) w
          ≡ ran
              (returned (length d) (method_called path (lo_message_incref (received p args)) ∷ []))
              (record w {
                table = set_context w.table n (record (w.table.contexts n) { sc = left });
                calls = w.calls + 1;
              })
  unfolding tick
  lo_server_recv-framed rounds fuel front back fd rest o proto fds none_whole has short =
      let big = w.dispatcher.platform.big in
      let d = lo_message_serialise big m path none in
      let found =
        ap (lo_server_buffer_copy_for_dispatch big) has
        ∙ buffer_copy_whole big d rest o (some_bytes big m path args h valid text) short in
      recv_idle sys rounds (suc fuel) w empty
      ∙ recv_buffered sys rounds fuel w d fd _
          (buffered_tcp w front back fd d _ proto fds none_whole found)
      ∙ got_data-serialise sys (record w { table = _ }) (some fd) m path args h valid text alloc
          name

  -- The same for a datagram, where poll reports data before a failure, and recvfrom has the message
  -- and it is no longer than the buffer.
  pub lo_server_recv-datagram :
      (rounds fuel : ℕ)
      → let p = w.dispatcher.platform in
        let d = lo_message_serialise p.big m path none in
        w.protocol ≡ udp
        → first_reported (sys.polls w.calls) 0 (length w.table.sockets) ≡ ready
        → sys.datagrams (w.calls + 1) ≡ some d
        → length d ≤ lo_max_msg_size
        → lo_server_recv sys rounds (suc fuel) w
          ≡ ran
              (returned (length d) (method_called path (lo_message_incref (received p args)) ∷ []))
              (record w { calls = w.calls + 1 + 1 + 1 })
  unfolding tick
  lo_server_recv-datagram rounds fuel proto reported arrived short =
      let big = w.dispatcher.platform.big in
      recv_idle sys rounds (suc fuel) w empty
      ∙ recv_datagram sys rounds fuel w _ proto reported arrived
          (some_bytes big m path args h valid text) short
      ∙ got_data-serialise sys (tick (tick w)) none m path args h valid text alloc name
