-- ===== src/Stream/Receive.antt =====
-- lo_server_recv_raw_stream_socket of src/server.c: one call of it, over what recv returns. The
-- memory of a context is a list, of which `buffer_size` bytes are allocated.
use liblo.Base.{
  ℕ, zero, suc, ◌+◌, ◌*◌, ◌/◌, ◌-◌, Bool, true, false, not, ◌&&◌, Option, none, some, List, [], ◌∷◌,
  ◌++◌, Bytes, length, take, drop, ltb, ◌==◌, if◌then◌else◌, blit,
}
use liblo.Osc.{store32}
use liblo.Stream.Slip.{SlipState, plain, Decoded, decoded, slip_decode, detect_slip}
use liblo.Stream.Buffer.{SocketContext, lo_server_buffer_copy_for_dispatch}

-- `is_slip`: -1, 1 or 0.
pub data Framing : Type 0 where
  unknown slip prefixed : Framing

-- struct socket_context, of which `sc` has the bytes received and the offset of the message.
pub record Context : Type 0 where
  pub sc : SocketContext
  pub buffer_size : ℕ
  pub is_slip : Framing
  pub slip_state : SlipState

unfoldable pub init_context : Context
init_context = record {
  sc = record { buffer = []; buffer_msg_offset = 0 };
  buffer_size = 0;
  is_slip = unknown;
  slip_state = plain;
}

-- After the memory is cleared, `is_slip` is 0.
unfoldable pub cleanup_context : Context
cleanup_context = record init_context { is_slip = prefixed }

abbrev pub lo_max_msg_size : ℕ
lo_max_msg_size = 32768

-- The loop that doubles the size; `none` if the fuel ends. A difference below 0 is below a half as
-- well.
unfoldable pub read_loop : ℕ → ℕ → ℕ → ℕ → Option ℕ
read_loop zero left size offset = none
read_loop (suc fuel) left size offset =
    let doubled = if ltb lo_max_msg_size (size * 2) then lo_max_msg_size else size * 2 in
    let rest = read_loop fuel (doubled - offset) doubled offset in
    if ltb left (size / 2) then rest else some size

-- The size for which memory is asked, with `offset` bytes in the buffer.
unfoldable pub read_size : ℕ → ℕ → ℕ → Option ℕ
read_size fuel buffer_size offset =
    read_loop fuel (buffer_size - offset) (if ltb buffer_size 64 then 64 else buffer_size) offset

-- What recv returns: data, of which it takes no more than it is asked for, or no data: EAGAIN, or
-- that the connection is closed or has failed, which leaves another errno than EAGAIN.
pub data Received : Type 0 where
  arrived : Bytes → Received
  would_block closed : Received

-- How a call ends: what is handed out, whether there may be more, the context, and the bytes that
-- recv delivered in the call; with the socket removed; without memory; never, in the loop above;
-- or with an access outside the memory.
pub data Outcome : Type 0 where
  returned : Option Bytes → Bool → Context → Bytes → Outcome
  removed no_memory endless fault : Outcome

abbrev pub header : Bytes
header = 0 ∷ 0 ∷ 0 ∷ 0 ∷ []

-- The context with the decoded bytes `out` behind what it holds, and a message of it closed: its
-- length goes before it, and room for the next length behind it.
unfoldable pub close_message : SocketContext → Bytes → SocketContext
close_message sc out =
    let filled = sc.buffer ++ out in
    record {
      buffer =
          blit sc.buffer_msg_offset filled (store32 true (length filled - sc.buffer_msg_offset - 4))
          ++ header;
      buffer_msg_offset = length filled;
    }

-- The loop over the packets of the SLIP data `stack`: the context, and how many bytes of the data
-- are left; `none` for an access outside the memory. Where the buffer has to grow, the decoder
-- keeps its pointer into the memory from before.
unfoldable pub slip_packets : ℕ → Context → Bytes → Option (Context × ℕ)
slip_packets zero c stack = none
slip_packets (suc fuel) c stack = elim (slip_decode [] stack (length stack) c.slip_state) [
  | Decoded.fault ↦ none
  | decoded true out state read ↦
      if ltb c.buffer_size (length (c.sc.buffer ++ out))
      then none
      else some (
        record c { sc = record (c.sc) { buffer = c.sc.buffer ++ out }; slip_state = state },
        length stack,
      )
  | decoded false out state read ↦
      let sc = close_message c.sc out in
      let left = length stack - read in
      let rest = slip_packets fuel (record c { sc = sc; slip_state = state }) (drop read stack) in
      if ltb c.buffer_size (length sc.buffer)
      then none
      else if ltb (c.buffer_size - length sc.buffer) (left + 4)
      then none
      else rest
]

unfoldable pub decode_slip : Context → Bytes → Option (Context × ℕ)
decode_slip c stack = slip_packets (suc (length stack)) c stack

-- recv has written `b` behind what the buffer holds; `none` for a write outside its memory.
unfoldable pub store_behind : Context → Bytes → Option Context
store_behind c b =
    let all = c.sc.buffer ++ b in
    if ltb c.buffer_size (length all)
    then none
    else some (record c { sc = record (c.sc) { buffer = all } })

-- The framing is not known: the first four bytes decide.
unfoldable pub detect_framing : (ℕ → Bool) → Context → Bytes → Option (Context × ℕ)
detect_framing isprint c b =
    let all = c.sc.buffer ++ b in
    let first = record c {
      sc = record (c.sc) { buffer = c.sc.buffer ++ header };
      is_slip = slip;
      slip_state = plain;
    } in
    elim (store_behind c b) [
      | none ↦ none
      | some stored ↦
          if ltb (length all) 4
          then some (stored, length b)
          else if detect_slip isprint (drop c.sc.buffer_msg_offset all)
          then decode_slip first b
          else some (record stored { is_slip = prefixed; slip_state = plain }, length b)
    ]

-- What becomes of the bytes `b` that recv delivered into a place for `left` bytes. In SLIP mode the
-- place is on the stack, and is four bytes short.
unfoldable pub take_in : (ℕ → Bool) → Context → ℕ → Bytes → Option (Context × ℕ)
take_in isprint c left b = elim c.is_slip [
  | prefixed ↦ elim (store_behind c b) [ none ↦ none | some c' ↦ some (c', length b) ]
  | slip ↦ if ltb (left - 4) (length b) then none else decode_slip c b
  | unknown ↦ detect_framing isprint c b
]

-- The end of a round, with the answers of the calls of recv that follow; `again` is the next one.
unfoldable pub hand_out :
    Bool → ℕ → Bytes → (Context → Bytes → Outcome) → Option (Context × ℕ) → Outcome
hand_out big left got again none = fault
hand_out big left got again (some (c, n)) =
    let next = again c got in
    elim (lo_server_buffer_copy_for_dispatch big c.sc) [
      | some (d, sc) ↦ returned (some d) (n == left) (record c { sc = sc }) got
      | none ↦ if n == left then next else returned none false c got
    ]

-- What happens with one answer of recv.
unfoldable pub receive :
    Bool → (ℕ → Bool) → Received → ℕ → Context → Bytes → (Context → Bytes → Outcome) → Outcome
receive big isprint (arrived []) left c got again = removed
receive big isprint (arrived (x ∷ b)) left c got again =
    let taken = take left (x ∷ b) in
    hand_out big left (got ++ taken) again (take_in isprint c left taken)
receive big isprint would_block left c got again = returned none false c got
receive big isprint closed left c got again = removed

-- A message that waits in the buffer is handed out, and nothing else is done.
unfoldable pub or_copied : Bool → Context → Bytes → Outcome → Outcome
or_copied big c got next = elim (lo_server_buffer_copy_for_dispatch big c.sc) [
  | some (d, sc) ↦ returned (some d) true (record c { sc = sc }) got
  | none ↦ next
]

-- Room for more bytes; `next` is given its size. Fuel is for the loop that doubles the size.
unfoldable pub with_room : (ℕ → Bool) → ℕ → Context → (Context → ℕ → Outcome) → Outcome
with_room realloc fuel c next = elim (read_size fuel c.buffer_size (length c.sc.buffer)) [
  | none ↦ endless
  | some size ↦
      let all = if ltb c.buffer_size size then size else c.buffer_size in
      if ltb c.buffer_size size && not (realloc size)
      then no_memory
      else next (record c { buffer_size = all }) (all - length c.sc.buffer)
]

-- The rounds of a call, over the answers of recv, `got` in hand; where no answer is left, recv
-- would block, behind the growth of the memory as before any other call of it.
unfoldable pub recv_rounds :
    Bool → (ℕ → Bool) → (ℕ → Bool) → ℕ → List Received → Context → Bytes → Outcome
recv_rounds big isprint realloc fuel [] c got =
    or_copied big c got (with_room realloc fuel c (λ c' left. returned none false c' got))
recv_rounds big isprint realloc fuel (r ∷ answers) c got =
    let again = recv_rounds big isprint realloc fuel answers in
    or_copied big c got
      (with_room realloc fuel c (λ c' left. receive big isprint r left c' got again))

-- A call, with fuel for eleven rounds of the loop that doubles the size.
unfoldable pub lo_server_recv_raw_stream_socket :
    Bool → (ℕ → Bool) → (ℕ → Bool) → List Received → Context → Outcome
lo_server_recv_raw_stream_socket big isprint realloc answers c =
    recv_rounds big isprint realloc 11 answers c []
