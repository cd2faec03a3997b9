-- ===== src/Stream/Conserve.antt =====
-- Where the bytes of a stream without SLIP go that lo_server_recv_raw_stream_socket (src/server.c)
-- receives.
use liblo.Base.{
  ℕ, zero, suc, ◌+◌, ◌≤◌, ◌≡◌, ◌∙◌, sym, subst, ap, ap₂, Bool, true, not, ◌&&◌, Option, none, some,
  List, [], ◌∷◌, ◌++◌, Bytes, length, take, drop, ltb, ◌==◌, arith, append_assoc, append-nil,
  if◌then◌else◌, take-append-drop, length-take, length-drop, length-append, Option-cases,
  Bool-cases, inl, inr,
}
use liblo.Osc.{store32, be32, load32, lo_otoh32, load32-lo_otoh32}
use liblo.Validate.{AllBytes, store32-be32}
use liblo.Stream.Buffer.{
  SocketContext, lo_server_buffer_contains_msg, lo_server_buffer_copy_for_dispatch,
}
use liblo.Stream.Receive.{
  prefixed, Context, read_size, Received, arrived, would_block, closed, Outcome, returned, fault,
  store_behind, take_in, hand_out, receive, or_copied, with_room, recv_rounds,
  lo_server_recv_raw_stream_socket,
}

-- What is handed out, behind its length.
abbrev pub framed : Option Bytes → Bytes
framed none = []
framed (some d) = store32 true (length d) ++ d

-- What is copied, and what stays.
copy_parts :
    (big : Bool) (sc : SocketContext) (d : Bytes) (rest : SocketContext)
    → lo_server_buffer_copy_for_dispatch big sc ≡ some (d, rest)
    → let n = load32 big (lo_otoh32 big sc.buffer) in
      (n + 4 ≤ length sc.buffer)
      × (d ≡ take n (drop 4 sc.buffer))
      × (rest.buffer ≡ drop (n + 4) sc.buffer)
unfolding lo_server_buffer_copy_for_dispatch lo_server_buffer_contains_msg
copy_parts big sc d rest h = ground arith

parts_conserve :
    (big : Bool) (buffer d rest : Bytes)
    → AllBytes buffer
    → load32 big (lo_otoh32 big buffer) + 4 ≤ length buffer
    → d ≡ take (load32 big (lo_otoh32 big buffer)) (drop 4 buffer)
    → rest ≡ drop (load32 big (lo_otoh32 big buffer) + 4) buffer
    → framed (some d) ++ rest ≡ buffer
parts_conserve big [] d rest bytes room handed left = absurd (omega arith)
parts_conserve big (x ∷ []) d rest bytes room handed left = absurd (omega arith)
parts_conserve big (x ∷ y ∷ []) d rest bytes room handed left = absurd (omega arith)
parts_conserve big (x ∷ y ∷ z ∷ []) d rest bytes room handed left = absurd (omega arith)
parts_conserve big (x ∷ y ∷ z ∷ w ∷ m) d rest (hx, (hy, (hz, (hw, hm)))) room handed left =
    let n = load32 big (lo_otoh32 big (x ∷ y ∷ z ∷ w ∷ m)) in
    let size : n ≡ be32 x y z w = load32-lo_otoh32 big x y z w m in
    let four : n + 4 ≡ suc (suc (suc (suc n))) = omega arith in
    let whole : length d ≡ n = ap length handed ∙ length-take n m (omega arith) in
    let word : store32 true (length d) ≡ x ∷ y ∷ z ∷ w ∷ [] =
      ap (store32 true) (whole ∙ size) ∙ store32-be32 x y z w hx hy hz hw in
    let kept : rest ≡ drop n m = left ∙ ap (λ k. drop k (x ∷ y ∷ z ∷ w ∷ m)) four in
    append_assoc (store32 true (length d)) d rest
    ∙ ap₂ (λ a b. a ++ b) word (ap₂ (λ a b. a ++ b) handed kept)
    ∙ ap (λ t. x ∷ y ∷ z ∷ w ∷ t) (take-append-drop n m)

-- A message that is copied, behind its length, and what stays are what was there.
copy_conserves :
    (big : Bool) (sc : SocketContext) (d : Bytes) (rest : SocketContext)
    → AllBytes sc.buffer
    → lo_server_buffer_copy_for_dispatch big sc ≡ some (d, rest)
    → framed (some d) ++ rest.buffer ≡ sc.buffer
copy_conserves big sc d rest bytes h =
    let (room, handed, left) = copy_parts big sc d rest h in
    parts_conserve big sc.buffer d rest.buffer bytes room handed left

-- What stays is no more than there was.
shorter :
    (big : Bool) (sc : SocketContext) (d : Bytes) (rest : SocketContext)
    → lo_server_buffer_copy_for_dispatch big sc ≡ some (d, rest)
    → length rest.buffer ≤ length sc.buffer
shorter big sc d rest h =
    let (room, handed, left) = copy_parts big sc d rest h in
    omega (arith, ap length left, length-drop (load32 big (lo_otoh32 big sc.buffer) + 4) sc.buffer)

-- A call that returns hands out and keeps, in this order, the bytes it had and those it received.
abbrev pub Conserves : Bytes → Outcome → Type 0
Conserves had (returned handed more c got) =
    (framed handed ++ c.sc.buffer ≡ had ++ got)
    × (c.is_slip ≡ prefixed)
    × (length c.sc.buffer ≤ c.buffer_size)
Conserves had fault = ⊥
Conserves had _ = Unit

-- What recv delivers are bytes.
abbrev pub AllDeliver : List Received → Type 0
AllDeliver [] = Unit
AllDeliver (arrived b ∷ answers) = AllBytes b × AllDeliver answers
AllDeliver (_ ∷ answers) = AllDeliver answers

AllBytes-append : (a b : Bytes) → AllBytes a → AllBytes b → AllBytes (a ++ b)
AllBytes-append [] b ha hb = hb
AllBytes-append (x ∷ a) b ha hb = (ha.0, AllBytes-append a b ha.1 hb)

AllBytes-take : (n : ℕ) (m : Bytes) → AllBytes m → AllBytes (take n m)
AllBytes-take zero m h = tt
AllBytes-take (suc n) [] h = tt
AllBytes-take (suc n) (x ∷ m) h = (h.0, AllBytes-take n m h.1)

-- A context that is not in SLIP mode, which holds `had` and then what it has received.
abbrev Holding : Bytes → Context → Bytes → Type 0
Holding had c got =
    (c.is_slip ≡ prefixed)
    × AllBytes c.sc.buffer
    × (c.sc.buffer ≡ had ++ got)
    × (length c.sc.buffer ≤ c.buffer_size)

or_copied-Conserves :
    (big : Bool) (c : Context) (had got : Bytes) (next : Outcome)
    → Holding had c got
    → Conserves had next
    → Conserves had (or_copied big c got next)
unfolding or_copied
or_copied-Conserves big c had got next holds rest =
    elim (Option-cases (lo_server_buffer_copy_for_dispatch big c.sc)) [
      | inl e ↦ rw (e, or_copied) rest
      | inr ((d, sc), e) ↦
          rw (e, or_copied)
            (
              copy_conserves big c.sc d sc holds.1 e ∙ holds.2,
              holds.0,
              omega (arith, shorter big c.sc d sc e, holds.3),
            )
    ]

hand_out-Conserves :
    (big : Bool) (left : ℕ) (had got : Bytes) (again : Context → Bytes → Outcome) (c : Context)
    (n : ℕ)
    → Holding had c got
    → Conserves had (again c got)
    → Conserves had (hand_out big left got again (some (c, n)))
unfolding hand_out
hand_out-Conserves big left had got again c n holds next =
    elim (Option-cases (lo_server_buffer_copy_for_dispatch big c.sc)) [
      | inl e ↦
          rw (e, hand_out)
            (elim (Bool-cases (n == left)) [
              | inl full ↦ rw full next
              | inr short ↦ rw short (holds.2, holds.0, holds.3)
            ])
      | inr ((d, sc), e) ↦
          rw (e, hand_out)
            (
              copy_conserves big c.sc d sc holds.1 e ∙ holds.2,
              holds.0,
              omega (arith, shorter big c.sc d sc e, holds.3),
            )
    ]

take_in_prefixed :
    (isprint : ℕ → Bool) (c : Context) (left : ℕ) (b : Bytes)
    → c.is_slip ≡ prefixed
    → length (c.sc.buffer ++ b) ≤ c.buffer_size
    → take_in isprint c left b
      ≡ some (record c { sc = record (c.sc) { buffer = c.sc.buffer ++ b } }, length b)
unfolding take_in store_behind
take_in_prefixed isprint c left b is fits = ground arith

length-take_le : (n : ℕ) (m : Bytes) → length (take n m) ≤ n
length-take_le zero m = omega arith
length-take_le (suc n) [] = omega arith
length-take_le (suc n) (x ∷ m) = omega (arith, length-take_le n m)

receive-Conserves :
    (big : Bool) (isprint : ℕ → Bool) (r : Received) (left : ℕ) (c : Context) (had got : Bytes)
    (again : Context → Bytes → Outcome)
    → Holding had c got
    → left + length c.sc.buffer ≤ c.buffer_size
    → AllDeliver (r ∷ [])
    → ((c' : Context) (got' : Bytes) → Holding had c' got' → Conserves had (again c' got'))
    → Conserves had (receive big isprint r left c got again)
unfolding receive
receive-Conserves big isprint (arrived []) left c had got again holds room bytes next = tt
receive-Conserves big isprint (arrived (x ∷ b)) left c had got again holds room bytes next =
    let taken = take left (x ∷ b) in
    let c' : Context = record c { sc = record (c.sc) { buffer = c.sc.buffer ++ taken } } in
    let fits : length (c.sc.buffer ++ taken) ≤ c.buffer_size =
      omega (arith, length-append c.sc.buffer taken, length-take_le left (x ∷ b)) in
    let holds' : Holding had c' (got ++ taken) = (
      holds.0,
      AllBytes-append c.sc.buffer taken holds.1 (AllBytes-take left (x ∷ b) bytes.0),
      ap (λ t. t ++ taken) holds.2 ∙ append_assoc had got taken,
      fits,
    ) in
    subst (λ t. Conserves had (hand_out big left (got ++ taken) again t))
      (sym (take_in_prefixed isprint c left taken holds.0 fits))
      (hand_out-Conserves big left had (got ++ taken) again c' (length taken) holds'
        (next c' (got ++ taken) holds'))
receive-Conserves big isprint would_block left c had got again holds room bytes next =
    (holds.2, holds.0, holds.3)
receive-Conserves big isprint closed left c had got again holds room bytes next = tt

with_room-Conserves :
    (realloc : ℕ → Bool) (fuel : ℕ) (c : Context) (had got : Bytes) (next : Context → ℕ → Outcome)
    → Holding had c got
    → ((c' : Context) (left : ℕ)
        → Holding had c' got
        → left + length c'.sc.buffer ≤ c'.buffer_size
        → Conserves had (next c' left))
    → Conserves had (with_room realloc fuel c next)
unfolding with_room
with_room-Conserves realloc fuel c had got next holds rest =
    elim (Option-cases (read_size fuel c.buffer_size (length c.sc.buffer))) [
      | inl e ↦ rw (e, with_room) tt
      | inr (size, e) ↦
          let all = if ltb c.buffer_size size then size else c.buffer_size in
          let grown : length c.sc.buffer ≤ all = let fits = holds.3 in ground arith in
          rw (e, with_room)
            (elim (Bool-cases (ltb c.buffer_size size && not (realloc size))) [
              | inl short ↦ rw short tt
              | inr enough ↦
                  rw enough (rest _ _ (holds.0, holds.1, holds.2, grown) (omega (arith, grown)))
            ])
    ]

recv_rounds-Conserves :
    (big : Bool) (isprint realloc : ℕ → Bool) (fuel : ℕ) (answers : List Received) (c : Context)
    (had got : Bytes)
    → Holding had c got
    → AllDeliver answers
    → Conserves had (recv_rounds big isprint realloc fuel answers c got)
unfolding recv_rounds
recv_rounds-Conserves big isprint realloc fuel [] c had got holds deliver =
    or_copied-Conserves big c had got _ holds (
      with_room-Conserves realloc fuel c had got _ holds
        (λ c' left holds' room. (holds'.2, holds'.0, holds'.3)))
recv_rounds-Conserves big isprint realloc fuel (r ∷ answers) c had got holds deliver =
    or_copied-Conserves big c had got _ holds (
      with_room-Conserves realloc fuel c had got _ holds (λ c' left holds' room.
        receive-Conserves big isprint r left c' had got _ holds' room (first r answers deliver)
          (λ c'' got' holds''.
            recv_rounds-Conserves big isprint realloc fuel answers c'' had got' holds''
              (others r answers deliver))))
  where
    first :
        (r : Received) (answers : List Received) → AllDeliver (r ∷ answers) → AllDeliver (r ∷ [])
    first (arrived b) answers h = (h.0, tt)
    first would_block answers h = tt
    first closed answers h = tt

    others :
        (r : Received) (answers : List Received) → AllDeliver (r ∷ answers) → AllDeliver answers
    others (arrived b) answers h = h.1
    others would_block answers h = h
    others closed answers h = h

-- A call on a stream of messages behind their lengths, with no more in the buffer than its memory
-- holds, whatever recv returns: recv writes nothing outside the memory. If the call returns, the
-- message that it hands out, behind its length, and the bytes that it keeps are, in this order, those
-- it had and those that recv delivered, and what it keeps is again no more than the memory holds.
pub lo_server_recv_raw_stream_socket-Conserves :
    (big : Bool) (isprint realloc : ℕ → Bool) (answers : List Received) (c : Context)
    → c.is_slip ≡ prefixed
    → AllBytes c.sc.buffer
    → length c.sc.buffer ≤ c.buffer_size
    → AllDeliver answers
    → Conserves c.sc.buffer (lo_server_recv_raw_stream_socket big isprint realloc answers c)
unfolding lo_server_recv_raw_stream_socket
lo_server_recv_raw_stream_socket-Conserves big isprint realloc answers c is bytes fits deliver =
    recv_rounds-Conserves big isprint realloc 11 answers c c.sc.buffer []
      (is, bytes, sym (append-nil c.sc.buffer), fits) deliver
