-- ===== src/Message/Wire.antt =====
-- The bytes that lo_message_serialise produces.
use liblo.Base.{
  ℕ, zero, suc, ◌+◌, ◌-◌, ◌*◌, ◌/◌, ◌≤◌, ◌≡◌, ◌∙◌, refl, sym, ap, subst, Bool, List, [], ◌∷◌, ◌++◌,
  Bytes, length, take, drop, overwrite, blit, arith, append_assoc, take-append_self,
  drop-append_self, blit-append_le, blit-append_ge, overwrite-append_le, overwrite-append,
  length-append, take-length, length-blit, some, none, take-append-drop, drop-drop, length-take,
  length-drop, replicate, length-replicate, append-nil, ◌≢◌,
}
use liblo.Osc.{OscType, lo_strsize, typechar}
use liblo.Osc.Padding.{IsText, padded, zeros4, strlen_whole, length-padded, overwrite-blit-padded}
use liblo.Argument.{
  Arg, IsArg, type_of, host_bytes, wire_bytes, length-wire_bytes, lo_arg_size-host,
  lo_arg_network_endian-host,
}
use liblo.Message.State.{Message}
use liblo.Message.Values.{Holds, host_data, type_chars}
use liblo.Message.Serialise.{
  fill_buffer, network_loop, serialise_into, lo_message_length, lo_message_serialise,
}

unfoldable pub wire_data : Bool → List Arg → Bytes
wire_data big [] = []
wire_data big (a ∷ as_) = wire_bytes big a ++ wire_data big as_

abbrev pub AllArgs : List Arg → Type 0
AllArgs [] = Unit
AllArgs (a ∷ as_) = IsArg a × AllArgs as_

-- A message to a path with these arguments, as a host of byte order `big` sends it.
unfoldable pub message_bytes : Bool → Bytes → List Arg → Bytes
message_bytes big path args = padded path ++ (padded (b',' ∷ type_chars args) ++ wire_data big args)

pub network_loop-host :
    (big : Bool) (args : List Arg) (r : Bytes)
    → AllArgs args
    → network_loop big (type_chars args) (host_data big args ++ r) ≡ wire_data big args ++ r
unfolding network_loop type_chars host_data wire_data
network_loop-host big [] r h = refl
network_loop-host big (a ∷ as_) r h =
    let rest = host_data big as_ ++ r in
    let c = typechar (type_of a) in
    let split : (host_bytes big a ++ host_data big as_) ++ r ≡ host_bytes big a ++ rest =
      append_assoc (host_bytes big a) (host_data big as_) r in
    let size = lo_arg_size-host big a rest h.0 ∙ sym (length-wire_bytes big a) in
    let swapped = lo_arg_network_endian-host big a rest in
    rw
      (
        split,
        size,
        swapped,
        take-append_self (wire_bytes big a) rest,
        drop-append_self (wire_bytes big a) rest,
      )
      (ap (λ t. wire_bytes big a ++ t) (network_loop-host big as_ r h.1)
        ∙ sym (append_assoc (wire_bytes big a) (wire_data big as_) r))

pub type_chars-IsText : (args : List Arg) → IsText (type_chars args)
unfolding type_chars typechar type_of
type_chars-IsText [] = tt
type_chars-IsText (a ∷ as_) = (typechar_pos (type_of a), type_chars-IsText as_)
  where
    typechar_pos : (t : OscType) → typechar t ≢ 0
    typechar_pos OscType.int32 = omega arith
    typechar_pos _ = omega arith

-- A string put into a region of its padded size: the last word cleared, then `strcpy`.
put_string :
    (s region r : Bytes)
    → length region ≡ 4 * (length s / 4 + 1)
    → overwrite (blit (4 * (length s / 4)) (region ++ r) zeros4) (s ++ 0 ∷ []) ≡ padded s ++ r
put_string s region r h =
    ap (λ t. overwrite t (s ++ 0 ∷ []))
      (blit-append_le (4 * (length s / 4)) region r zeros4 (omega arith))
    ∙ overwrite-append_le (blit (4 * (length s / 4)) region zeros4) r (s ++ 0 ∷ [])
        (omega (arith, length-blit (4 * (length s / 4)) region zeros4, length-append s (0 ∷ [])))
    ∙ ap (λ t. t ++ r) (overwrite-blit-padded s region h)

pub lo_strsize_text : (s : Bytes) → IsText s → lo_strsize s ≡ 4 * (length s / 4 + 1)
unfolding lo_strsize
lo_strsize_text s h = rw (strlen_whole s h)

-- The region of the path, that of the types, that of the data, and what follows them.
fill_buffer_regions :
    (m : Message) (path : Bytes) (P T D R : Bytes)
    → IsText path
    → IsText m.types
    → m.datalen ≡ length m.data_bytes
    → length P ≡ 4 * (length path / 4 + 1)
    → length T ≡ 4 * (length m.types / 4 + 1)
    → length D ≡ m.datalen
    → fill_buffer m path (P ++ (T ++ (D ++ R)))
      ≡ padded path ++ (padded m.types ++ (m.data_bytes ++ R))
unfolding fill_buffer
fill_buffer_regions m path P T D R text types_text size hp ht hd =
    let sp = 4 * (length path / 4 + 1) in
    let st = 4 * (length m.types / 4 + 1) in
    let bytes = m.data_bytes in
    let cleared = blit (4 * (length m.types / 4)) (T ++ (D ++ R)) zeros4 in
    let o1 : sp - 4 ≡ 4 * (length path / 4) = omega arith in
    let o2 : blit (sp + st - 4) (padded path ++ (T ++ (D ++ R))) zeros4 ≡ padded path ++ cleared =
      blit-append_ge (padded path) (T ++ (D ++ R)) zeros4 (sp + st - 4) (4 * (length m.types / 4))
        (omega (arith, length-padded path)) in
    let o3 : blit sp (padded path ++ cleared) (m.types ++ 0 ∷ [])
        ≡ padded path ++ (padded m.types ++ (D ++ R)) =
      blit-append_ge (padded path) cleared (m.types ++ 0 ∷ []) sp 0
        (omega (arith, length-padded path))
      ∙ ap (λ t. padded path ++ t) (unfold blit in put_string m.types T (D ++ R) ht) in
    let whole : take m.datalen bytes ≡ bytes = ap (λ k. take k bytes) size ∙ take-length bytes in
    let o4 : blit (sp + st) (padded path ++ (padded m.types ++ (D ++ R))) bytes
        ≡ padded path ++ (padded m.types ++ (bytes ++ R)) =
      blit-append_ge (padded path) (padded m.types ++ (D ++ R)) bytes (sp + st) (st + 0)
        (omega (arith, length-padded path))
      ∙ ap (λ t. padded path ++ t)
          (blit-append_ge (padded m.types) (D ++ R) bytes (st + 0) 0
              (omega (arith, length-padded m.types))
            ∙ ap (λ t. padded m.types ++ t)
                (unfold blit in overwrite-append D R bytes (sym size ∙ sym hd))) in
    rw
      (
        lo_strsize_text path text,
        lo_strsize_text m.types types_text,
        o1,
        put_string path P (T ++ (D ++ R)) hp,
        o2,
        o3,
        whole,
      )
      o4

-- Into a buffer of any contents go the bytes of the message, and what follows them is left.
serialise_regions :
    (big : Bool) (m : Message) (path : Bytes) (args : List Arg) (P T D R : Bytes)
    → Holds big m args
    → AllArgs args
    → IsText path
    → length P ≡ 4 * (length path / 4 + 1)
    → length T ≡ 4 * (length m.types / 4 + 1)
    → length D ≡ m.datalen
    → serialise_into big m path (P ++ (T ++ (D ++ R))) ≡ message_bytes big path args ++ R
unfolding serialise_into message_bytes
serialise_regions big m path args P T D R h valid text hp ht hd =
    let types_text : IsText m.types =
      subst IsText (sym h.types_are) (omega arith, type_chars-IsText args) in
    let filled = fill_buffer_regions m path P T D R text types_text h.datalen_is hp ht hd in
    let start : lo_strsize path + lo_strsize m.types ≡ length (padded path ++ padded m.types) =
      omega (
        arith,
        lo_strsize_text path text,
        lo_strsize_text m.types types_text,
        length-append (padded path) (padded m.types),
        length-padded path,
        length-padded m.types,
      ) in
    let front = padded path ++ padded m.types in
    let shape : padded path ++ (padded m.types ++ (m.data_bytes ++ R))
        ≡ front ++ (m.data_bytes ++ R) =
      sym (append_assoc (padded path) (padded m.types) (m.data_bytes ++ R)) in
    let chars : take (m.typelen - 1) (drop 1 m.types) ≡ type_chars args =
      ap (λ x. take (m.typelen - 1) (drop 1 x)) h.types_are
      ∙ ap (λ k. take k (type_chars args)) (omega (arith, h.typelen_is, ap length h.types_are))
      ∙ take-length (type_chars args) in
    let bytes : m.data_bytes ++ R ≡ host_data big args ++ R = ap (λ t. t ++ R) h.data_are in
    rw
      (
        start,
        filled ∙ shape,
        take-append_self front (m.data_bytes ++ R),
        drop-append_self front (m.data_bytes ++ R),
        chars,
        bytes,
        network_loop-host big args R valid,
      )
      (append_assoc (padded path) (padded m.types) (wire_data big args ++ R)
        ∙ ap (λ x. padded path ++ x) (sym (append_assoc (padded m.types) (wire_data big args) R))
        ∙ ap (λ x. padded path ++ ((padded x ++ wire_data big args) ++ R)) h.types_are
        ∙ sym
            (append_assoc (padded path) (padded (b',' ∷ type_chars args) ++ wire_data big args) R))

cut_three :
    (a b c n : ℕ) (to : Bytes)
    → n ≡ a + b + c
    → to ≡ take a to ++ (take b (drop a to) ++ (take c (drop b (drop a to)) ++ drop n to))
cut_three a b c n to e =
    let q = drop a to in
    let r = drop b q in
    let last : drop c r ≡ drop n to =
      ap (drop c) (drop-drop b a (a + b) to refl) ∙ drop-drop c (a + b) n to e in
    sym (
      ap (λ t. take a to ++ (take b q ++ (take c r ++ t))) (sym last)
      ∙ ap (λ t. take a to ++ (take b q ++ t)) (take-append-drop c r)
      ∙ ap (λ t. take a to ++ t) (take-append-drop b q)
      ∙ take-append-drop a to)

-- lo_message_serialise writes the bytes of the message at the start of a buffer that has room
-- for lo_message_length bytes, whatever the buffer holds, and leaves what follows them alone.
pub lo_message_serialise-some :
    (big : Bool) (m : Message) (path : Bytes) (args : List Arg) (to : Bytes)
    → Holds big m args
    → AllArgs args
    → IsText path
    → lo_message_length m path ≤ length to
    → lo_message_serialise big m path (some to)
      ≡ message_bytes big path args ++ drop (lo_message_length m path) to
unfolding lo_message_serialise lo_message_length
lo_message_serialise-some big m path args to h valid text room =
    let types_text : IsText m.types =
      subst IsText (sym h.types_are) (omega arith, type_chars-IsText args) in
    let sp = 4 * (length path / 4 + 1) in
    let st = 4 * (length m.types / 4 + 1) in
    let n = lo_strsize path + lo_strsize m.types + m.datalen in
    let e1 : lo_strsize path ≡ sp = lo_strsize_text path text in
    let e2 : lo_strsize m.types ≡ st = lo_strsize_text m.types types_text in
    ap (serialise_into big m path) (cut_three sp st m.datalen n to (omega (arith, e1, e2)))
    ∙ serialise_regions big m path args _ _ _ (drop n to) h valid text
        (length-take sp to (omega (arith, e1, e2)))
        (length-take st (drop sp to) (omega (arith, e1, e2, length-drop sp to)))
        (length-take m.datalen (drop st (drop sp to))
          (omega (arith, e1, e2, length-drop sp to, length-drop st (drop sp to))))

pub drop-all : (n : ℕ) (xs : Bytes) → length xs ≤ n → drop n xs ≡ []
drop-all zero [] h = refl
drop-all zero (x ∷ xs) h = elim h [ ]
drop-all (suc n) [] h = refl
drop-all (suc n) (x ∷ xs) h = drop-all n xs (omega arith)

-- Without a buffer of the caller the result is the bytes of the message.
pub lo_message_serialise-none :
    (big : Bool) (m : Message) (path : Bytes) (args : List Arg)
    → Holds big m args
    → AllArgs args
    → IsText path
    → lo_message_serialise big m path none ≡ message_bytes big path args
lo_message_serialise-none big m path args h valid text =
    let n = lo_message_length m path in
    let to : Bytes = replicate n 0 in
    let size : length to ≡ n = length-replicate n 0 in
    unfold lo_message_serialise in
    (lo_message_serialise-some big m path args to h valid text (omega arith)
      ∙ ap (λ t. message_bytes big path args ++ t) (drop-all n to (omega arith))
      ∙ append-nil (message_bytes big path args))
