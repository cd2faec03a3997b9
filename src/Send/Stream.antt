-- ===== src/Send/Stream.antt =====
-- What send_data (src/send.c) leaves on a stream without SLIP: whole messages behind their lengths.
use liblo.Base.{
  ℕ, ◌≡◌, inl, inr, ◌∙◌, refl, sym, ap, subst, Bool, true, false, Option, none, some, List, [], ◌∷◌,
  ◌++◌, Bytes, length, ltb, arith, Bool-cases,
}
use liblo.Osc.{store32}
use liblo.Validate.{frames}
use liblo.Message.{Message, lo_message_serialise}
use liblo.Send.Data.{
  lo_max_msg_size, Network, Link, Sent, sent, failed, overflow, set_errnum, resolve_address,
  own_socket, send_rounds, count_rounds, send_size, payload, drop_socket, finish, send_payload,
  send_on_socket, send_resolved, send_data, retry, lo_send_message_from,
}
use liblo.Send.Keeps.{
  IsWhole, AllSent, IsPlainTcp, IsFramed, IsClean, resolve_address-IsPlainTcp,
  resolve_address-keeps, send_rounds_tcp, own_socket-IsPlainTcp, choose_socket-tcp,
  own_socket-IsFramed, own_socket-IsClean, send_size_tcp, frames_snoc,
}

-- After a call that succeeds the open connection has carried whole messages, the last of which
-- are the data; after one that fails there is no connection, or it has carried whole messages.
abbrev pub Delivered : Bytes → Sent × Link → Type 0
Delivered d (sent n, l) =
    IsPlainTcp l × (n ≡ length d) × ((ds : List Bytes) × (l.stream ≡ frames (ds ++ d ∷ [])))
Delivered d (failed, l) = IsPlainTcp l × IsClean l
Delivered d (overflow, l) = ⊥

-- The end of a call.
finish-failed :
    (net : Network) (d : Bytes) (l : Link) → IsPlainTcp l → Delivered d (finish net (none, l))
unfolding finish drop_socket set_errnum
finish-failed net d l t = (ground arith, inl (ground arith))

finish-Delivered :
    (net : Network) (d : Bytes) (ds : List Bytes) (l : Link) (r : Option ℕ × Link)
    → AllSent d l r
    → l.stream ≡ frames ds ++ store32 true (length d)
    → Delivered d (finish net r)
finish-Delivered net d ds l (none, l') t before = finish-failed net d l' t
finish-Delivered net d ds l (some n, l') (t, all, stream) before =
    unfold finish set_errnum in
    (
      record { is_tcp = t.is_tcp; no_slip = t.no_slip },
      all,
      (ds, stream ∙ ap (λ x. x ++ d) before ∙ sym (frames_snoc ds d)),
    )

send_payload_plain :
    (net : Network) (n : ℕ) (l : Link) (d : Bytes)
    → IsPlainTcp l
    → send_payload net d (some n, l) ≡ finish net (send_rounds net d (count_rounds l.address) l)
unfolding send_payload payload
send_payload_plain net n l d t = ground arith

send_payload-Delivered :
    (net : Network) (d : Bytes) (ds : List Bytes) (l : Link) (r : Option ℕ × Link)
    → IsWhole net
    → AllSent (store32 true (length d)) l r
    → l.stream ≡ frames ds
    → Delivered d (send_payload net d r)
unfolding send_payload
send_payload-Delivered net d ds l (none, l') whole t before = finish-failed net d l' t
send_payload-Delivered net d ds l (some n, l') whole (t, all, size) before =
    subst (Delivered d) (sym (send_payload_plain net n l' d t)) (
      finish-Delivered net d ds l' (send_rounds net d (count_rounds l'.address) l')
        (send_rounds_tcp net d (count_rounds l'.address) l' whole t)
        (size ∙ ap (λ x. x ++ store32 true (length d)) before))

send_on_socket-Delivered :
    (net : Network) (d : Bytes) (r : Bool × Link)
    → IsWhole net
    → IsPlainTcp r.1
    → (r.0 ≡ true → IsFramed r.1)
    → (r.0 ≡ false → IsClean r.1)
    → Delivered d (send_on_socket net d r)
unfolding send_on_socket
send_on_socket-Delivered net d (false, l) whole t framed clean = (t, clean refl)
send_on_socket-Delivered net d (true, l) whole t framed clean =
    let (ds, before) = framed refl in
    send_payload-Delivered net d ds l (send_size net (length d) l) whole
      (send_size_tcp net (length d) l whole t) before

send_resolved-Delivered :
    (net : Network) (d : Bytes) (r : Bool × Link)
    → IsWhole net
    → IsPlainTcp r.1
    → IsClean r.1
    → Delivered d (send_resolved net d r)
unfolding send_resolved
send_resolved-Delivered net d (false, l) whole t clean = (t, clean)
send_resolved-Delivered net d (true, l) whole t clean = rw (choose_socket-tcp net l t) (
    send_on_socket-Delivered net d (own_socket net l) whole (own_socket-IsPlainTcp net l t)
      (own_socket-IsFramed net l clean) (own_socket-IsClean net l))

-- Where no call of send takes only a part, send_data on a stream without SLIP keeps whole messages.
pub send_data-Delivered :
    (net : Network) (d : Bytes) (l : Link)
    → IsWhole net
    → IsPlainTcp l
    → IsClean l
    → Delivered d (send_data net d l)
send_data-Delivered net d l whole t clean = elim (Bool-cases (ltb lo_max_msg_size (length d))) [
  | inl long ↦
      unfold send_data set_errnum in
      (rw long (record { is_tcp = t.is_tcp; no_slip = t.no_slip }, clean))
  | inr fits ↦
      let (same, same_socket) = resolve_address-keeps net l t in
      let clean' : IsClean (resolve_address net l).1 = elim clean [
        | inl closed ↦ inl (same_socket ∙ closed)
        | inr (ds, framed) ↦ inr (ds, same ∙ framed)
      ] in
      let done =
        send_resolved-Delivered net d (resolve_address net l) whole
          (resolve_address-IsPlainTcp net l t) clean' in
      unfold send_data in (rw fits done)
]

retry-Delivered :
    (net : Network) (d : Bytes) (r : Sent × Link)
    → IsWhole net
    → Delivered d r
    → Delivered d (retry net d r)
unfolding retry
retry-Delivered net d (sent n, l) whole h = h
retry-Delivered net d (overflow, l) whole h = elim h [ ]
retry-Delivered net d (failed, l) whole (t, clean) =
    rw (t.is_tcp) (send_data-Delivered net d l whole t clean)

pub lo_send_message_from-Delivered :
    (big : Bool) (net : Network) (path : Bytes) (msg : Message) (l : Link)
    → IsWhole net
    → IsPlainTcp l
    → IsClean l
    → Delivered (lo_message_serialise big msg path none) (lo_send_message_from big net path msg l)
unfolding lo_send_message_from
lo_send_message_from-Delivered big net path msg l whole t clean =
    let d = lo_message_serialise big msg path none in
    retry-Delivered net d (send_data net d l) whole (send_data-Delivered net d l whole t clean)
