-- ===== src/Send/Keeps.antt =====
-- What the steps of send_data (src/send.c) keep of a stream without SLIP.
use liblo.Base.{
  ℕ, zero, suc, ◌+◌, ◌≡◌, ◌⊎◌, inl, inr, ◌∙◌, sym, ap, subst, true, false, none, some, List, [],
  ◌∷◌, ◌++◌, Bytes, length, arith, append_assoc, append-nil, ◌≢◌, Option, Option-cases, take,
  take-append_self,
}
use liblo.Osc.{store32}
use liblo.Validate.{frames}
use liblo.Address.State.{tcp}
use liblo.Send.Data.{
  Network, Link, tick, set_errnum, resolve_address, register_socket, own_socket, choose_socket, put,
  send_rounds, send_size,
}

-- A stream without SLIP.
pub record IsPlainTcp (l : Link) : Type 0 where
  pub is_tcp : l.address.protocol ≡ tcp
  pub no_slip : l.address.slip ≡ false

-- The connection has carried whole messages, each behind its length.
abbrev pub IsFramed : Link → Type 0
IsFramed l = (ds : List Bytes) × (l.stream ≡ frames ds)

-- There is no connection, or it has carried whole messages.
abbrev pub IsClean : Link → Type 0
IsClean l = (l.address.socket ≡ none) ⊎ IsFramed l

pub resolve_address-IsPlainTcp :
    (net : Network) (l : Link) → IsPlainTcp l → IsPlainTcp (resolve_address net l).1
unfolding resolve_address tick set_errnum
resolve_address-IsPlainTcp net l t = ground arith

pub resolve_address-keeps :
    (net : Network) (l : Link)
    → IsPlainTcp l
    → ((resolve_address net l).1.stream ≡ l.stream)
      × ((resolve_address net l).1.address.socket ≡ l.address.socket)
unfolding resolve_address tick set_errnum
resolve_address-keeps net l t = ground arith

register_socket-keeps :
    (sock : ℕ) (l : Link)
    → ((register_socket sock l).stream ≡ l.stream)
      × ((register_socket sock l).address.protocol ≡ l.address.protocol)
      × ((register_socket sock l).address.slip ≡ l.address.slip)
unfolding register_socket
register_socket-keeps sock l = ground arith

-- A call of send that does not fail takes all its bytes, as on a blocking stream socket.
abbrev pub IsWhole : Network → Type 0
IsWhole net = (call size n : ℕ) → net.sends call size ≡ some n → n ≡ size

-- All the bytes have been sent.
abbrev pub AllSent : Bytes → Link → Option ℕ × Link → Type 0
AllSent bytes l (none, l') = IsPlainTcp l'
AllSent bytes l (some n, l') = IsPlainTcp l' × (n ≡ length bytes) × (l'.stream ≡ l.stream ++ bytes)

pub send_rounds_tcp :
    (net : Network) (bytes : Bytes) (rounds : ℕ) (l : Link)
    → IsWhole net
    → IsPlainTcp l
    → AllSent bytes l (send_rounds net bytes rounds l)
unfolding send_rounds tick
send_rounds_tcp net bytes zero l whole t = t
send_rounds_tcp net bytes (suc rounds) l whole t =
    elim (Option-cases (net.sends l.clock (length bytes))) [
      | inl e ↦
          let t' : IsPlainTcp (tick l) = record { is_tcp = t.is_tcp; no_slip = t.no_slip } in
          rw (e, send_rounds) (send_rounds_tcp net bytes rounds (tick l) whole t')
      | inr (n, e) ↦ let all = whole _ _ _ e in rw (e, send_rounds) (sent_whole n all)
    ]
  where
    sent_whole : (n : ℕ) → n ≡ length bytes → AllSent bytes l (some n, tick (put n bytes l))
    sent_whole n all =
        let full : take n bytes ≡ bytes =
          ap (λ k. take k bytes) all
          ∙ ap (take (length bytes)) (sym (append-nil bytes))
          ∙ take-append_self bytes [] in
        let placed : put n bytes l ≡ record l { stream = l.stream ++ take n bytes } =
          unfold put in (ground arith) in
        subst (λ x. AllSent bytes l (some n, tick x)) (sym placed)
          (record { is_tcp = t.is_tcp; no_slip = t.no_slip }, all, ap (λ x. l.stream ++ x) full)

pub own_socket-IsPlainTcp :
    (net : Network) (l : Link) → IsPlainTcp l → IsPlainTcp (own_socket net l).1
unfolding own_socket register_socket tick set_errnum
own_socket-IsPlainTcp net l t = ground arith

opened-stream :
    (net : Network) (l : Link) (sock : ℕ)
    → net.opens l.clock ≡ some sock
    → l.address.socket ≡ none
    → (own_socket net l).1.stream ≡ []
unfolding own_socket tick
opened-stream net l sock opened closed = ground (
  arith,
  register_socket-keeps sock (record l {
    address = record (l.address) { socket = some sock };
    stream = [];
    clock = l.clock + 1;
  }),
)

own_socket-stream :
    (net : Network) (l : Link)
    → ((own_socket net l).0 ≡ true)
    → ((own_socket net l).1.stream ≡ l.stream) × (l.address.socket ≢ none)
      ⊎ ((own_socket net l).1.stream ≡ [])
unfolding own_socket tick
own_socket-stream net l e = elim (Option-cases l.address.socket) [
  | inl closed ↦ elim (Option-cases (net.opens l.clock)) [
    | inl none_opens ↦ absurd (ground arith)
    | inr (sock, opened) ↦ inr (opened-stream net l sock opened closed)
  ]
  | inr (sock, open_) ↦ inl (ground arith)
]

pub choose_socket-tcp :
    (net : Network) (l : Link) → IsPlainTcp l → choose_socket net l ≡ own_socket net l
unfolding choose_socket
choose_socket-tcp net l t = ground arith

-- Where there is a socket, the connection has carried whole messages, and where there is none it
-- cannot have been opened.
pub own_socket-IsFramed :
    (net : Network) (l : Link)
    → IsClean l
    → (own_socket net l).0 ≡ true
    → IsFramed (own_socket net l).1
own_socket-IsFramed net l clean e = elim (own_socket-stream net l e) [
  | inr empty ↦ ([], unfold frames in empty)
  | inl (same, open_) ↦ elim clean [
    | inl closed ↦ absurd (open_ closed)
    | inr (ds, framed) ↦ (ds, same ∙ framed)
  ]
]

pub own_socket-IsClean :
    (net : Network) (l : Link) → (own_socket net l).0 ≡ false → IsClean (own_socket net l).1
unfolding own_socket tick set_errnum
own_socket-IsClean net l e = inl (ground arith)

send_size_plain :
    (net : Network) (n : ℕ) (l : Link)
    → IsPlainTcp l
    → send_size net n l ≡ send_rounds net (store32 true n) 1 l
unfolding send_size
send_size_plain net n l t = ground arith

pub send_size_tcp :
    (net : Network) (n : ℕ) (l : Link)
    → IsWhole net
    → IsPlainTcp l
    → AllSent (store32 true n) l (send_size net n l)
send_size_tcp net n l whole t =
    subst (AllSent (store32 true n) l) (sym (send_size_plain net n l t))
      (send_rounds_tcp net (store32 true n) 1 l whole t)

pub frames_snoc :
    (ds : List Bytes) (d : Bytes)
    → frames (ds ++ d ∷ []) ≡ (frames ds ++ store32 true (length d)) ++ d
unfolding frames
frames_snoc [] d = ap (λ t. store32 true (length d) ++ t) (append-nil d)
frames_snoc (e ∷ ds) d =
    let word = store32 true (length e) in
    let size = store32 true (length d) in
    ap (λ t. word ++ (e ++ t)) (frames_snoc ds d)
    ∙ ap (λ t. word ++ t) (sym (append_assoc e (frames ds ++ size) d))
    ∙ ap (λ t. word ++ (t ++ d)) (sym (append_assoc e (frames ds) size))
    ∙ sym (append_assoc word ((e ++ frames ds) ++ size) d)
    ∙ ap (λ t. t ++ d) (sym (append_assoc word (e ++ frames ds) size))
