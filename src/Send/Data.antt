-- ===== src/Send/Data.antt =====
-- send_data, lo_send_message_from and lo_send_bundle_from of src/send.c, over a network that answers each system
-- call as it likes.
use liblo.Base.{
  ℕ, zero, suc, ◌+◌, Bool, true, false, Option, none, some, List, [], ◌∷◌, ◌++◌, Bytes, length,
  take, ltb, ◌==◌, if◌then◌else◌, Result, ok,
}
use liblo.Osc.{store32}
use liblo.Address.State.{udp, tcp, unix, Address}
use liblo.Message.{Message, lo_message_serialise}
use liblo.Bundle.{Heap}
use liblo.Bundle.Serialise.{Written, written, lo_bundle_serialise}
use liblo.Send.Slip.{slip_encode}

-- What the system answers to the call number `n`: the addresses that getaddrinfo finds, behind the first; a socket that
-- is open and, for a stream, connected; how many of so many bytes send
-- takes, `none` where it fails; the error.
pub record Network : Type 0 where
  pub resolves : ℕ → Option ℕ
  pub opens : ℕ → Option ℕ
  pub sends : ℕ → ℕ → Option ℕ
  pub errno : ℕ → ℕ
  -- The UDP socket that the clients share, if there is one.
  pub client_udp : Option ℕ

-- `stream` is what has been sent on the connection that `socket` is, `datagrams` what has been
-- sent without one, `sources` the sockets that the server `from` knows, if there is one.
pub record Link : Type 0 where
  pub address : Address
  pub clock : ℕ
  pub stream : Bytes
  pub datagrams : List Bytes
  pub sources : Option (ℕ → Bool)

pub data Sent : Type 0 where
  sent : ℕ → Sent
  failed overflow : Sent

abbrev pub lo_max_msg_size : ℕ
lo_max_msg_size = 32768

unfoldable pub tick : Link → Link
tick l = record l { clock = l.clock + 1 }

unfoldable pub set_errnum : ℕ → Link → Link
set_errnum e l = record l { address = record (l.address) { errnum = e } }

-- lo_address_resolve, where there are no addresses yet.
unfoldable pub resolve_address : Network → Link → Bool × Link
resolve_address net l = elim l.address.ai [
  | some n ↦ (true, l)
  | none ↦ elim l.address.protocol [
    | unix ↦ (true, l)
    | _ ↦ elim (net.resolves l.clock) [
      | none ↦ (false, tick (set_errnum (net.errno l.clock) l))
      | some n ↦ (true, tick (record l { address = record (l.address) { ai = some n } }))
    ]
  ]
]

-- A new stream socket goes to the server, which then has to close it.
unfoldable pub register_socket : ℕ → Link → Link
register_socket sock l = elim l.sources [
  | none ↦ l
  | some known ↦ elim l.address.protocol [
    | tcp ↦ if known sock then l else record l {
      sources = some (λ i. if i == sock then true else known i);
      address = record (l.address) { ownsocket = false };
    }
    | _ ↦ l
  ]
]

unfoldable pub own_socket : Network → Link → Bool × Link
own_socket net l = elim l.address.socket [
  | some sock ↦ (true, l)
  | none ↦ elim (net.opens l.clock) [
    | none ↦ (false, tick (set_errnum (net.errno l.clock) l))
    | some sock ↦ (
      true,
      register_socket sock
          (tick (record l { address = record (l.address) { socket = some sock }; stream = [] })),
    )
  ]
]

-- Whether there is a socket to send on: that of the server, that of the clients, or an own one.
unfoldable pub choose_socket : Network → Link → Bool × Link
choose_socket net l = elim l.address.protocol [
  | udp ↦ elim l.sources [
    | some known ↦ (true, l)
    | none ↦ elim net.client_udp [ some sock ↦ (true, l) | none ↦ own_socket net l ]
  ]
  | _ ↦ own_socket net l
]

-- A call of send that takes `n` of the bytes, or of sendto, which takes them all.
unfoldable pub put : ℕ → Bytes → Link → Link
put n bytes l = elim l.address.protocol [
  | tcp ↦ record l { stream = l.stream ++ take n bytes }
  | _ ↦ record l { datagrams = l.datagrams ++ bytes ∷ [] }
]

-- The loop over the addresses: `rounds` calls at most, until one does not return -1. What that one
-- returns is the result; that it may be less than the length is not looked at.
unfoldable pub send_rounds : Network → Bytes → ℕ → Link → Option ℕ × Link
send_rounds net bytes zero l = (none, l)
send_rounds net bytes (suc rounds) l = elim (net.sends l.clock (length bytes)) [
  | none ↦ send_rounds net bytes rounds (tick l)
  | some n ↦ (some n, tick (put n bytes l))
]

unfoldable pub count_rounds : Address → ℕ
count_rounds a = elim a.protocol [ unix ↦ 1 | _ ↦ elim a.ai [ none ↦ 1 | some n ↦ n + 1 ] ]

-- The length before the data on a stream without SLIP.
-- The result `none` is -1.
unfoldable pub send_size : Network → ℕ → Link → Option ℕ × Link
send_size net n l = elim l.address.protocol [
  | tcp ↦ if l.address.slip then (some 0, l) else send_rounds net (store32 true n) 1 l
  | _ ↦ (some 0, l)
]

unfoldable pub payload : Address → Bytes → Result Bytes
payload a d = elim a.protocol [ udp ↦ ok d | _ ↦ if a.slip then slip_encode d else ok d ]

-- The connection of a stream is closed on a failure, and the server forgets it.
unfoldable pub drop_socket : Link → Link
drop_socket l = elim l.address.protocol [
  | tcp ↦ record l {
    address = record (l.address) { socket = none };
    sources = elim l.sources [
      | none ↦ none
      | some known ↦ elim l.address.socket [
        | none ↦ some known
        | some sock ↦ some (λ i. if i == sock then false else known i)
      ]
    ];
  }
  | _ ↦ l
]

unfoldable pub finish : Network → Option ℕ × Link → Sent × Link
finish net (some n, l) = (sent n, set_errnum 0 l)
finish net (none, l) = (failed, set_errnum (net.errno l.clock) (drop_socket l))

unfoldable pub send_payload : Network → Bytes → Option ℕ × Link → Sent × Link
send_payload net d (none, l) = finish net (none, l)
send_payload net d (some _, l) = elim (payload l.address d) [
  | ok bytes ↦ finish net (send_rounds net bytes (count_rounds l.address) l)
  | _ ↦ (overflow, l)
]

unfoldable pub send_on_socket : Network → Bytes → Bool × Link → Sent × Link
send_on_socket net d (false, l) = (failed, l)
send_on_socket net d (true, l) = send_payload net d (send_size net (length d) l)

unfoldable pub send_resolved : Network → Bytes → Bool × Link → Sent × Link
send_resolved net d (false, l) = (failed, l)
send_resolved net d (true, l) = send_on_socket net d (choose_socket net l)

unfoldable pub send_data : Network → Bytes → Link → Sent × Link
send_data net d l =
    if ltb lo_max_msg_size (length d)
    then (failed, set_errnum 99 l)
    else send_resolved net d (resolve_address net l)

-- On a stream a failed call is made once more.
unfoldable pub retry : Network → Bytes → Sent × Link → Sent × Link
retry net d (failed, l) = elim l.address.protocol [ tcp ↦ send_data net d l | _ ↦ (failed, l) ]
retry net d (sent n, l) = (sent n, l)
retry net d (overflow, l) = (overflow, l)

unfoldable pub lo_send_message_from : Bool → Network → Bytes → Message → Link → Sent × Link
lo_send_message_from big net path msg l =
    let d = lo_message_serialise big msg path none in retry net d (send_data net d l)

-- `overflow` stands for what C leaves undefined, here a null pointer with a length.
unfoldable pub send_written : Network → ℕ × Written → Link → Sent × Link
send_written net (n, written d) l = send_data net d l
send_written net (n, _) l = (overflow, l)

unfoldable pub lo_send_bundle_from : Bool → Network → Heap → ℕ → ℕ → Link → Sent × Link
lo_send_bundle_from big net h fuel b l = send_written net (lo_bundle_serialise big h fuel b none) l
