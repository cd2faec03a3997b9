-- ===== src/Address/State.antt =====
-- struct _lo_address of src/lo_types_internal.h, and the functions of src/address.c that set and
-- read its fields.
use liblo.Base.{
  ℕ, ◌<◌, ◌≡◌, ◌&&◌, ltb, arith, Bool, true, false, not, Option, none, some, Bytes, codes,
  if◌then◌else◌,
}

unfoldable pub xor : Bool → Bool → Bool
xor true b = not b
xor false b = b

pub data Protocol : Type 0 where
  udp tcp unix : Protocol

-- `tcp_option` is what setsockopt last set TCP_NODELAY of the socket to.
-- `ai` is the number of addresses behind the first one of the list, or `none` for NULL; `socket`
-- and `ttl` are `none` for -1.
pub record Address : Type 0 where
  pub host : Option Bytes
  pub port : Option Bytes
  pub protocol : Protocol
  pub slip : Bool
  pub nodelay : Bool
  pub ai : Option ℕ
  pub socket : Option ℕ
  pub ownsocket : Bool
  pub errnum : ℕ
  pub ttl : Option ℕ
  pub tcp_option : Bool

-- The host that is stored: a name is not kept for a UNIX socket.
unfoldable pub stored_host : Protocol → Option Bytes → Bytes
stored_host unix host = codes "localhost"
stored_host _ none = codes "localhost"
stored_host _ (some name) = name

-- The protocol is one of the three, and the allocation succeeds.
unfoldable pub lo_address_new_with_proto : Protocol → Option Bytes → Option Bytes → Address
lo_address_new_with_proto proto host port = record {
  host = some (stored_host proto host);
  port = port;
  protocol = proto;
  slip = false;
  nodelay = false;
  ai = none;
  socket = none;
  ownsocket = true;
  errnum = 0;
  ttl = none;
  tcp_option = false;
}

unfoldable pub lo_address_new : Option Bytes → Option Bytes → Address
lo_address_new host port = lo_address_new_with_proto udp host port

unfoldable pub lo_address_set_ttl : Address → ℕ → Address
lo_address_set_ttl a ttl = elim a.protocol [ udp ↦ record a { ttl = some ttl } | _ ↦ a ]

-- `socket > 0`.
unfoldable pub has_socket : Address → Bool
has_socket a = elim a.socket [ none ↦ false | some sock ↦ ltb 0 sock ]

-- lo_address_set_flags, where the bit for TCP_NODELAY may change: the option is set from the flags
-- before the change.
unfoldable pub set_nodelay_flag : Address → Bool → Address
set_nodelay_flag a enable =
    if xor a.nodelay enable && has_socket a
    then record a { nodelay = enable; tcp_option = a.nodelay }
    else record a { nodelay = enable }

-- The old setting is returned.
unfoldable pub lo_address_set_tcp_nodelay : Address → Bool → Bool × Address
lo_address_set_tcp_nodelay a enable = (a.nodelay, set_nodelay_flag a enable)

unfoldable pub lo_address_set_stream_slip : Address → Bool → Bool × Address
lo_address_set_stream_slip a enable = (a.slip, record a { slip = enable })

-- What lo_address_copy keeps: the errors, the flags and the resolved addresses are cleared.
unfoldable pub lo_address_copy : Address → Address
lo_address_copy from = record from {
  slip = false;
  nodelay = false;
  ai = none;
  ownsocket = false;
  errnum = 0;
}

-- Where TCP_NODELAY is switched on an open socket other than 0, the flag of the address takes the
-- new value, and the option of the socket is set to the old one.
lo_address_set_tcp_nodelay_stale :
    (a : Address) (sock : ℕ) (enable : Bool)
    → a.socket ≡ some sock
    → 0 < sock
    → a.nodelay ≡ not enable
    → let (old, a') = lo_address_set_tcp_nodelay a enable in
      (old ≡ not enable) × (a'.nodelay ≡ enable) × (a'.tcp_option ≡ not enable)
unfolding lo_address_set_tcp_nodelay set_nodelay_flag has_socket xor
lo_address_set_tcp_nodelay_stale a sock true open_ pos off = ground arith
lo_address_set_tcp_nodelay_stale a sock false open_ pos off = ground arith
