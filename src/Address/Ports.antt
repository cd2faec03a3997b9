-- ===== src/Address/Ports.antt =====
-- Which host and port lo_address_new_from_url (src/address.c) finds in a URL: the round trip with
-- lo_address_get_url, and the URLs for which the code goes wrong.
use liblo.Base.{
  ℕ, ◌≡◌, ◌≢◌, refl, ap, ◌∙◌, Bool, true, false, none, some, List, [], ◌∷◌, ◌++◌, Bytes, codes,
  str_eq, arith, ok, fault, ◌>>=◌, append_assoc,
}
use liblo.Address.Scan.{
  Directive, char, scan, eof, sscanf, not_in, is_digit, past_in, AllIn, input_failure, past_in_all,
  sscanf-chars,
}
use liblo.Address.State.{Protocol, udp, tcp, unix, lo_address_new_with_proto}
use liblo.Address.Url.{
  Part, text, null, unwritten, found, scanned, lo_url_get_hostname, lo_url_get_port,
  lo_url_get_protocol_id, lo_address_new_from_url, lo_address_get_url, argument, begins_with,
  has_colon, get_protocol_name, bare_port, named_port, past_host,
}
use liblo.Address.Formats.{
  IsHostName, IsPort, AllIn-not_colon, url_of, nothing, osc_dot-url_of, lo_url_get_hostname-url_of,
  lo_url_get_port-url_of,
}

-- The first character of the name of a protocol that has URLs with ports, and the others.
abbrev name_head : Protocol → ℕ
name_head udp = b'u'
name_head _ = b't'

abbrev name_tail : Protocol → Bytes
name_tail udp = codes "dp"
name_tail _ = codes "cp"

name_valid : (proto : Protocol) → AllIn (not_in (codes ":/")) (name_head proto ∷ name_tail proto)
unfolding not_in
name_valid udp = (refl, (refl, (refl, tt)))
name_valid tcp = (refl, (refl, (refl, tt)))
name_valid unix = (refl, (refl, (refl, tt)))

has_colon_none : (s : Bytes) → AllIn (not_in (codes ":")) s → has_colon s ≡ false
unfolding has_colon not_in
has_colon_none [] h = refl
has_colon_none (c ∷ s) h = ground (arith, has_colon_none s h.1)

protocol_of_url :
    (proto : Protocol) (rest : Bytes)
    → proto ≢ unix
    → lo_url_get_protocol_id (url_of (name_head proto) (name_tail proto) rest) ≡ some proto
unfolding lo_url_get_protocol_id begins_with
protocol_of_url udp rest h = unfold str_eq in refl
protocol_of_url tcp rest h = unfold str_eq in refl
protocol_of_url unix rest h = absurd (h refl)

from_url_parts :
    (c : ℕ) (s : Bytes) (proto : Protocol) (h p : Part)
    → proto ≢ unix
    → lo_url_get_protocol_id (c ∷ s) ≡ some proto
    → lo_url_get_hostname (c ∷ s) ≡ h
    → lo_url_get_port (c ∷ s) ≡ p
    → lo_address_new_from_url (c ∷ s) ≡ (
        argument h >>= λ host.
        argument p >>= λ port. ok (some (lo_address_new_with_proto proto host port)))
unfolding lo_address_new_from_url
from_url_parts c s udp h p ip id eh ep = rw (id, eh, ep, lo_address_new_from_url) refl
from_url_parts c s tcp h p ip id eh ep = rw (id, eh, ep, lo_address_new_from_url) refl
from_url_parts c s unix h p ip id eh ep = absurd (ip refl)

-- The URL of a host name without colon.
get_url_plain :
    (proto : Protocol) (host port : Bytes)
    → proto ≢ unix
    → has_colon host ≡ false
    → lo_address_get_url proto host port
      ≡ url_of (name_head proto) (name_tail proto) (host ++ b':' ∷ (port ++ b'/' ∷ []))
unfolding lo_address_get_url get_protocol_name
get_url_plain udp host port ip plain =
    rw plain (ap (λ t. codes "osc.udp://" ++ t) (append_assoc host (b':' ∷ port) (b'/' ∷ [])))
get_url_plain tcp host port ip plain =
    rw plain (ap (λ t. codes "osc.tcp://" ++ t) (append_assoc host (b':' ∷ port) (b'/' ∷ [])))
get_url_plain unix host port ip plain = absurd (ip refl)

has_colon_some : (a s : Bytes) → has_colon (a ++ b':' ∷ s) ≡ true
unfolding has_colon
has_colon_some [] s = refl
has_colon_some (c ∷ a) s = ground (arith, has_colon_some a s)

regroup :
    (a ds r port : Bytes) (c : ℕ)
    → (((a ++ b':' ∷ (ds ++ c ∷ r)) ++ b']' ∷ []) ++ b':' ∷ port) ++ b'/' ∷ []
      ≡ a ++ b':' ∷ (ds ++ c ∷ (r ++ b']' ∷ b':' ∷ (port ++ b'/' ∷ [])))
regroup a ds r port c = simp append_assoc

-- The input ends behind a set, where the format has a character.
scan_ended :
    (p : ℕ → Bool) (c : ℕ) (format : List Directive) (x : ℕ) (h : Bytes)
    → p x ≡ true
    → past_in p (x ∷ h) ≡ []
    → sscanf (scan false p ∷ char c ∷ format) (x ∷ h) 0 none ≡ record { ret = eof; stored = none }
unfolding sscanf input_failure
scan_ended p c format x h at ended = rw (ended, at) refl

get_url_quoted :
    (proto : Protocol) (a ds r port : Bytes) (c : ℕ)
    → proto ≢ unix
    → lo_address_get_url proto (a ++ b':' ∷ (ds ++ c ∷ r)) port
      ≡ url_of
          (name_head proto)
          (name_tail proto)
          (b'[' ∷ (a ++ b':' ∷ (ds ++ c ∷ (r ++ b']' ∷ b':' ∷ (port ++ b'/' ∷ [])))))
unfolding lo_address_get_url get_protocol_name
get_url_quoted udp a ds r port c ip =
    rw (has_colon_some a (ds ++ c ∷ r)) (ap (λ t. codes "osc.udp://[" ++ t) (regroup a ds r port c))
get_url_quoted tcp a ds r port c ip =
    rw (has_colon_some a (ds ++ c ∷ r)) (ap (λ t. codes "osc.tcp://[" ++ t) (regroup a ds r port c))
get_url_quoted unix a ds r port c ip = absurd (ip refl)

no_port :
    (y : ℕ) (ys : Bytes)
    → AllIn (not_in (codes ":/")) (y ∷ ys)
    → (x : ℕ) (h : Bytes) → AllIn (not_in (codes ":")) (x ∷ h)
    → lo_url_get_port (url_of y ys (x ∷ h)) ≡ unwritten
unfolding lo_url_get_port found
no_port y ys name x h plain =
    let rest = x ∷ h in
    let bare : scanned bare_port (url_of y ys rest) ≡ nothing = unfold scanned sscanf in refl in
    let ended : past_in (not_in (codes ":")) rest ≡ [] = past_in_all _ rest plain in
    let named : scanned named_port (url_of y ys rest) ≡ record { ret = eof; stored = none } =
      osc_dot-url_of y ys name _ rest
      ∙ sscanf-chars (codes "://") past_host rest 0 none
      ∙ scan_ended (not_in (codes ":")) b':' (scan true is_digit ∷ []) x h plain.0 ended in
    rw (bare, named) refl

fault_of_port :
    (proto : Protocol) (h : Part)
    → (argument h >>= λ host.
        argument unwritten >>= λ port. ok (some (lo_address_new_with_proto proto host port)))
      ≡ fault
unfolding argument
fault_of_port proto (text s) = refl
fault_of_port proto null = refl
fault_of_port proto unwritten = refl

-- Round trip: from the URL of a UDP or TCP address whose host is a name without colon, slash and
-- opening bracket, and whose port is a decimal number, lo_address_new_from_url makes an address
-- with the same protocol, host and port.
pub lo_address_new_from_url-get_url :
    (proto : Protocol) (host port : Bytes)
    → proto ≢ unix
    → IsHostName host
    → IsPort port
    → lo_address_new_from_url (lo_address_get_url proto host port)
      ≡ ok (some (lo_address_new_with_proto proto (some host) (some port)))
lo_address_new_from_url-get_url proto [] port ip host digits = absurd (host.0 refl)
lo_address_new_from_url-get_url proto (x ∷ h) [] ip host digits = absurd (digits.0 refl)
lo_address_new_from_url-get_url proto (x ∷ h) (d ∷ ds) ip host digits =
    let rest = (x ∷ h) ++ b':' ∷ ((d ∷ ds) ++ b'/' ∷ []) in
    let y = name_head proto in
    let ys = name_tail proto in
    let plain = AllIn-not_colon (x ∷ h) host.1 in
    ap lo_address_new_from_url
      (get_url_plain proto (x ∷ h) (d ∷ ds) ip (has_colon_none (x ∷ h) plain))
    ∙ from_url_parts _ _ proto (text (x ∷ h)) (text (d ∷ ds)) ip (protocol_of_url proto rest ip)
        (lo_url_get_hostname-url_of y ys (name_valid proto) x h (d ∷ (ds ++ b'/' ∷ [])) host.1)
        (lo_url_get_port-url_of y ys (name_valid proto) x h d ds b'/' [] plain digits.1
          (unfold is_digit in refl))
    ∙ (unfold argument in refl)

-- A quoted host in which decimal digits stand behind the first colon and before another
-- character: the port that is found in the URL of such an address is not its port, but these
-- digits.
pub lo_url_get_port_of_quoted :
    (proto : Protocol) (a ds r port : Bytes) (c : ℕ)
    → proto ≢ unix
    → AllIn (not_in (codes ":")) a
    → IsPort ds
    → is_digit c ≡ false
    → lo_url_get_port (lo_address_get_url proto (a ++ b':' ∷ (ds ++ c ∷ r)) port) ≡ text ds
lo_url_get_port_of_quoted proto a [] r port c ip host digits stop = absurd (digits.0 refl)
lo_url_get_port_of_quoted proto a (d ∷ ds) r port c ip host digits stop =
    ap lo_url_get_port (get_url_quoted proto a (d ∷ ds) r port c ip)
    ∙ lo_url_get_port-url_of (name_head proto) (name_tail proto) (name_valid proto) b'[' a d ds c
        (r ++ b']' ∷ b':' ∷ (port ++ b'/' ∷ [])) (unfold not_in in refl, host) digits.1 stop

-- The URL of UDP or TCP of a host without a port: what is returned as the port was never written,
-- and lo_address_new_from_url goes on with it.
lo_address_new_from_url_no_port :
    (proto : Protocol) (x : ℕ) (h : Bytes)
    → proto ≢ unix
    → AllIn (not_in (codes ":")) (x ∷ h)
    → let url = url_of (name_head proto) (name_tail proto) (x ∷ h) in
      (lo_url_get_port url ≡ unwritten) × (lo_address_new_from_url url ≡ fault)
lo_address_new_from_url_no_port proto x h ip plain =
    let y = name_head proto in
    let ys = name_tail proto in
    let port = no_port y ys (name_valid proto) x h plain in
    (
      port,
      from_url_parts _ _ proto _ unwritten ip (protocol_of_url proto (x ∷ h) ip) refl port
          ∙ fault_of_port proto (lo_url_get_hostname (url_of y ys (x ∷ h))),
    )
