-- ===== src/Address/Url.antt =====
-- The functions lo_url_get of src/address.c, lo_address_new_from_url and lo_address_get_url.
use liblo.Base.{
  Bool, true, false, Option, none, some, List, [], ◌∷◌, ◌++◌, Bytes, codes, length, take, str_eq,
  ◌==◌, if◌then◌else◌, Result, ok, fault, ◌>>=◌,
}
use liblo.Address.Scan.{
  Directive, Scanned, char, scan, word, eof, count, sscanf, chars, not_in, is_digit,
}
use liblo.Address.State.{Protocol, udp, tcp, unix, Address, lo_address_new_with_proto}

-- The pointer that is returned: to a text, NULL, or to memory to which nothing was written.
pub data Part : Type 0 where
  text : Bytes → Part
  null unwritten : Part

-- `if (sscanf(...)) return ...;` EOF is not 0, so that it passes the test.
unfoldable pub found : Scanned → Part → Part
found r other = elim r.ret [
  | eof ↦ unwritten
  | count n ↦ if n == 0 then other else (elim r.stored [ none ↦ unwritten | some s ↦ text s ])
]

unfoldable pub scanned : List Directive → Bytes → Scanned
scanned format url = sscanf format url 0 none

-- The formats: `osc.%*[^:]` and `osc.%*[^:/]`, with which many begin, those of the host name, and
-- those of the port.
abbrev pub osc_dot : List Directive
osc_dot = chars (codes "osc.") ++ scan false (not_in (codes ":")) ∷ []

abbrev pub osc_name : List Directive
osc_name = chars (codes "osc.") ++ scan false (not_in (codes ":/")) ∷ []

abbrev pub bare_host : List Directive
bare_host = chars (codes "osc://") ++ scan true (not_in (codes "[:/")) ∷ []

abbrev pub quoted_host : List Directive
quoted_host =
    osc_name ++ (chars (codes "://[") ++ scan true (not_in (codes "]/")) ∷ chars (codes "]"))

abbrev pub named_host : List Directive
named_host = osc_name ++ (chars (codes "://") ++ scan true (not_in (codes "[:/")) ∷ [])

abbrev pub past_host : List Directive
past_host = scan false (not_in (codes ":")) ∷ char b':' ∷ scan true is_digit ∷ []

abbrev pub past_quoted : List Directive
past_quoted = scan false (not_in (codes "]")) ∷ (chars (codes "]:") ++ scan true is_digit ∷ [])

abbrev pub bare_port : List Directive
bare_port = chars (codes "osc://") ++ past_host

abbrev pub named_port : List Directive
named_port = osc_dot ++ (chars (codes "://") ++ past_host)

abbrev pub bare_quoted_port : List Directive
bare_quoted_port = chars (codes "osc://[") ++ past_quoted

abbrev pub quoted_port : List Directive
quoted_port = osc_dot ++ (chars (codes "://[") ++ past_quoted)

abbrev pub bare_only_port : List Directive
bare_only_port = chars (codes "osc://:") ++ scan true is_digit ∷ []

abbrev pub only_port : List Directive
only_port = osc_dot ++ (chars (codes "://:") ++ scan true is_digit ∷ [])

-- The url is not NULL.
unfoldable pub lo_url_get_hostname : Bytes → Part
lo_url_get_hostname url =
    found (scanned bare_host url)
      (found (scanned quoted_host url) (found (scanned named_host url) null))

unfoldable pub lo_url_get_port : Bytes → Part
lo_url_get_port url = found (scanned bare_port url) (
    found (scanned named_port url) (
      found (scanned bare_quoted_port url) (
        found (scanned quoted_port url)
          (found (scanned bare_only_port url) (found (scanned only_port url) null)))))

-- `if (path[i] == '/') path[i] = 0;`, at the last character.
unfoldable pub without_slash : Bytes → Bytes
without_slash [] = []
without_slash (c ∷ []) = if c == b'/' then [] else c ∷ []
without_slash (c ∷ d ∷ s) = c ∷ without_slash (d ∷ s)

-- `if (sscanf(...) == 1)`.
unfoldable pub found_one : Scanned → Part → Part
found_one r other = elim r.ret [
  | eof ↦ other
  | count n ↦ if n == 1 then (elim r.stored [ none ↦ unwritten | some s ↦ text s ]) else other
]

-- The case that only trims what was found: NULL of a later case is not a text.
unfoldable pub found_trimmed : Scanned → Part → Part
found_trimmed r other = elim r.ret [
  | eof ↦ unwritten
  | count n ↦
      if n == 0
      then other
      else (elim r.stored [ none ↦ unwritten | some s ↦ text (without_slash s) ])
]

unfoldable pub lo_url_get_path : Bytes → Part
lo_url_get_path url =
    let not_colon = scan false (not_in (codes ":")) ∷ [] in
    let digits = scan false is_digit ∷ [] in
    found
      (scanned (chars (codes "osc://") ++ not_colon ++ chars (codes ":") ++ digits ++ word ∷ [])
        url)
      (found_one
        (scanned
          (osc_dot ++ chars (codes "://") ++ not_colon ++ chars (codes ":") ++ digits ++ word ∷ [])
          url)
        (found_trimmed
          (scanned (chars (codes "osc.unix://") ++ scan false (not_in (codes "/")) ∷ word ∷ []) url)
          (found_trimmed (scanned (osc_dot ++ chars (codes "://") ++ word ∷ []) url) null)))

unfoldable pub lo_url_get_protocol : Bytes → Part
lo_url_get_protocol url = elim (scanned (chars (codes "osc://") ++ word ∷ []) url).ret [
  | eof ↦ text (codes "udp")
  | count n ↦
      if n == 0
      then found (scanned (chars (codes "osc.") ++ scan true (not_in (codes ":/[")) ∷ []) url) null
      else text (codes "udp")
]

-- `!strncmp(url, s, strlen(s))`.
unfoldable pub begins_with : Bytes → Bytes → Bool
begins_with url s = str_eq (take (length s) url) s

-- `none` is -1.
unfoldable pub lo_url_get_protocol_id : Bytes → Option Protocol
lo_url_get_protocol_id url =
    if begins_with url (codes "osc:")
    then some udp
    else if begins_with url (codes "osc.udp:")
    then some udp
    else if begins_with url (codes "osc.tcp:")
    then some tcp
    else if begins_with url (codes "osc.unix:")
    then some unix
    else none

-- A string that was never written is no string: what is done with it is not defined.
unfoldable pub argument : Part → Result (Option Bytes)
argument (text s) = ok (some s)
argument null = ok none
argument unwritten = fault

-- `ok none` is NULL.
unfoldable pub lo_address_new_from_url : Bytes → Result (Option Address)
lo_address_new_from_url [] = ok none
lo_address_new_from_url (c ∷ s) = elim (lo_url_get_protocol_id (c ∷ s)) [
  | none ↦ ok none
  | some unix ↦ do
    port ← argument (lo_url_get_path (c ∷ s))
    ok (some (lo_address_new_with_proto unix none port))
  | some proto ↦ do
    host ← argument (lo_url_get_hostname (c ∷ s))
    port ← argument (lo_url_get_port (c ∷ s))
    ok (some (lo_address_new_with_proto proto host port))
]

unfoldable pub get_protocol_name : Protocol → Bytes
get_protocol_name udp = codes "udp"
get_protocol_name tcp = codes "tcp"
get_protocol_name unix = codes "unix"

-- `strchr(host, ':')`.
unfoldable pub has_colon : Bytes → Bool
has_colon [] = false
has_colon (c ∷ s) = if c == b':' then true else has_colon s

-- The host is known, and so is the port: `%s` of NULL is not defined. The trailing slash goes for
-- a UNIX socket.
unfoldable pub lo_address_get_url : Protocol → Bytes → Bytes → Bytes
lo_address_get_url proto host port =
    let quoted = if has_colon host then codes "[" ++ (host ++ codes "]") else host in
    let front =
      codes "osc." ++ (get_protocol_name proto ++ (codes "://" ++ (quoted ++ b':' ∷ port))) in
    elim proto [ unix ↦ front | _ ↦ front ++ codes "/" ]
