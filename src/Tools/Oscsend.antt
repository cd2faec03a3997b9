-- ===== src/Tools/Oscsend.antt =====
-- src/tools/oscsend.c: a message from the words of a command line, and the program that sends it.
use liblo.Base.{
  ℕ, suc, ◌-◌, ◌/◌, ◌%◌, ◌^◌, Bool, false, not, ◌&&◌, ◌||◌, Option, none, some, List, [], ◌∷◌,
  Bytes, leb, ltb, ◌==◌, if◌then◌else◌, ok, err, fault,
}
use liblo.Osc.{OscType, to_type}
use liblo.Argument.{Arg}
use liblo.Message.{Platform, Message, lo_message_new}
use liblo.Message.Values.{add_value}
use liblo.Message.Varargs.{flag_of}
use liblo.Address.State.{Address, lo_address_new, lo_address_set_ttl}
use liblo.Address.Url.{lo_address_new_from_url}
use liblo.Send.Data.{Network, Link, Sent, sent, failed, overflow, lo_send_message_from}

-- What the C library reads from a word: a number, with whether it read the whole word; the
-- integers in 64 bits, a negative one as its complement, the others as the bits of the float. `hex`
-- is sscanf with "%08x", `none` where it does not return 1. `erange` says whether errno is ERANGE
-- behind the reading of the value number `i`.
pub record Reader : Type 0 where
  pub strtol : Bytes → ℕ × Bool
  pub strtoll : Bytes → ℕ × Bool
  pub strtof : Bytes → ℕ × Bool
  pub strtod : Bytes → ℕ × Bool
  pub hex : Bytes → Option ℕ
  pub erange : ℕ → Bool

-- LONG_MAX or LONG_MIN.
unfoldable pub is_limit : ℕ → Bool
is_limit v = v == 2 ^ 63 - 1 || v == 2 ^ 63

-- From INT_MIN to INT_MAX.
unfoldable pub is_int : ℕ → Bool
is_int v = ltb v (2 ^ 31) || leb (2 ^ 64 - 2 ^ 31) v

unfoldable pub read_int32 : Bool → ℕ × Bool → Option Arg
read_int32 erange (v, whole) =
    if not whole
    then none
    else if is_limit v && erange
    then none
    else if not (is_int v)
    then none
    else some (Arg.int32 (v % 2 ^ 32))

unfoldable pub read_int64 : Bool → ℕ × Bool → Option Arg
read_int64 erange (v, whole) =
    if not whole then none else if is_limit v && erange then none else some (Arg.int64 v)

unfoldable pub read_float : ℕ × Bool → Option Arg
read_float (v, whole) = if whole then some (Arg.float v) else none

unfoldable pub read_double : ℕ × Bool → Option Arg
read_double (v, whole) = if whole then some (Arg.double v) else none

unfoldable pub read_midi : Option ℕ → Option Arg
read_midi none = none
read_midi (some midi) =
    some (Arg.midi (midi / 2 ^ 24 % 256) (midi / 2 ^ 16 % 256) (midi / 2 ^ 8 % 256) (midi % 256))

-- `arg[0]`, which is the NUL of an empty word.
unfoldable pub first_char : Bytes → ℕ
first_char [] = 0
first_char (c ∷ s) = c

-- The second `switch`, for the types with a value; a blob or a time tag is not supported.
unfoldable pub read_value : Reader → ℕ → OscType → Bytes → Option Arg
read_value r i OscType.int32 arg = read_int32 (r.erange i) (r.strtol arg)
read_value r i OscType.int64 arg = read_int64 (r.erange i) (r.strtoll arg)
read_value r i OscType.float arg = read_float (r.strtof arg)
read_value r i OscType.double arg = read_double (r.strtod arg)
read_value r i OscType.string arg = some (Arg.string arg)
read_value r i OscType.symbol arg = some (Arg.symbol arg)
read_value r i OscType.char arg = some (Arg.char (first_char arg))
read_value r i OscType.midi arg = read_midi (r.hex arg)
read_value r i _ arg = none

-- The loop over the types from the number `i` on. What the lo_message_add functions return is not
-- looked at.
unfoldable pub add_values : Platform → Reader → ℕ → Bytes → List Bytes → Message → Option Message
add_values p r i [] argv m = some m
add_values p r i (c ∷ types) argv m = elim (to_type c) [
  | none ↦ none
  | some t ↦ elim (flag_of t) [
    | some a ↦ add_values p r (suc i) types argv (add_value p m a).0
    | none ↦ elim argv [
      | [] ↦ none
      | arg ∷ rest ↦ elim (read_value r i t arg) [
        | none ↦ none
        | some a ↦ add_values p r (suc i) types rest (add_value p m a).0
      ]
    ]
  ]
]

-- The words behind the path: the types, then the values.
unfoldable pub create_message : Platform → Reader → List Bytes → Option Message
create_message p r [] = some lo_message_new
create_message p r (types ∷ argv) = add_values p r 0 types argv lo_message_new

-- `strstr(s, "://")`.
unfoldable pub has_scheme : Bytes → Bool
has_scheme [] = false
has_scheme (c ∷ s) = elim s [
  | [] ↦ false
  | d ∷ s' ↦ elim s' [ [] ↦ false | e ∷ _ ↦ c == b':' && d == b'/' && e == b'/' || has_scheme s ]
]

-- The exit status 0 or 1, or what C does not define.
pub data Exit : Type 0 where
  success failure undefined : Exit

unfoldable pub exit_of : Sent × Link → Exit × Option Link
exit_of (sent n, l) = (success, some l)
exit_of (failed, l) = (failure, some l)
exit_of (overflow, l) = (undefined, none)

-- The link to a target of which nothing is open.
unfoldable pub link_to : Address → Link
link_to target = record { address = target; clock = 0; stream = []; datagrams = []; sources = none }

unfoldable pub send_words : Platform → Reader → Network → Address → List Bytes → Exit × Option Link
send_words p r net target [] = (failure, none)
send_words p r net target (path ∷ words) = elim (create_message p r words) [
  | none ↦ (failure, none)
  | some m ↦ exit_of (lo_send_message_from p.big net path m (link_to (lo_address_set_ttl target 1)))
]

-- The words behind the name of the program.
unfoldable pub main : Platform → Reader → Network → List Bytes → Exit × Option Link
main p r net [] = (failure, none)
main p r net (word ∷ []) = (failure, none)
main p r net (word ∷ next ∷ words) =
    if has_scheme word
    then (elim (lo_address_new_from_url word) [
      | ok (some target) ↦ send_words p r net target (next ∷ words)
      | ok none ↦ (failure, none)
      | err _ ↦ (failure, none)
      | fault ↦ (undefined, none)
    ])
    else send_words p r net (lo_address_new (some word) (some next)) words
