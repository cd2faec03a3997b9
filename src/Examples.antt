-- ===== src/Examples.antt =====
-- The theorems at concrete inputs, and runs of the code on small data.
mod Bundles
mod Addresses
mod Calls
mod Packets
mod Streams
mod Threads
mod Traffic
mod Varargs
mod Waits
mod Words
use liblo.Base.{
  ℕ, ◌+◌, ◌*◌, ◌/◌, ◌<◌, ◌≤◌, suc, ◌≡◌, ◌≢◌, ◌↔◌, replicate, fault, refl, true, false, none, some,
  List, [], ◌∷◌, ◌++◌, Bytes, codes, length, drop, arith, ok, str_eq, if◌then◌else◌,
}
use liblo.Osc.{lo_strsize, strlen, c_string}
use liblo.Validate.{
  lo_validate_blob, lo_validate_bundle, lo_validate_bundle_iff, IsBundle,
  lo_validate_blob_fault_iff,
}
use liblo.Argument.{Arg}
use liblo.Message.Portable.{NoChars, lo_message_serialise_portable}
use liblo.Message.{
  Platform, Message, lo_message_new, lo_message_serialise, lo_message_deserialise,
  lo_message_length,
}
use liblo.Message.Values.{Holds, type_chars, host_data}
use liblo.Message.RoundTrip.{received, deserialise-serialise, received-Holds}
use liblo.Message.Wire.{message_bytes, lo_message_serialise-some}
use liblo.Stream.Slip.{decoded, SlipState, slip_decode, stuffed, is_plain, slip_decode-encode_iff}
use liblo.Pattern.{Verdict, lo_pattern_match}
use liblo.Pattern.Fuel.{lo_pattern_match_ends}
use liblo.Pattern.Stars.{Matches, Decides}
use liblo.Pattern.Wild.{lo_pattern_match-Decides}
use liblo.Pattern.Braces.{lo_pattern_match-second_alternative}
use liblo.Server.Methods.{Method}
use liblo.Server.Queue.{Queued, dispatch_queued, IsOrdered, NoneNear, dispatch_queued_lem}

-- A little-endian host on which every allocation succeeds.
abbrev little : Platform
little = record {
  big = false;
  log_ratio = λ b a. 14;
  realloc = λ n. true;
  junk = λ i. 0xaa;
  pointer = λ s. 4096;
}

abbrev args : List Arg
args = Arg.int32 7 ∷ Arg.string (codes "hey") ∷ Arg.blob (1 ∷ 2 ∷ 3 ∷ []) ∷ Arg.true_ ∷ []

abbrev path : Bytes
path = codes "/a/b"

-- The message that the receiver makes of the arguments.
abbrev message : Message
message = received little args

-- A bundle without elements, for immediate use.
abbrev empty_bundle : Bytes
empty_bundle = codes "#bundle" ++ 0 ∷ (0 ∷ 0 ∷ 0 ∷ 0 ∷ 0 ∷ 0 ∷ 0 ∷ 1 ∷ [])

lo_validate_bundle_iff_example :
    (lo_validate_bundle false empty_bundle ≡ ok 16)
    ↔ (IsBundle empty_bundle × (16 ≡ length empty_bundle))
lo_validate_bundle_iff_example = lo_validate_bundle_iff false empty_bundle 16 (omega arith)

lo_validate_blob_fault_iff_example : (lo_validate_blob false (1 ∷ 2 ∷ []) ≡ fault) ↔ (2 < 4)
lo_validate_blob_fault_iff_example = lo_validate_blob_fault_iff false (1 ∷ 2 ∷ [])

-- A big-endian host.
abbrev big_host : Platform
big_host = record little { big = true }

lo_message_serialise_portable_example :
    (lo_message_serialise true (received big_host (Arg.char 65 ∷ [])) path none
      ≡ lo_message_serialise false (received little (Arg.char 65 ∷ [])) path none)
    ↔ NoChars (Arg.char 65 ∷ [])
lo_message_serialise_portable_example =
    lo_message_serialise_portable (received big_host (Arg.char 65 ∷ []))
      (received little (Arg.char 65 ∷ [])) path (Arg.char 65 ∷ [])
      (received-Holds big_host (Arg.char 65 ∷ [])) (received-Holds little (Arg.char 65 ∷ []))
      (omega arith, tt) (omega arith, (omega arith, (omega arith, (omega arith, tt))))

empty-Holds : Holds false lo_message_new []
unfolding lo_message_new type_chars host_data
empty-Holds = record { types_are = refl; data_are = refl; typelen_is = refl; datalen_is = refl }

lo_message_serialise-some_example :
    lo_message_serialise false lo_message_new path (some (replicate 20 0x55))
    ≡ message_bytes false path []
      ++ drop (lo_message_length lo_message_new path) (replicate 20 0x55)
lo_message_serialise-some_example =
    lo_message_serialise-some false lo_message_new path [] (replicate 20 0x55) empty-Holds tt
      (omega arith) (unfold lo_message_length lo_strsize strlen lo_message_new in omega arith)

deserialise-serialise_example :
    let d = lo_message_serialise false message path none in
    (c_string d ≡ path) × (lo_message_deserialise little d ≡ ok message) × Holds false message args
deserialise-serialise_example =
    deserialise-serialise little message path args (received-Holds little args) (omega arith)
      (omega arith) (λ n. refl)

slip_decode-encode_iff_example :
    (slip_decode []
        (stuffed (1 ∷ 2 ∷ []) ++ [])
        (length (stuffed (1 ∷ 2 ∷ []) ++ []))
        SlipState.plain
      ≡ decoded false (1 ∷ 2 ∷ []) SlipState.plain 3)
    ↔ (is_plain (1 ∷ 2 ∷ []) ≡ true)
slip_decode-encode_iff_example = slip_decode-encode_iff [] (1 ∷ 2 ∷ []) []

lo_pattern_match_ends_example :
    lo_pattern_match (codes "/abc") (codes "/{a,ab}[a-c]") ≢ Verdict.no_fuel
lo_pattern_match_ends_example = lo_pattern_match_ends (codes "/abc") (codes "/{a,ab}[a-c]")

lo_pattern_match-Decides_example :
    Decides
      (Matches (codes "/a*?c") (codes "/abbc"))
      (lo_pattern_match (codes "/abbc") (codes "/a*?c"))
lo_pattern_match-Decides_example =
    lo_pattern_match-Decides (codes "/abbc") (codes "/a*?c") (omega arith)

-- `{a,xab}` matches "ab".
lo_pattern_match-second_alternative_example :
    lo_pattern_match (codes "ab") (codes "{a,xab}")
    ≡ (if str_eq (codes "ab") (codes "ab") then Verdict.accept else Verdict.reject)
lo_pattern_match-second_alternative_example =
    lo_pattern_match-second_alternative (codes "a") (codes "ab") b'b' b'x' [] (omega arith)
      (omega arith)

abbrev table : List Method
table = record { path = some (codes "/a"); typespec = none; handler = 1 } ∷ []

at_time : ℕ → ℕ → Queued
at_time sec frac = record {
  ts = record { sec = sec; frac = frac };
  path = path;
  msg = message;
  sock = none;
}

abbrev entries : List Queued
entries = at_time 5 0 ∷ at_time 5 100 ∷ at_time 9 0 ∷ []

dispatch_queued_lem_example :
    ((now later : List Queued) × (dispatch_queued entries false ≡ some (at_time 5 0 ∷ now, later))
      × (now ++ later ≡ at_time 5 100 ∷ at_time 9 0 ∷ [])
      × NoneNear (at_time 5 0).ts later
      × IsOrdered later)
    × (dispatch_queued entries true ≡ some (entries, []))
unfolding at_time
dispatch_queued_lem_example =
    dispatch_queued_lem (at_time 5 0) (at_time 5 100 ∷ at_time 9 0 ∷ []) (omega arith) (omega arith)
