-- ===== src/Examples/Calls.antt =====
-- The theorems on sending (src/send.c) and on the calls of a server's methods (src/server.c) at
-- concrete inputs.
use liblo.Base.{
  arith, ◌≡◌, ℕ, ◌==◌, if◌then◌else◌, refl, inl, true, false, none, some, List, [], ◌∷◌, codes, ok,
}
use liblo.Osc.{typechar}
use liblo.Osc.Padding.{IsText}
use liblo.Argument.{Arg, type_of}
use liblo.Message.Values.{type_chars}
use liblo.Message.Wire.{message_bytes}
use liblo.Message.Varargs.{passed, marker_a, marker_b, flag_of, all_passed}
use liblo.Send.Calls.{Arrived, lo_send_varargs_internal, lo_send_varargs_internal-Arrived}
use liblo.Message.RoundTrip.{received}
use liblo.Address.State.{tcp, udp, lo_address_new_with_proto}
use liblo.Stream.Slip.{stuffed}
use liblo.Send.Slip.{count_special, slip_encode, slip_encode-stuffed}
use liblo.Send.Keeps.{IsWhole}
use liblo.Send.Data.{Network, Link}
use liblo.Server.Hires.{Conversions}
use liblo.Server.Coerce.{
  lo_can_coerce_spec, coerce_loop, lo_can_coerce, lo_is_numerical_type, lo_is_string_type,
}
use liblo.Server.Places.{Handed, places-Handed}
use liblo.Server.Methods.{Method, is_pattern}
use liblo.Server.Calls.{Server, dispatch_method, names_loop, has_name}
use liblo.Server.Enumerate.{
  candidates, made, no_repeats, is_name_below, is_next_part, is_first_part, dispatch_method-made,
  names_loop-is_name_below,
}
use liblo.Examples.Traffic.{receiver, volume}

slip_encode-stuffed_example : slip_encode (1 ∷ 192 ∷ 2 ∷ []) ≡ ok (stuffed (1 ∷ 192 ∷ 2 ∷ []))
unfolding count_special
slip_encode-stuffed_example = slip_encode-stuffed (1 ∷ 192 ∷ 2 ∷ [])

-- The host has two addresses, and the first call of send fails.
abbrev network : Network
network = record {
  resolves = λ n. some 1;
  opens = λ n. some 4;
  sends = λ call size. if call == 2 then none else some size;
  errno = λ n. 111;
  client_udp = none;
}

abbrev link : Link
link = record {
  address = lo_address_new_with_proto tcp (some (codes "desk")) (some (codes "9000"));
  clock = 0;
  stream = [];
  datagrams = [];
  sources = none;
}

network-IsWhole : IsWhole network
network-IsWhole call size n e = ground arith

lo_send_varargs_internal-Arrived_example :
    Arrived (message_bytes false (codes "/volume") (Arg.int32 9 ∷ Arg.true_ ∷ [])) (
      lo_send_varargs_internal receiver network
        (codes "/volume")
        (codes "iT")
        (passed (Arg.int32 9) ∷ marker_a ∷ marker_b ∷ [])
        link)
unfolding lo_address_new_with_proto type_chars all_passed typechar flag_of type_of
lo_send_varargs_internal-Arrived_example =
    let text : IsText (codes "/volume") = (
      omega arith,
      (omega arith, (omega arith, (omega arith, (omega arith, (omega arith, (omega arith, tt)))))),
    ) in
    lo_send_varargs_internal-Arrived receiver network (codes "/volume")
      (Arg.int32 9 ∷ Arg.true_ ∷ []) link (λ n. refl) (omega arith, (tt, tt)) text network-IsWhole
      (record { is_tcp = refl; no_slip = refl }) (inl refl)

-- Numbers are not converted here.
abbrev conversions : Conversions
conversions = record {
  Hires = ℕ;
  zero_value = 0;
  of_int32 = λ n. n;
  of_int64 = λ n. n;
  of_float = λ n. n;
  of_double = λ n. n;
  to_uint32 = λ n. n;
  to_uint64 = λ n. n;
  to_float = λ n. n;
  to_double = λ n. n;
}

abbrev methods : List Method
methods =
    record { path = some (codes "/mix/left"); typespec = none; handler = 0 }
    ∷ record { path = some (codes "/mix/left/pan"); typespec = none; handler = 1 }
    ∷ record { path = some (codes "/mix/right"); typespec = some (codes "i"); handler = 2 }
    ∷ []

abbrev mixer : Server
mixer = record {
  platform = receiver;
  conversions = conversions;
  protocol = udp;
  methods = methods;
  should_coerce = true;
  handler = λ calls call. 0;
}

dispatch_method-made_example :
    (dispatch_method mixer (codes "/mix/*") (received receiver volume)).0
    ≡ made mixer true [] (candidates mixer (codes "/mix/*") (received receiver volume) methods)
unfolding is_pattern
dispatch_method-made_example =
    dispatch_method-made mixer (codes "/mix/*") (received receiver volume)

names_loop-is_name_below_example :
    (no_repeats (names_loop (codes "/mix/") methods []) ≡ true)
    × (has_name (codes "left") (names_loop (codes "/mix/") methods []) ≡ true)
unfolding is_name_below is_next_part is_first_part
names_loop-is_name_below_example = names_loop-is_name_below (codes "/mix/") (codes "left") methods

-- A number and a string, for a method that takes a float and a symbol.
places-Handed_example : Handed mixer (Arg.int32 9 ∷ Arg.string (codes "on") ∷ []) (codes "fS")
unfolding lo_can_coerce_spec coerce_loop lo_can_coerce lo_is_numerical_type lo_is_string_type
    type_chars typechar type_of
places-Handed_example =
    places-Handed mixer (Arg.int32 9 ∷ Arg.string (codes "on") ∷ []) (codes "fS")
      (omega arith, ((omega arith, (omega arith, tt)), tt)) (omega arith, (omega arith, tt)) refl
