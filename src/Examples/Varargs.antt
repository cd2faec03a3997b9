-- ===== src/Examples/Varargs.antt =====
-- The theorem on lo_message_add_varargs_internal (src/message.c) at a concrete call.
use liblo.Base.{◌≡◌, refl, [], ◌∷◌, ◌++◌, Bytes, List, codes, arith}
use liblo.Osc.Padding.{IsText}
use liblo.Argument.{Arg}
use liblo.Message.Values.{Holds, type_chars}
use liblo.Message.RoundTrip.{received, received-Holds}
use liblo.Message.Varargs.{
  VarArg, fault, passed, marker_a, marker_b, completed, mismatch, ended, built, all_passed,
  lo_message_add_varargs_internal, lo_message_add_varargs_internal-Holds,
}
use liblo.Examples.Traffic.{receiver}

abbrev switch : List Arg
switch = Arg.string (codes "on") ∷ Arg.true_ ∷ Arg.int32 9 ∷ []

-- A string in the place of a marker, at address 4096.
lo_message_add_varargs_internal-Holds_example :
    let m = received receiver [] in
    let m' = built receiver m switch in
    let call = λ (types : Bytes) (more : List VarArg).
      lo_message_add_varargs_internal receiver m
        (type_chars switch ++ types)
        (all_passed switch ++ more) in
    Holds receiver.big m' switch
    × (call [] (marker_a ∷ marker_b ∷ marker_a ∷ []) ≡ ended completed m')
    × (call (codes "$$") (marker_a ∷ []) ≡ ended completed m')
    × (call [] (passed (Arg.string (codes "x")) ∷ marker_a ∷ []) ≡ ended mismatch m')
    × (call [] (marker_a ∷ passed (Arg.string (codes "x")) ∷ marker_a ∷ []) ≡ ended mismatch m')
    × (call [] [] ≡ fault)
    × (call [] (passed (Arg.int32 7) ∷ marker_a ∷ []) ≡ fault)
    × (call [] (passed (Arg.double 7) ∷ marker_a ∷ []) ≡ fault)
lo_message_add_varargs_internal-Holds_example =
    let text : IsText (codes "on") = (omega arith, (omega arith, tt)) in
    lo_message_add_varargs_internal-Holds receiver (received receiver []) [] switch (codes "x") 7
      (marker_a ∷ []) (λ n. refl) (text, (tt, (omega arith, tt))) (received-Holds receiver [])
      (omega arith) (omega arith)
