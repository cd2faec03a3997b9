-- ===== src/Send/Calls.antt =====
-- lo_send, lo_send_timestamped and lo_send_from of src/send.c: a message from the arguments of a
-- call, sent by itself or in a bundle.
use liblo.Base.{ℕ, ◌-◌, ◌^◌, ◌≡◌, refl, sym, subst, some, List, [], ◌∷◌, ◌++◌, Bytes, if◌then◌else◌}
use liblo.Osc.Padding.{IsText}
use liblo.Timetag.{Timetag, is_immediate}
use liblo.Argument.{Arg}
use liblo.Message.{Platform, Message, lo_message_new}
use liblo.Message.Values.{lo_message_new-Holds, type_chars, Holds}
use liblo.Message.Wire.{AllArgs, message_bytes, lo_message_serialise-none}
use liblo.Message.RoundTrip.{AllAllocate}
use liblo.Message.Varargs.{
  VarArg, marker_a, marker_b, Code, completed, unknown_type, mismatch, ended, fault, built,
  all_passed, lo_message_add_varargs_internal, built-Holds, fitting_call,
}
use liblo.Bundle.{Heap, lo_bundle_new, added, no_memory, lo_bundle_add_message}
use liblo.Send.Data.{Network, Link, Sent, set_errnum, lo_send_message_from, lo_send_bundle_from}
use liblo.Send.Keeps.{IsWhole, IsPlainTcp, IsClean}
use liblo.Send.Stream.{Delivered, lo_send_message_from-Delivered}

-- What a call returns: that of sending, a code for the arguments, or nothing that C defines.
pub data Answer : Type 0 where
  sending : Sent → Answer
  refused : Code → Answer
  undefined : Answer

-- The 32 bits of the results 0, -1 and -2.
unfoldable pub code_bits : Code → ℕ
code_bits completed = 0
code_bits unknown_type = 2 ^ 32 - 1
code_bits mismatch = 2 ^ 32 - 2

unfoldable pub answer_of : Sent × Link → Answer × Link
answer_of (s, l) = (sending s, l)

-- The message of a call, to `path` by itself.
unfoldable pub lo_send_varargs_internal :
    Platform → Network → Bytes → Bytes → List VarArg → Link → Answer × Link
lo_send_varargs_internal p net path types ap_ l =
    elim (lo_message_add_varargs_internal p lo_message_new types ap_) [
      | fault ↦ (undefined, l)
      | ended completed m ↦ answer_of (lo_send_message_from p.big net path m (set_errnum 0 l))
      | ended ret m ↦ (refused ret, set_errnum (code_bits ret) l)
    ]

-- The bundle of one message, on a heap with nothing else: the bundle is number 0 and so is the
-- message. It is one bundle deep. That the message cannot be added is not looked at.
unfoldable pub alone : Timetag → Message → Heap
alone ts m = record { bundles = λ b. lo_bundle_new ts; messages = λ i. m }

unfoldable pub send_alone : Platform → Network → Bytes → Timetag → Message → Link → Answer × Link
send_alone p net path ts m l = elim (lo_bundle_add_message p 1 (alone ts m) 0 path (some 0)) [
  | added h ↦ answer_of (lo_send_bundle_from p.big net h 1 0 l)
  | no_memory ↦ answer_of (lo_send_bundle_from p.big net (alone ts m) 1 0 l)
  | _ ↦ (undefined, l)
]

-- A failure of the arguments is only returned.
unfoldable pub lo_send_timestamped_varargs_internal :
    Platform → Network → Timetag → Bytes → Bytes → List VarArg → Link → Answer × Link
lo_send_timestamped_varargs_internal p net ts path types ap_ l =
    elim (lo_message_add_varargs_internal p lo_message_new types ap_) [
      | fault ↦ (undefined, l)
      | ended completed m ↦ send_alone p net path ts m (set_errnum 0 l)
      | ended ret m ↦ (refused ret, set_errnum 0 l)
    ]

unfoldable pub lo_send_from_varargs_internal :
    Platform → Network → Timetag → Bytes → Bytes → List VarArg → Link → Answer × Link
lo_send_from_varargs_internal p net ts path types ap_ l =
    elim (lo_message_add_varargs_internal p lo_message_new types ap_) [
      | fault ↦ (undefined, l)
      | ended completed m ↦
          if is_immediate ts
          then answer_of (lo_send_message_from p.big net path m (set_errnum 0 l))
          else send_alone p net path ts m (set_errnum 0 l)
      | ended ret m ↦ (refused ret, set_errnum 0 l)
    ]

-- What has become of the bytes `d`.
abbrev pub Arrived : Bytes → Answer × Link → Type 0
Arrived d (sending s, l) = Delivered d (s, l)
Arrived d (refused ret, l) = ⊥
Arrived d (undefined, l) = ⊥

sent-Arrived : (d : Bytes) (r : Sent × Link) → Delivered d r → Arrived d (answer_of r)
unfolding answer_of
sent-Arrived d (s, l) h = h

-- The answer to a call whose arguments fit the types.
send_completed :
    (p : Platform) (net : Network) (path types : Bytes) (ap_ : List VarArg) (m : Message) (l : Link)
    → lo_message_add_varargs_internal p lo_message_new types ap_ ≡ ended completed m
    → lo_send_varargs_internal p net path types ap_ l
      ≡ answer_of (lo_send_message_from p.big net path m (set_errnum 0 l))
unfolding lo_send_varargs_internal
send_completed p net path types ap_ m l e = rw (e, lo_send_varargs_internal) refl

set_errnum-keeps :
    (e : ℕ) (l : Link)
    → IsPlainTcp l
    → IsClean l
    → IsPlainTcp (set_errnum e l) × IsClean (set_errnum e l)
unfolding set_errnum
set_errnum-keeps e l t clean = (record { is_tcp = t.is_tcp; no_slip = t.no_slip }, clean)

-- A call of lo_send with arguments that fit the types and the markers behind them, while memory
-- lasts, on a stream without SLIP that is not connected or has carried whole messages, where a call of
-- send that does not fail takes all its bytes, whatever else the system answers: if it succeeds, the stream has carried whole messages, of which the last is the
-- OSC message of the path and the arguments, and the result is its length; otherwise there is no
-- connection, or it has carried whole messages.
pub lo_send_varargs_internal-Arrived :
    (p : Platform) (net : Network) (path : Bytes) (args : List Arg) (l : Link)
    → AllAllocate p
    → AllArgs args
    → IsText path
    → IsWhole net
    → IsPlainTcp l
    → IsClean l
    → Arrived (message_bytes p.big path args) (
        lo_send_varargs_internal p net path
          (type_chars args)
          (all_passed args ++ marker_a ∷ marker_b ∷ [])
          l)
lo_send_varargs_internal-Arrived p net path args l alloc valid text whole t clean =
    let m = built p lo_message_new args in
    let held : Holds p.big m args =
      built-Holds p lo_message_new [] args alloc valid (lo_message_new-Holds p.big) in
    let (t', clean') = set_errnum-keeps 0 l t clean in
    let r = lo_send_message_from p.big net path m (set_errnum 0 l) in
    let delivered : Delivered (message_bytes p.big path args) r =
      subst (λ d. Delivered d r) (lo_message_serialise-none p.big m path args held valid text)
        (lo_send_message_from-Delivered p.big net path m (set_errnum 0 l) whole t' clean') in
    subst (Arrived (message_bytes p.big path args))
      (sym (send_completed p net path _ _ m l (fitting_call p lo_message_new args [])))
      (sent-Arrived _ r delivered)
