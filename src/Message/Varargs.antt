-- ===== src/Message/Varargs.antt =====
-- lo_message_add_varargs_internal of src/message.c: the arguments of a call by the type string,
-- and the markers behind them.
use liblo.Base.{
  ℕ, ◌%◌, ◌^◌, ◌≡◌, ◌≢◌, ◌∙◌, refl, sym, ap, subst, Bool, true, false, ◌&&◌, Option, none, some,
  List, [], ◌∷◌, ◌++◌, Bytes, codes, ◌==◌, if◌then◌else◌, arith, append_assoc, append-nil,
  Option-cases, inl, inr,
}
use liblo.Osc.{OscType, typechar, to_type}
use liblo.Argument.{Arg, type_of}
use liblo.Message.State.{
  Platform, Message, grown_datasize, grown_typesize, lo_message_add_data, lo_message_add_typechar,
}
use liblo.Message.Build.{
  add_arg, add_flag, lo_message_add_int32, lo_message_add_float, lo_message_add_string,
  lo_message_add_blob, lo_message_add_int64, lo_message_add_timetag, lo_message_add_double,
  lo_message_add_symbol, lo_message_add_char, lo_message_add_midi, lo_message_add_true,
  lo_message_add_false, lo_message_add_nil, lo_message_add_infinitum,
}
use liblo.Message.Values.{add_value, type_chars, Holds, add_value-Holds}
use liblo.Message.Wire.{AllArgs}
use liblo.Message.RoundTrip.{AllAllocate}

-- What stands in the argument list: a value of the C type that goes with a typechar, LO_MARKER_A
-- or LO_MARKER_B.
pub data VarArg : Type 0 where
  passed : Arg → VarArg
  marker_a marker_b : VarArg

-- The results 0, -1 and -2.
pub data Code : Type 0 where
  completed unknown_type mismatch : Code

-- The result, and the message as it is then. `fault` is an argument that is read as another type
-- than it has, a marker that is used as a string, or a read behind the last argument.
pub data Added : Type 0 where
  ended : Code → Message → Added
  fault : Added

-- The `switch` for one typechar: the message and the arguments that are left, or why not.
pub data Step : Type 0 where
  went_on : Message → List VarArg → Step
  unknown stopped broken : Step

-- The types without an argument.
unfoldable pub flag_of : OscType → Option Arg
flag_of OscType.true_ = some Arg.true_
flag_of OscType.false_ = some Arg.false_
flag_of OscType.nil = some Arg.nil
flag_of OscType.infinitum = some Arg.infinitum
flag_of _ = none

unfoldable pub take_value : Platform → Message → ℕ → List VarArg → Step
take_value p m c [] = broken
take_value p m c (passed a ∷ ap_) =
    if typechar (type_of a) == c then went_on (add_value p m a).0 ap_ else broken
take_value p m c (marker_a ∷ ap_) = if c == b'S' then stopped else broken
take_value p m c (marker_b ∷ ap_) = broken

-- What the lo_message_add functions return is not looked at.
unfoldable pub add_one : Platform → Message → ℕ → List VarArg → Step
add_one p m c ap_ = elim (to_type c) [
  | none ↦ unknown
  | some t ↦ elim (flag_of t) [
    | some a ↦ went_on (add_value p m a).0 ap_
    | none ↦ take_value p m c ap_
  ]
]

-- The low 32 bits of `va_arg(ap, void *)`. C defines it for the markers and for the arguments that
-- are passed as pointers to bytes; `none` where it does not.
unfoldable pub low_word : Platform → VarArg → Option ℕ
low_word p marker_a = some 0xdeadbeef
low_word p marker_b = some 0xf00baa23
low_word p (passed (Arg.string s)) = some (p.pointer s % 2 ^ 32)
low_word p (passed (Arg.symbol s)) = some (p.pointer s % 2 ^ 32)
low_word p (passed (Arg.blob bs)) = some (p.pointer bs % 2 ^ 32)
low_word p (passed (Arg.midi a b c d)) = some (p.pointer (a ∷ b ∷ c ∷ d ∷ []) % 2 ^ 32)
low_word p (passed _) = none

unfoldable pub check_marker_b : Platform → Message → Code → List VarArg → Added
check_marker_b p m ret [] = fault
check_marker_b p m ret (i ∷ ap_) = elim (low_word p i) [
  | none ↦ fault
  | some word ↦ if word == 0xf00baa23 then ended ret m else ended mismatch m
]

unfoldable pub check_markers : Platform → Message → Code → List VarArg → Added
check_markers p m ret [] = fault
check_markers p m ret (i ∷ ap_) = elim (low_word p i) [
  | none ↦ fault
  | some word ↦ if word == 0xdeadbeef then check_marker_b p m ret ap_ else ended mismatch m
]

unfoldable pub begins_dollar : Bytes → Bool
begins_dollar [] = false
begins_dollar (c ∷ types) = c == b'$'

-- The loop over the types.
unfoldable pub add_types : Platform → Message → Bytes → List VarArg → Code → Added
add_types p m [] ap_ ret = check_markers p m ret ap_
add_types p m (c ∷ types) ap_ ret = elim (add_one p m c ap_) [
  | went_on m' rest ↦ add_types p m' types rest ret
  | unknown ↦
      let rest = add_types p m types ap_ unknown_type in
      if c == b'$' && begins_dollar types then ended completed m else rest
  | stopped ↦ ended mismatch m
  | broken ↦ fault
]

-- `types` is not NULL, which counts as empty.
unfoldable pub lo_message_add_varargs_internal : Platform → Message → Bytes → List VarArg → Added
lo_message_add_varargs_internal p m types ap_ = add_types p m types ap_ completed

-- What the caller passes for an argument.
abbrev pub passed_for : Arg → List VarArg
passed_for a = elim (flag_of (type_of a)) [ none ↦ passed a ∷ [] | some _ ↦ [] ]

unfoldable pub all_passed : List Arg → List VarArg
all_passed [] = []
all_passed (a ∷ as_) = passed_for a ++ all_passed as_

add_data-some :
    (p : Platform) (m : Message) (s : ℕ)
    → AllAllocate p
    → (m' : Message) × (lo_message_add_data p m s ≡ some m')
unfolding lo_message_add_data
add_data-some p m s alloc = rw (alloc (grown_datasize p m s)) (_, refl)

add_typechar-some :
    (p : Platform) (m : Message) (t : ℕ)
    → AllAllocate p
    → (m' : Message) × (lo_message_add_typechar p m t ≡ some m')
unfolding lo_message_add_typechar
add_typechar-some p m t alloc = elim (Option-cases (lo_message_add_typechar p m t)) [
  | inl e ↦ absurd (ground (arith, e, alloc (grown_typesize p m)))
  | inr found ↦ found
]

add_arg-done :
    (p : Platform) (m : Message) (t : OscType) (s : ℕ) (store : Bytes → Bytes)
    → AllAllocate p
    → (add_arg p m t s store).1 ≡ true
unfolding add_arg
add_arg-done p m t s store alloc =
    let (m1, e1) = add_data-some p m s alloc in
    let (m2, e2) = add_typechar-some p m1 (typechar t) alloc in rw (e1, add_arg, e2) refl

add_flag-done :
    (p : Platform) (m : Message) (t : OscType) → AllAllocate p → (add_flag p m t).1 ≡ true
unfolding add_flag lo_message_add_typechar
add_flag-done p m t alloc = ground (arith, alloc (grown_typesize p m))

add_value-done : (p : Platform) (m : Message) (a : Arg) → AllAllocate p → (add_value p m a).1 ≡ true
unfolding add_value lo_message_add_int32 lo_message_add_float lo_message_add_string
    lo_message_add_blob lo_message_add_int64 lo_message_add_timetag lo_message_add_double
    lo_message_add_symbol lo_message_add_char lo_message_add_midi lo_message_add_true
    lo_message_add_false lo_message_add_nil lo_message_add_infinitum
add_value-done p m Arg.true_ alloc = add_flag-done p m _ alloc
add_value-done p m Arg.false_ alloc = add_flag-done p m _ alloc
add_value-done p m Arg.nil alloc = add_flag-done p m _ alloc
add_value-done p m Arg.infinitum alloc = add_flag-done p m _ alloc
add_value-done p m _ alloc = add_arg-done p m _ _ _ alloc

add_one-passed :
    (p : Platform) (m : Message) (a : Arg) (rest : List VarArg)
    → add_one p m (typechar (type_of a)) (passed_for a ++ rest) ≡ went_on (add_value p m a).0 rest
unfolding add_one take_value flag_of type_of typechar to_type
add_one-passed p m (Arg.int32 n) rest = refl
add_one-passed p m _ rest = refl

add_types_step :
    (p : Platform) (m m' : Message) (c : ℕ) (types : Bytes) (ap_ rest : List VarArg) (ret : Code)
    → add_one p m c ap_ ≡ went_on m' rest
    → add_types p m (c ∷ types) ap_ ret ≡ add_types p m' types rest ret
unfolding add_types
add_types_step p m m' c types ap_ rest ret e = rw (e, add_types) refl

-- The message with the arguments added one by one.
unfoldable pub built : Platform → Message → List Arg → Message
built p m [] = m
built p m (a ∷ as_) = built p (add_value p m a).0 as_

pub built-Holds :
    (p : Platform) (m : Message) (xs args : List Arg)
    → AllAllocate p
    → AllArgs args
    → Holds p.big m xs
    → Holds p.big (built p m args) (xs ++ args)
unfolding built
built-Holds p m xs [] alloc valid h = subst (Holds p.big m) (sym (append-nil xs)) h
built-Holds p m xs (a ∷ as_) alloc valid h =
    let held = add_value-Holds p m xs a valid.0 h (add_value-done p m a alloc) in
    subst (Holds p.big (built p (add_value p m a).0 as_)) (append_assoc xs (a ∷ []) as_)
      (built-Holds p (add_value p m a).0 (xs ++ a ∷ []) as_ alloc valid.1 held)

-- The loop over the types of arguments that are passed adds them.
add_types-passed :
    (p : Platform) (m : Message) (args : List Arg) (types : Bytes) (rest : List VarArg) (ret : Code)
    → add_types p m (type_chars args ++ types) (all_passed args ++ rest) ret
      ≡ add_types p (built p m args) types rest ret
unfolding all_passed type_chars built
add_types-passed p m [] types rest ret = refl
add_types-passed p m (a ∷ as_) types rest ret =
    let m1 = (add_value p m a).0 in
    let tail = all_passed as_ ++ rest in
    ap (λ t. add_types p m (typechar (type_of a) ∷ (type_chars as_ ++ types)) t ret)
      (append_assoc (passed_for a) (all_passed as_) rest)
    ∙ add_types_step p m m1 _ _ _ tail ret (add_one-passed p m a tail)
    ∙ add_types-passed p m1 as_ types rest ret

-- A call with arguments that fit its types and the markers behind them.
pub fitting_call :
    (p : Platform) (m : Message) (args : List Arg) (rest : List VarArg)
    → lo_message_add_varargs_internal p m
        (type_chars args)
        (all_passed args ++ marker_a ∷ marker_b ∷ rest)
      ≡ ended completed (built p m args)
unfolding lo_message_add_varargs_internal add_types check_markers check_marker_b low_word
fitting_call p m args rest =
    ap (λ t. add_types p m t (all_passed args ++ marker_a ∷ marker_b ∷ rest) completed)
      (sym (append-nil (type_chars args)))
    ∙ add_types-passed p m args [] (marker_a ∷ marker_b ∷ rest) completed

-- A string in the place of the first marker.
string_first :
    (p : Platform) (m : Message) (s : Bytes) (rest : List VarArg)
    → (p.pointer s % 2 ^ 32) ≢ 0xdeadbeef
    → check_markers p m completed (passed (Arg.string s) ∷ rest) ≡ ended mismatch m
unfolding check_markers low_word
string_first p m s rest other = ground arith

string_second :
    (p : Platform) (m : Message) (s : Bytes) (rest : List VarArg)
    → (p.pointer s % 2 ^ 32) ≢ 0xf00baa23
    → check_markers p m completed (marker_a ∷ passed (Arg.string s) ∷ rest) ≡ ended mismatch m
unfolding check_markers check_marker_b low_word
string_second p m s rest other = ground arith

-- While memory lasts, a call with the types of some arguments, the arguments and the two markers
-- returns 0, with the arguments added to the message in their order; with "$$" behind the types it
-- returns 0 whatever follows the arguments, with the same message. With a string in the place of one
-- of the markers it returns -2, with the same message, if the low 32 bits of the string's address are
-- not those of that marker; and without the markers, or with a number in their place, the call reads
-- what C does not define.
pub lo_message_add_varargs_internal-Holds :
    (p : Platform) (m : Message) (xs args : List Arg) (s : Bytes) (n : ℕ) (rest : List VarArg)
    → AllAllocate p
    → AllArgs args
    → Holds p.big m xs
    → (p.pointer s % 2 ^ 32) ≢ 0xdeadbeef
    → (p.pointer s % 2 ^ 32) ≢ 0xf00baa23
    → let m' = built p m args in
      let call = λ (types : Bytes) (more : List VarArg).
        lo_message_add_varargs_internal p m (type_chars args ++ types) (all_passed args ++ more) in
      Holds p.big m' (xs ++ args)
      × (call [] (marker_a ∷ marker_b ∷ rest) ≡ ended completed m')
      × (call (codes "$$") rest ≡ ended completed m')
      × (call [] (passed (Arg.string s) ∷ rest) ≡ ended mismatch m')
      × (call [] (marker_a ∷ passed (Arg.string s) ∷ rest) ≡ ended mismatch m')
      × (call [] [] ≡ fault)
      × (call [] (passed (Arg.int32 n) ∷ rest) ≡ fault)
      × (call [] (passed (Arg.double n) ∷ rest) ≡ fault)
unfolding lo_message_add_varargs_internal check_markers check_marker_b low_word add_types add_one
    to_type begins_dollar
lo_message_add_varargs_internal-Holds p m xs args s n rest alloc valid h other_a other_b =
    let m' = built p m args in
    let types = λ (more : List VarArg). add_types-passed p m args [] more completed in
    (
      built-Holds p m xs args alloc valid h,
      types (marker_a ∷ marker_b ∷ rest),
      add_types-passed p m args (codes "$$") rest completed,
      types (passed (Arg.string s) ∷ rest) ∙ string_first p m' s rest other_a,
      types (marker_a ∷ passed (Arg.string s) ∷ rest) ∙ string_second p m' s rest other_b,
      types [],
      types (passed (Arg.int32 n) ∷ rest),
      types (passed (Arg.double n) ∷ rest),
    )
