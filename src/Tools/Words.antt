-- ===== src/Tools/Words.antt =====
-- What the words of a command line stand for in src/tools/oscsend.c.
use liblo.Base.{
  ℕ, suc, ◌≡◌, ◌∙◌, refl, sym, ap, ap₂, none, some, List, [], ◌∷◌, Bytes, arith, Option-cases, inl,
  inr, ◌↔◌,
}
use mathlib.Core.Option.{some-injective}
use liblo.Osc.{OscType, typechar, to_type, to_type-typechar}
use liblo.Argument.{Arg, type_of}
use liblo.Message.{Platform, Message, lo_message_new}
use liblo.Message.Values.{add_value, type_chars, Holds, lo_message_new-Holds}
use liblo.Message.Wire.{AllArgs}
use liblo.Message.RoundTrip.{AllAllocate}
use liblo.Message.Varargs.{flag_of, built, built-Holds}
use liblo.Tools.Reads.{IsReader, Reads, Reads-read_value, read_value-Reads}
use liblo.Tools.Oscsend.{
  Reader, read_int32, read_int64, read_float, read_double, read_midi, read_value, add_values,
  create_message,
}

-- The words `argv` are those of the arguments from the number `i` on: one that reads as the
-- argument for each that has a value, and others behind.
abbrev pub WordsFor : Reader → ℕ → List Arg → List Bytes → Type 0
WordsFor r i [] argv = Unit
WordsFor r i (a ∷ as_) argv = elim (flag_of (type_of a)) [
  | some _ ↦ WordsFor r (suc i) as_ argv
  | none ↦
      (arg : Bytes) × ((rest : List Bytes) × (argv ≡ arg ∷ rest)
        × Reads r i a arg
        × WordsFor r (suc i) as_ rest)
]

-- One round for a type without a value.
add_flag_round :
    (p : Platform) (r : Reader) (i c : ℕ) (types : Bytes) (argv : List Bytes) (m : Message)
    (t : OscType) (a : Arg)
    → to_type c ≡ some t
    → flag_of t ≡ some a
    → add_values p r i (c ∷ types) argv m ≡ add_values p r (suc i) types argv (add_value p m a).0
unfolding add_values
add_flag_round p r i c types argv m t a typed flag = rw (typed, add_values, flag) refl

add_word_round :
    (p : Platform) (r : Reader) (i c : ℕ) (types arg : Bytes) (rest : List Bytes) (m : Message)
    (t : OscType) (a : Arg)
    → to_type c ≡ some t
    → flag_of t ≡ none
    → read_value r i t arg ≡ some a
    → add_values p r i (c ∷ types) (arg ∷ rest) m
      ≡ add_values p r (suc i) types rest (add_value p m a).0
unfolding add_values
add_word_round p r i c types arg rest m t a typed flag read =
    rw (typed, add_values, flag, read) refl

-- The types without a value have one argument each.
flag_of_self : (a b : Arg) → flag_of (type_of a) ≡ some b → b ≡ a
unfolding flag_of type_of
flag_of_self (Arg.int32 n) b e = cc
flag_of_self _ b e = cc

flag_of-type_of : (t : OscType) (a : Arg) → flag_of t ≡ some a → type_of a ≡ t
unfolding flag_of type_of
flag_of-type_of OscType.int32 a e = cc
flag_of-type_of _ a e = cc

read_value-type_of :
    (r : Reader) (i : ℕ) (t : OscType) (arg : Bytes) (a : Arg)
    → read_value r i t arg ≡ some a
    → type_of a ≡ t
unfolding read_value read_int32 read_int64 read_float read_double read_midi type_of
read_value-type_of r i OscType.int32 arg a e = ground arith
read_value-type_of r i _ arg a e = ground arith

typechar-to_type : (c : ℕ) (t : OscType) → to_type c ≡ some t → c ≡ typechar t
unfolding to_type typechar
typechar-to_type c t e = ground arith

-- The loop over the types of arguments adds those that the words stand for.
pub add_values-WordsFor :
    (p : Platform) (r : Reader) (i : ℕ) (args : List Arg) (argv : List Bytes) (m : Message)
    → IsReader r
    → WordsFor r i args argv
    → add_values p r i (type_chars args) argv m ≡ some (built p m args)
unfolding type_chars built
add_values-WordsFor p r i [] argv m ok words = unfold add_values in refl
add_values-WordsFor p r i (a ∷ as_) argv m ok words = elim (Option-cases (flag_of (type_of a))) [
  | inr (b, flag) ↦
      let rest : WordsFor r (suc i) as_ argv = rw (flag, WordsFor) at words in
      add_flag_round p r i _ (type_chars as_) argv m (type_of a) b (to_type-typechar (type_of a))
        flag
      ∙ ap (λ x. add_values p r (suc i) (type_chars as_) argv (add_value p m x).0)
          (flag_of_self a b flag)
      ∙ add_values-WordsFor p r (suc i) as_ argv (add_value p m a).0 ok rest
  | inl flag ↦
      let (arg, (rest, shape, read, more)) = rw (flag, WordsFor) at words in
      ap (λ x. add_values p r i (type_chars (a ∷ as_)) x m) shape
      ∙ add_word_round p r i _ (type_chars as_) arg rest m (type_of a) a
          (to_type-typechar (type_of a)) flag (Reads-read_value r i a arg ok read)
      ∙ add_values-WordsFor p r (suc i) as_ rest (add_value p m a).0 ok more
]

-- What the loop has done where it ends.
record Added (p : Platform) (r : Reader) (i : ℕ) (types : Bytes) (argv : List Bytes)
    (m m' : Message) : Type 0 where
  args : List Arg
  types_are : types ≡ type_chars args
  words_are : WordsFor r i args argv
  built_is : m' ≡ built p m args

WordsFor-flag :
    (r : Reader) (i : ℕ) (a b : Arg) (as_ : List Arg) (argv : List Bytes)
    → flag_of (type_of a) ≡ some b
    → WordsFor r (suc i) as_ argv
    → WordsFor r i (a ∷ as_) argv
WordsFor-flag r i a b as_ argv flag words = rw (flag, WordsFor) words

WordsFor-word :
    (r : Reader) (i : ℕ) (a : Arg) (as_ : List Arg) (arg : Bytes) (rest : List Bytes)
    → flag_of (type_of a) ≡ none
    → Reads r i a arg
    → WordsFor r (suc i) as_ rest
    → WordsFor r i (a ∷ as_) (arg ∷ rest)
WordsFor-word r i a as_ arg rest flag read words =
    rw (flag, WordsFor) (arg, (rest, refl, read, words))

Added-flag :
    (p : Platform) (r : Reader) (i c : ℕ) (types : Bytes) (argv : List Bytes) (m m' : Message)
    (t : OscType) (a : Arg)
    → to_type c ≡ some t
    → flag_of t ≡ some a
    → Added p r (suc i) types argv (add_value p m a).0 m'
    → Added p r i (c ∷ types) argv m m'
unfolding type_chars built
Added-flag p r i c types argv m m' t a typed flag rest =
    let same : type_of a ≡ t = flag_of-type_of t a flag in
    let c_is : c ≡ typechar (type_of a) = typechar-to_type c t typed ∙ ap typechar (sym same) in
    record {
      args = a ∷ rest.args;
      types_are = ap₂ (λ x y. x ∷ y) c_is rest.types_are;
      words_are = WordsFor-flag r i a a rest.args argv (ap flag_of same ∙ flag) rest.words_are;
      built_is = rest.built_is;
    }

Added-word :
    (p : Platform) (r : Reader) (i c : ℕ) (types arg : Bytes) (argv : List Bytes) (m m' : Message)
    (t : OscType) (a : Arg)
    → IsReader r
    → to_type c ≡ some t
    → flag_of t ≡ none
    → read_value r i t arg ≡ some a
    → Added p r (suc i) types argv (add_value p m a).0 m'
    → Added p r i (c ∷ types) (arg ∷ argv) m m'
unfolding type_chars built
Added-word p r i c types arg argv m m' t a ok typed flag read rest =
    let same : type_of a ≡ t = read_value-type_of r i t arg a read in
    let c_is : c ≡ typechar (type_of a) = typechar-to_type c t typed ∙ ap typechar (sym same) in
    record {
      args = a ∷ rest.args;
      types_are = ap₂ (λ x y. x ∷ y) c_is rest.types_are;
      words_are =
          WordsFor-word r i a rest.args arg argv (ap flag_of same ∙ flag)
            (read_value-Reads r i a arg ok (ap (λ x. read_value r i x arg) same ∙ read))
            rest.words_are;
      built_is = rest.built_is;
    }

add_values-Added :
    (p : Platform) (r : Reader) (i : ℕ) (types : Bytes) (argv : List Bytes) (m m' : Message)
    → IsReader r
    → add_values p r i types argv m ≡ some m'
    → Added p r i types argv m m'
unfolding add_values type_chars built
add_values-Added p r i [] argv m m' ok e = record {
  args = [];
  types_are = refl;
  words_are = tt;
  built_is = sym (some-injective _ _ e);
}
add_values-Added p r i (c ∷ types) [] m m' ok e = elim (Option-cases (to_type c)) [
  | inl nothing ↦ absurd (cc (rw (nothing, add_values) at e))
  | inr (t, typed) ↦ elim (Option-cases (flag_of t)) [
    | inr (a, flag) ↦ Added-flag p r i c types [] m m' t a typed flag (
        add_values-Added p r (suc i) types [] (add_value p m a).0 m' ok
          (sym (add_flag_round p r i c types [] m t a typed flag) ∙ e))
    | inl flag ↦ absurd (cc (rw (typed, add_values, flag) at e))
  ]
]
add_values-Added p r i (c ∷ types) (arg ∷ argv) m m' ok e = elim (Option-cases (to_type c)) [
  | inl nothing ↦ absurd (cc (rw (nothing, add_values) at e))
  | inr (t, typed) ↦ elim (Option-cases (flag_of t)) [
    | inr (a, flag) ↦ Added-flag p r i c types (arg ∷ argv) m m' t a typed flag (
        add_values-Added p r (suc i) types (arg ∷ argv) (add_value p m a).0 m' ok
          (sym (add_flag_round p r i c types (arg ∷ argv) m t a typed flag) ∙ e))
    | inl flag ↦ elim (Option-cases (read_value r i t arg)) [
      | inl nothing ↦ absurd (cc (rw (typed, add_values, flag, nothing) at e))
      | inr (a, read) ↦ Added-word p r i c types arg argv m m' t a ok typed flag read (
          add_values-Added p r (suc i) types argv (add_value p m a).0 m' ok
            (sym (add_word_round p r i c types arg argv m t a typed flag read) ∙ e))
    ]
  ]
]

-- Over a C library whose numbers have the sizes of their types,
-- create_message makes a message of types and words exactly where the types are those of some
-- arguments and the words, in their order, are read as the values of those that have one; words behind them do
-- not matter. The message is an empty one to which these arguments are added, one by one; while
-- memory lasts, and where the arguments are ones that a message can have, it holds just them.
pub create_message_iff :
    (p : Platform) (r : Reader) (types : Bytes) (argv : List Bytes) (m : Message)
    → AllAllocate p
    → IsReader r
    → ((create_message p r (types ∷ argv) ≡ some m) ↔ (
        (args : List Arg) × (types ≡ type_chars args)
        × WordsFor r 0 args argv
        × (m ≡ built p lo_message_new args)))
      × ((args : List Arg) → AllArgs args → Holds p.big (built p lo_message_new args) args)
unfolding create_message
create_message_iff p r types argv m alloc ok = (
  (
    λ e.
        let a = add_values-Added p r 0 types argv lo_message_new m ok e in
        (a.args, a.types_are, a.words_are, a.built_is),
    λ (args, shape, words, is_built).
        ap (λ t. add_values p r 0 t argv lo_message_new) shape
        ∙ add_values-WordsFor p r 0 args argv lo_message_new ok words
        ∙ ap some (sym is_built),
  ),
  λ args valid. built-Holds p lo_message_new [] args alloc valid (lo_message_new-Holds p.big),
)
