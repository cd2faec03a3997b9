-- ===== src/Message/Values.antt =====
-- What the lo_message_add functions build: the message that stands for a list of arguments.
use liblo.Base.{
  ℕ, ◌+◌, ◌≡◌, ◌∙◌, refl, sym, ap, ap₂, Bool, true, List, [], ◌∷◌, ◌++◌, Bytes, length, take, drop,
  fresh, length-fresh, arith, length-append, append_assoc, append-nil, take-append_self,
  drop-append_self,
}
use liblo.Osc.{OscType, typechar, store32, length-store32}
use liblo.Argument.{
  length-store64, Arg, IsArg, type_of, host_bytes, lo_blobsize_small, length-blob_bytes,
}
use liblo.Message.State.{
  Platform, Message, lo_message_new, lo_message_add_data, lo_message_add_typechar,
}
use liblo.Message.Build.{
  add_arg, add_flag, lo_message_add_int32, lo_message_add_float, lo_message_add_string,
  lo_message_add_blob, lo_message_add_int64, lo_message_add_timetag, lo_message_add_double,
  lo_message_add_symbol, lo_message_add_char, lo_message_add_midi, lo_message_add_true,
  lo_message_add_false, lo_message_add_nil, lo_message_add_infinitum,
}
use liblo.Message.Fills.{
  Fills, overwrite-Fills, strncpy-Fills, two_parts-Fills, length-padded_strsize, char-Fills,
  blobsize-Fills,
}

-- The `switch` of lo_message_add_varargs_internal: the function for each type.
unfoldable pub add_value : Platform → Message → Arg → Message × Bool
add_value p m (Arg.int32 n) = lo_message_add_int32 p m n
add_value p m (Arg.float n) = lo_message_add_float p m n
add_value p m (Arg.int64 n) = lo_message_add_int64 p m n
add_value p m (Arg.double n) = lo_message_add_double p m n
add_value p m (Arg.string s) = lo_message_add_string p m s
add_value p m (Arg.symbol s) = lo_message_add_symbol p m s
add_value p m (Arg.blob bs) = lo_message_add_blob p m bs
add_value p m (Arg.timetag sec frac) = lo_message_add_timetag p m sec frac
add_value p m (Arg.char c) = lo_message_add_char p m c
add_value p m (Arg.midi a b c d) = lo_message_add_midi p m a b c d
add_value p m Arg.true_ = lo_message_add_true p m
add_value p m Arg.false_ = lo_message_add_false p m
add_value p m Arg.nil = lo_message_add_nil p m
add_value p m Arg.infinitum = lo_message_add_infinitum p m

unfoldable pub host_data : Bool → List Arg → Bytes
host_data big [] = []
host_data big (a ∷ as_) = host_bytes big a ++ host_data big as_

unfoldable pub type_chars : List Arg → Bytes
type_chars [] = []
type_chars (a ∷ as_) = typechar (type_of a) ∷ type_chars as_

-- The message holds exactly these arguments, and its lengths are those of its buffers.
pub record Holds (big : Bool) (m : Message) (args : List Arg) : Type 0 where
  pub types_are : m.types ≡ b',' ∷ type_chars args
  pub data_are : m.data_bytes ≡ host_data big args
  pub typelen_is : m.typelen ≡ length m.types
  pub datalen_is : m.datalen ≡ length m.data_bytes

pub lo_message_new-Holds : (big : Bool) → Holds big lo_message_new []
unfolding lo_message_new type_chars host_data
lo_message_new-Holds big = record {
  types_are = refl;
  data_are = refl;
  typelen_is = refl;
  datalen_is = refl;
}

type_chars_snoc :
    (xs : List Arg) (a : Arg)
    → type_chars (xs ++ a ∷ []) ≡ type_chars xs ++ typechar (type_of a) ∷ []
unfolding type_chars
type_chars_snoc [] a = refl
type_chars_snoc (x ∷ xs) a = ap (λ t. typechar (type_of x) ∷ t) (type_chars_snoc xs a)

host_data_snoc :
    (big : Bool) (xs : List Arg) (a : Arg)
    → host_data big (xs ++ a ∷ []) ≡ host_data big xs ++ host_bytes big a
unfolding host_data
host_data_snoc big [] a = append-nil (host_bytes big a)
host_data_snoc big (x ∷ xs) a =
    ap (λ t. host_bytes big x ++ t) (host_data_snoc big xs a)
    ∙ sym (append_assoc (host_bytes big x) (host_data big xs) (host_bytes big a))

-- A function that returns 0 has appended the typechar, and stored into the room behind the data.
record Appends (p : Platform) (m m' : Message) (t : OscType) (s : ℕ) (store : Bytes → Bytes)
    : Type 0 where
  types_after : m'.types ≡ m.types ++ typechar t ∷ []
  data_after :
      m'.data_bytes
      ≡ take m.datalen (m.data_bytes ++ fresh p.junk s)
        ++ store (drop m.datalen (m.data_bytes ++ fresh p.junk s))
  typelen_after : m'.typelen ≡ m.typelen + 1
  datalen_after : m'.datalen ≡ m.datalen + s

add_arg-Appends :
    (p : Platform) (m : Message) (t : OscType) (s : ℕ) (store : Bytes → Bytes)
    → (add_arg p m t s store).1 ≡ true
    → Appends p m (add_arg p m t s store).0 t s store
unfolding add_arg lo_message_add_data lo_message_add_typechar
add_arg-Appends p m t s store done = ground arith

add_arg-Holds :
    (p : Platform) (m : Message) (args : List Arg) (a : Arg) (s : ℕ) (store : Bytes → Bytes)
    → Holds p.big m args
    → Fills (host_bytes p.big a) s store
    → length (host_bytes p.big a) ≡ s
    → (add_arg p m (type_of a) s store).1 ≡ true
    → Holds p.big (add_arg p m (type_of a) s store).0 (args ++ a ∷ [])
add_arg-Holds p m args a s store h fills size done =
    let u = add_arg-Appends p m (type_of a) s store done in
    let d = m.data_bytes in
    let front : take m.datalen (d ++ fresh p.junk s) ≡ d =
      ap (λ k. take k (d ++ fresh p.junk s)) h.datalen_is ∙ take-append_self d _ in
    let back : drop m.datalen (d ++ fresh p.junk s) ≡ fresh p.junk s =
      ap (λ k. drop k (d ++ fresh p.junk s)) h.datalen_is ∙ drop-append_self d _ in
    let stored : store (drop m.datalen (d ++ fresh p.junk s)) ≡ host_bytes p.big a =
      ap store back ∙ fills (fresh p.junk s) (length-fresh p.junk s) in
    let data_now : (add_arg p m (type_of a) s store).0.data_bytes ≡ d ++ host_bytes p.big a =
      u.data_after ∙ ap₂ ◌++◌ front stored in
    record {
      types_are =
          u.types_after
          ∙ ap (λ t. t ++ typechar (type_of a) ∷ []) h.types_are
          ∙ ap (λ t. b',' ∷ t) (sym (type_chars_snoc args a));
      data_are =
          data_now
          ∙ ap (λ t. t ++ host_bytes p.big a) h.data_are
          ∙ sym (host_data_snoc p.big args a);
      typelen_is = omega (
        arith,
        h.typelen_is,
        ap length u.types_after,
        u.typelen_after,
        length-append m.types (typechar (type_of a) ∷ []),
      );
      datalen_is = omega (
        arith,
        h.datalen_is,
        ap length data_now,
        u.datalen_after,
        length-append d (host_bytes p.big a),
      );
    }

add_flag-Holds :
    (p : Platform) (m : Message) (args : List Arg) (a : Arg)
    → Holds p.big m args
    → host_bytes p.big a ≡ []
    → (add_flag p m (type_of a)).1 ≡ true
    → Holds p.big (add_flag p m (type_of a)).0 (args ++ a ∷ [])
unfolding add_flag lo_message_add_typechar
add_flag-Holds p m args a h empty done = record {
  types_are = ground (arith, type_chars_snoc args a);
  data_are =
      let same : (add_flag p m (type_of a)).0.data_bytes ≡ m.data_bytes = ground arith in
      same
      ∙ h.data_are
      ∙ sym
          (host_data_snoc p.big args a ∙ ap (λ t. host_data p.big args ++ t) empty ∙ append-nil _);
  typelen_is = ground (arith, length-append m.types (typechar (type_of a) ∷ []));
  datalen_is = ground arith;
}

-- A lo_message_add function that returns 0 has added its argument at the end of the message.
pub add_value-Holds :
    (p : Platform) (m : Message) (args : List Arg) (a : Arg)
    → IsArg a
    → Holds p.big m args
    → (add_value p m a).1 ≡ true
    → Holds p.big (add_value p m a).0 (args ++ a ∷ [])
unfolding add_value lo_message_add_int32 lo_message_add_float lo_message_add_string
    lo_message_add_blob lo_message_add_int64 lo_message_add_timetag lo_message_add_double
    lo_message_add_symbol lo_message_add_char lo_message_add_midi lo_message_add_true
    lo_message_add_false lo_message_add_nil lo_message_add_infinitum host_bytes type_of
add_value-Holds p m args (Arg.int32 n) v h done =
    add_arg-Holds p m args (Arg.int32 n) 4 _ h (overwrite-Fills _ 4 (length-store32 p.big n))
      (length-store32 p.big n) done
add_value-Holds p m args (Arg.float n) v h done =
    add_arg-Holds p m args (Arg.float n) 4 _ h (overwrite-Fills _ 4 (length-store32 p.big n))
      (length-store32 p.big n) done
add_value-Holds p m args (Arg.int64 n) v h done =
    add_arg-Holds p m args (Arg.int64 n) 8 _ h (overwrite-Fills _ 8 (length-store64 p.big n))
      (length-store64 p.big n) done
add_value-Holds p m args (Arg.double n) v h done =
    add_arg-Holds p m args (Arg.double n) 8 _ h (overwrite-Fills _ 8 (length-store64 p.big n))
      (length-store64 p.big n) done
add_value-Holds p m args (Arg.string s) v h done =
    add_arg-Holds p m args (Arg.string s) _ _ h (strncpy-Fills p s v) (length-padded_strsize s v)
      done
add_value-Holds p m args (Arg.symbol s) v h done =
    add_arg-Holds p m args (Arg.symbol s) _ _ h (strncpy-Fills p s v) (length-padded_strsize s v)
      done
add_value-Holds p m args (Arg.blob bs) v h done =
    add_arg-Holds p m args (Arg.blob bs) _ _ h
      (blobsize-Fills _ bs (length-store32 p.big (length bs)) v)
      (length-blob_bytes p.big bs ∙ sym (lo_blobsize_small (length bs) v)) done
add_value-Holds p m args (Arg.timetag sec frac) v h done =
    add_arg-Holds p m args (Arg.timetag sec frac) 8 _ h
      (two_parts-Fills _ _ 8 (length-store32 p.big sec) (omega (arith, length-store32 p.big frac)))
      (length-append (store32 p.big sec) (store32 p.big frac)
        ∙ omega (arith, length-store32 p.big sec, length-store32 p.big frac))
      done
add_value-Holds p m args (Arg.char c) v h done =
    add_arg-Holds p m args (Arg.char c) 4 _ h (char-Fills p.big c) refl done
add_value-Holds p m args (Arg.midi a b c d) v h done =
    add_arg-Holds p m args (Arg.midi a b c d) 4 _ h (overwrite-Fills _ 4 refl) refl done
add_value-Holds p m args Arg.true_ v h done = add_flag-Holds p m args Arg.true_ h refl done
add_value-Holds p m args Arg.false_ v h done = add_flag-Holds p m args Arg.false_ h refl done
add_value-Holds p m args Arg.nil v h done = add_flag-Holds p m args Arg.nil h refl done
add_value-Holds p m args Arg.infinitum v h done = add_flag-Holds p m args Arg.infinitum h refl done
