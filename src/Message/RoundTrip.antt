-- ===== src/Message/RoundTrip.antt =====
-- lo_message_deserialise on what lo_message_serialise produces.
use liblo.Base.{
  ℕ, ◌+◌, ◌-◌, ◌*◌, ◌/◌, ◌<◌, ◌≡◌, ◌∙◌, refl, sym, ap, Bool, false, true, none, some, Option, List,
  [], ◌∷◌, ◌++◌, Bytes, length, take, drop, arith, take-append_self, drop-append_self,
  length-append, ok, if◌then◌else◌, ◌==◌,
}
use liblo.Osc.{typechar, c_string}
use liblo.Osc.Padding.{IsText, padded, length-padded, c_string-padded}
use liblo.Argument.{
  Arg, type_of, host_bytes, wire_bytes, length-wire_bytes, lo_arg_host_endian-wire,
  lo_validate_arg-wire,
}
use liblo.Timetag.{immediate}
use liblo.Validate.{lo_validate_string-padded}
use liblo.Message.State.{Platform, Message}
use liblo.Message.Values.{Holds, host_data, type_chars}
use liblo.Message.Serialise.{
  args_loop, read_args, lo_message_deserialise, first_byte, lo_message_serialise,
}
use liblo.Message.Wire.{
  wire_data, AllArgs, message_bytes, type_chars-IsText, lo_message_serialise-none,
}

-- Where each argument begins in the data from offset `off` on; `none` for one without data.
unfoldable pub offsets : Bool → List Arg → ℕ → List (Option ℕ)
offsets big [] off = []
offsets big (a ∷ as_) off =
    (if length (host_bytes big a) == 0 then none else some off)
    ∷ offsets big as_ (off + length (host_bytes big a))

pub args_loop-wire :
    (big : Bool) (args : List Arg) (off : ℕ)
    → AllArgs args
    → args_loop big (type_chars args) (wire_data big args) off
      ≡ ok (host_data big args, offsets big args off)
unfolding args_loop type_chars wire_data host_data offsets
args_loop-wire big [] off h = refl
args_loop-wire big (a ∷ as_) off h =
    let c = typechar (type_of a) in
    let rest = wire_data big as_ in
    let size = length (host_bytes big a) in
    let accepted = lo_validate_arg-wire big a rest h.0 in
    let swapped = lo_arg_host_endian-wire big a rest in
    let cut : take size (host_bytes big a ++ rest) ≡ host_bytes big a =
      take-append_self (host_bytes big a) rest in
    let left : drop size (host_bytes big a ++ rest) ≡ rest =
      drop-append_self (host_bytes big a) rest in
    rw (accepted, swapped, cut, left, args_loop-wire big as_ (off + size) h.1)

-- What the allocations of lo_message_deserialise may need.
abbrev pub AllAllocate : Platform → Type 0
AllAllocate p = (n : ℕ) → p.realloc n ≡ true

pub length-wire_data :
    (big : Bool) (args : List Arg) → length (wire_data big args) ≡ length (host_data big args)
unfolding wire_data host_data
length-wire_data big [] = refl
length-wire_data big (a ∷ as_) = omega (
  arith,
  length-append (wire_bytes big a) (wire_data big as_),
  length-append (host_bytes big a) (host_data big as_),
  length-wire_bytes big a,
  length-wire_data big as_,
)

-- The message that is read back.
unfoldable pub received : Platform → List Arg → Message
received p args = record {
  types = b',' ∷ type_chars args;
  typelen = length (b',' ∷ type_chars args);
  typesize = 4 * (length (b',' ∷ type_chars args) / 4 + 1);
  data_bytes = host_data p.big args;
  datalen = length (wire_data p.big args);
  datasize = length (wire_data p.big args);
  argv = if length (b',' ∷ type_chars args) - 1 == 0 then none else some (offsets p.big args 0);
  ts = immediate;
  refcount = 0;
}

pub received-Holds : (p : Platform) (args : List Arg) → Holds p.big (received p args) args
unfolding received
received-Holds p args = record {
  types_are = refl;
  data_are = refl;
  typelen_is = refl;
  datalen_is = length-wire_data p.big args;
}

read_args-wire :
    (p : Platform) (args : List Arg)
    → AllArgs args
    → AllAllocate p
    → read_args p
        (b',' ∷ type_chars args)
        (4 * (length (b',' ∷ type_chars args) / 4 + 1))
        (wire_data p.big args)
      ≡ ok (received p args)
unfolding read_args received
read_args-wire p args valid alloc =
    let n = length (b',' ∷ type_chars args) in
    rw
      (
        alloc (4 * (n / 4 + 1)),
        alloc (length (wire_data p.big args)),
        alloc (8 * (n - 1)),
        args_loop-wire p.big args 0 valid,
      )
      (ground arith)

nonzero : (n : ℕ) → 0 < n → (n == 0) ≡ false
nonzero n h = ground arith

-- The message read from the bytes of a message holds its arguments, on every host.
pub deserialise-message_bytes :
    (p : Platform) (path : Bytes) (args : List Arg)
    → IsText path
    → AllArgs args
    → AllAllocate p
    → lo_message_deserialise p (message_bytes p.big path args) ≡ ok (received p args)
unfolding lo_message_deserialise message_bytes
deserialise-message_bytes p path args text valid alloc =
    let types = b',' ∷ type_chars args in
    let body = wire_data p.big args in
    let q = padded types ++ body in
    let types_text : IsText types = (omega arith, type_chars-IsText args) in
    let path_ok = lo_validate_string-padded path q text in
    let types_ok = lo_validate_string-padded types body types_text in
    let some_data : (length (padded path ++ q) == 0) ≡ false =
      nonzero _ (omega (arith, length-append (padded path) q, length-padded path)) in
    let some_types : (length q == 0) ≡ false =
      nonzero _ (omega (arith, length-append (padded types) body, length-padded types)) in
    let past_path : drop (4 * (length path / 4 + 1)) (padded path ++ q) ≡ q =
      ap (λ k. drop k (padded path ++ q)) (sym (length-padded path))
      ∙ drop-append_self (padded path) q in
    let past_types : drop (4 * (length types / 4 + 1)) q ≡ body =
      ap (λ k. drop k q) (sym (length-padded types)) ∙ drop-append_self (padded types) body in
    let comma : first_byte q ≡ b',' = unfold padded in refl in
    rw
      (
        some_data,
        path_ok,
        past_path,
        some_types,
        types_ok,
        comma,
        c_string-padded types body types_text,
        past_types,
      )
      (read_args-wire p args valid alloc)

-- Round trip: a message that is built from arguments, serialised and read back by a host of the
-- same byte order holds the same arguments again, and its path stands at the start of the data.
pub deserialise-serialise :
    (p : Platform) (m : Message) (path : Bytes) (args : List Arg)
    → Holds p.big m args
    → AllArgs args
    → IsText path
    → AllAllocate p
    → let d = lo_message_serialise p.big m path none in
      (c_string d ≡ path)
      × (lo_message_deserialise p d ≡ ok (received p args))
      × Holds p.big (received p args) args
deserialise-serialise p m path args h valid text alloc =
    let wire = lo_message_serialise-none p.big m path args h valid text in
    (
      ap c_string wire ∙ (unfold message_bytes in c_string-padded path _ text),
      ap (lo_message_deserialise p) wire ∙ deserialise-message_bytes p path args text valid alloc,
      received-Holds p args,
    )
