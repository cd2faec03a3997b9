-- ===== src/Osc/Types.antt =====
-- The typechars, and the sizes of strings, blobs and arguments in memory.
use liblo.Base.{
  ℕ, suc, ◌+◌, ◌*◌, ◌/◌, ◌%◌, ◌^◌, ◌≡◌, refl, Option, none, some, [], ◌∷◌, Bytes, Bool,
  if◌then◌else◌, ◌==◌,
}
use liblo.Osc.Endian.{load32}

-- `lo_type`.
pub data OscType : Type 0 where
  int32 float string blob int64 timetag double symbol char midi true_ false_ nil infinitum : OscType

-- The values of the enumeration.
unfoldable pub typechar : OscType → ℕ
typechar OscType.int32 = b'i'
typechar OscType.float = b'f'
typechar OscType.string = b's'
typechar OscType.blob = b'b'
typechar OscType.int64 = b'h'
typechar OscType.timetag = b't'
typechar OscType.double = b'd'
typechar OscType.symbol = b'S'
typechar OscType.char = b'c'
typechar OscType.midi = b'm'
typechar OscType.true_ = b'T'
typechar OscType.false_ = b'F'
typechar OscType.nil = b'N'
typechar OscType.infinitum = b'I'

-- The `switch` on a typechar: `none` is its default case.
unfoldable pub to_type : ℕ → Option OscType
to_type c =
    if c == b'i'
    then some OscType.int32
    else if c == b'f'
    then some OscType.float
    else if c == b's'
    then some OscType.string
    else if c == b'b'
    then some OscType.blob
    else if c == b'h'
    then some OscType.int64
    else if c == b't'
    then some OscType.timetag
    else if c == b'd'
    then some OscType.double
    else if c == b'S'
    then some OscType.symbol
    else if c == b'c'
    then some OscType.char
    else if c == b'm'
    then some OscType.midi
    else if c == b'T'
    then some OscType.true_
    else if c == b'F'
    then some OscType.false_
    else if c == b'N'
    then some OscType.nil
    else if c == b'I'
    then some OscType.infinitum
    else none

-- The bytes before the first NUL. The callers hold memory with a NUL in it.
unfoldable pub strlen : Bytes → ℕ
strlen [] = 0
strlen (c ∷ m) = if c == 0 then 0 else suc (strlen m)

-- The C string that begins at `m`, up to its terminator.
unfoldable pub c_string : Bytes → Bytes
c_string [] = []
c_string (c ∷ m) = if c == 0 then [] else c ∷ c_string m

-- lo_strsize, of a string whose length is below 2 ^ 31 - 4.
unfoldable pub lo_strsize : Bytes → ℕ
lo_strsize s = 4 * (strlen s / 4 + 1)

-- lo_blobsize, of a blob whose `size` field is `n`; both sums are in uint32_t.
unfoldable pub lo_blobsize : ℕ → ℕ
lo_blobsize n = 4 * (((4 + n) % 2 ^ 32 + 3) % 2 ^ 32 / 4)

-- lo_arg_size of an argument in host order.
unfoldable pub lo_arg_size : Bool → ℕ → Bytes → ℕ
lo_arg_size big c m = elim (to_type c) [
  | none ↦ 0
  | some OscType.int32 ↦ 4
  | some OscType.float ↦ 4
  | some OscType.midi ↦ 4
  | some OscType.char ↦ 4
  | some OscType.int64 ↦ 8
  | some OscType.timetag ↦ 8
  | some OscType.double ↦ 8
  | some OscType.string ↦ lo_strsize m
  | some OscType.symbol ↦ lo_strsize m
  | some OscType.blob ↦ lo_blobsize (load32 big m)
  | some OscType.true_ ↦ 0
  | some OscType.false_ ↦ 0
  | some OscType.nil ↦ 0
  | some OscType.infinitum ↦ 0
]

pub to_type-typechar : (t : OscType) → to_type (typechar t) ≡ some t
unfolding to_type typechar
to_type-typechar OscType.int32 = refl
to_type-typechar _ = refl
