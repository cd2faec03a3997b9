-- ===== src/Argument/Value.antt =====
-- An argument as a value, apart from any memory: the specification of the encodings.
use liblo.Base.{
  ℕ, ◌-◌, ◌+◌, ◌/◌, ◌%◌, ◌^◌, ◌<◌, ◌≤◌, Bool, true, false, [], ◌∷◌, ◌++◌, Bytes, length, replicate,
}
use liblo.Osc.{OscType, store32}
use liblo.Osc.Padding.{IsText, padded}

-- Numbers and floats are given by their bit patterns.
pub data Arg : Type 0 where
  int32 float int64 double : ℕ → Arg
  string symbol blob : Bytes → Arg
  timetag : ℕ → ℕ → Arg
  char : ℕ → Arg
  midi : ℕ → ℕ → ℕ → ℕ → Arg
  true_ false_ nil infinitum : Arg

unfoldable pub type_of : Arg → OscType
type_of (Arg.int32 n) = OscType.int32
type_of (Arg.float n) = OscType.float
type_of (Arg.int64 n) = OscType.int64
type_of (Arg.double n) = OscType.double
type_of (Arg.string s) = OscType.string
type_of (Arg.symbol s) = OscType.symbol
type_of (Arg.blob bs) = OscType.blob
type_of (Arg.timetag sec frac) = OscType.timetag
type_of (Arg.char c) = OscType.char
type_of (Arg.midi a b c d) = OscType.midi
type_of Arg.true_ = OscType.true_
type_of Arg.false_ = OscType.false_
type_of Arg.nil = OscType.nil
type_of Arg.infinitum = OscType.infinitum

-- A value that C can hold, with a blob within the limit that the receiver sets.
abbrev pub IsArg : Arg → Type 0
IsArg (Arg.int32 n) = n < 2 ^ 32
IsArg (Arg.float n) = n < 2 ^ 32
IsArg (Arg.int64 n) = n < 2 ^ 64
IsArg (Arg.double n) = n < 2 ^ 64
IsArg (Arg.string s) = IsText s
IsArg (Arg.symbol s) = IsText s
IsArg (Arg.blob bs) = length bs ≤ 32768
IsArg (Arg.timetag sec frac) = (sec < 2 ^ 32) × (frac < 2 ^ 32)
IsArg (Arg.char c) = c < 256
IsArg _ = Unit

-- `*(uint64_t *) p = n` on the host.
unfoldable pub store64 : Bool → ℕ → Bytes
store64 true n = store32 true (n / 2 ^ 32) ++ store32 true (n % 2 ^ 32)
store64 false n = store32 false (n % 2 ^ 32) ++ store32 false (n / 2 ^ 32)

-- The pad bytes behind the data of a blob.
unfoldable pub blob_pad : Bytes → Bytes
blob_pad bs = replicate (3 - (length bs + 3) % 4) 0

-- The argument in the data of a message, in host order.
unfoldable pub host_bytes : Bool → Arg → Bytes
host_bytes big (Arg.int32 n) = store32 big n
host_bytes big (Arg.float n) = store32 big n
host_bytes big (Arg.int64 n) = store64 big n
host_bytes big (Arg.double n) = store64 big n
host_bytes big (Arg.string s) = padded s
host_bytes big (Arg.symbol s) = padded s
host_bytes big (Arg.blob bs) = store32 big (length bs) ++ (bs ++ blob_pad bs)
host_bytes big (Arg.timetag sec frac) = store32 big sec ++ store32 big frac
host_bytes big (Arg.char c) = c ∷ 0 ∷ 0 ∷ 0 ∷ []
host_bytes big (Arg.midi a b c d) = a ∷ b ∷ c ∷ d ∷ []
host_bytes big _ = []

-- The argument as a host of byte order `big` sends it.
unfoldable pub wire_bytes : Bool → Arg → Bytes
wire_bytes false (Arg.char c) = 0 ∷ 0 ∷ 0 ∷ c ∷ []
wire_bytes true (Arg.char c) = c ∷ 0 ∷ 0 ∷ 0 ∷ []
wire_bytes big a = host_bytes true a
