-- ===== src/Tools/Reads.antt =====
-- How src/tools/oscsend.c reads the words of a command line, against what the words mean.
use liblo.Base.{
  ℕ, ◌+◌, ◌*◌, ◌^◌, ◌<◌, ◌≤◌, ◌≡◌, ◌≢◌, ◌-◌, ◌%◌, ◌/◌, ◌⊎◌, inl, inr, refl, sym, ap, subst, ◌∙◌,
  Bool, true, false, Option, none, some, [], ◌∷◌, Bytes, arith,
}
use liblo.Argument.{Arg, type_of}
use liblo.Tools.Oscsend.{
  Reader, read_int32, read_int64, read_float, read_double, read_midi, read_value, first_char,
  is_limit, is_int,
}

-- The integers that the C library reads have 64 bits, and the number of sscanf has 32.
pub record IsReader (r : Reader) : Type 0 where
  pub long : (s : Bytes) → (r.strtol s).0 < 2 ^ 64
  pub hex_word : (s : Bytes) (n : ℕ) → r.hex s ≡ some n → n < 2 ^ 32

-- The 64 bits `v` are those of the int `n` with its sign.
abbrev pub SignExtends : ℕ → ℕ → Type 0
SignExtends v n =
    ((n < 2 ^ 31) × (v ≡ n)) ⊎ ((2 ^ 31 ≤ n) × (n < 2 ^ 32) × (v + 2 ^ 32 ≡ n + 2 ^ 64))

-- The word `arg`, as the value number `i`, is that of the argument. A whole number is not LONG_MAX or LONG_MIN
-- with errno ERANGE.
abbrev pub Reads : Reader → ℕ → Arg → Bytes → Type 0
Reads r i (Arg.int32 n) arg = ((r.strtol arg).1 ≡ true) × SignExtends (r.strtol arg).0 n
Reads r i (Arg.int64 n) arg =
    (r.strtoll arg ≡ (n, true)) × ((r.erange i ≡ false) ⊎ ((n ≢ 2 ^ 63 - 1) × (n ≢ 2 ^ 63)))
Reads r i (Arg.float n) arg = r.strtof arg ≡ (n, true)
Reads r i (Arg.double n) arg = r.strtod arg ≡ (n, true)
Reads r i (Arg.string s) arg = arg ≡ s
Reads r i (Arg.symbol s) arg = arg ≡ s
Reads r i (Arg.char c) arg = ((arg ≡ []) × (c ≡ 0)) ⊎ ((s : Bytes) × (arg ≡ c ∷ s))
Reads r i (Arg.midi a b c d) arg =
    (r.hex arg ≡ some (a * 2 ^ 24 + b * 2 ^ 16 + c * 2 ^ 8 + d))
    × (a < 256)
    × (b < 256)
    × (c < 256)
    × (d < 256)
Reads r i _ arg = ⊥

int32_read :
    (erange : Bool) (x : ℕ × Bool) (n : ℕ)
    → (x.1 ≡ true)
    → SignExtends x.0 n
    → read_int32 erange x ≡ some (Arg.int32 n)
unfolding read_int32 is_limit is_int
int32_read erange (v, whole) n is ext =
    let low : v % 2 ^ 32 ≡ n = omega arith in ground (arith, ap Arg.int32 low)

int32_inv :
    (erange : Bool) (x : ℕ × Bool) (n : ℕ)
    → x.0 < 2 ^ 64
    → read_int32 erange x ≡ some (Arg.int32 n)
    → (x.1 ≡ true) × SignExtends x.0 n
unfolding read_int32 is_limit is_int
int32_inv erange (v, whole) n small e = ground arith

int64_inv :
    (erange : Bool) (x : ℕ × Bool) (n : ℕ)
    → read_int64 erange x ≡ some (Arg.int64 n)
    → (x ≡ (n, true)) × ((erange ≡ false) ⊎ ((n ≢ 2 ^ 63 - 1) × (n ≢ 2 ^ 63)))
unfolding read_int64 is_limit
int64_inv erange (v, true) n e = ground arith
int64_inv erange (v, false) n e = absurd (ground arith)

float_inv : (x : ℕ × Bool) (n : ℕ) → read_float x ≡ some (Arg.float n) → x ≡ (n, true)
unfolding read_float
float_inv (v, true) n e = cc
float_inv (v, false) n e = absurd (ground arith)

double_inv : (x : ℕ × Bool) (n : ℕ) → read_double x ≡ some (Arg.double n) → x ≡ (n, true)
unfolding read_double
double_inv (v, true) n e = cc
double_inv (v, false) n e = absurd (ground arith)

midi_read :
    (a b c d : ℕ)
    → a < 256
    → b < 256
    → c < 256
    → d < 256
    → read_midi (some (a * 2 ^ 24 + b * 2 ^ 16 + c * 2 ^ 8 + d)) ≡ some (Arg.midi a b c d)
unfolding read_midi
midi_read a b c d ha hb hc hd =
    let n = a * 2 ^ 24 + b * 2 ^ 16 + c * 2 ^ 8 + d in
    let ea : n / 2 ^ 24 % 256 ≡ a = omega arith in
    let eb : n / 2 ^ 16 % 256 ≡ b = omega arith in
    let ec : n / 2 ^ 8 % 256 ≡ c = omega arith in let ed : n % 256 ≡ d = omega arith in cc

midi_inv :
    (o : Option ℕ) (a b c d : ℕ)
    → ((n : ℕ) → o ≡ some n → n < 2 ^ 32)
    → read_midi o ≡ some (Arg.midi a b c d)
    → (o ≡ some (a * 2 ^ 24 + b * 2 ^ 16 + c * 2 ^ 8 + d))
      × (a < 256)
      × (b < 256)
      × (c < 256)
      × (d < 256)
unfolding read_midi
midi_inv none a b c d small e = absurd (cc)
midi_inv (some n) a b c d small e =
    let lt = small n refl in
    let ea : n / 2 ^ 24 % 256 ≡ a = cc in
    let eb : n / 2 ^ 16 % 256 ≡ b = cc in
    let ec : n / 2 ^ 8 % 256 ≡ c = cc in
    let ed : n % 256 ≡ d = cc in
    (ap some (omega arith), omega arith, omega arith, omega arith, omega arith)

-- The word of an argument reads as it.
pub Reads-read_value :
    (r : Reader) (i : ℕ) (a : Arg) (arg : Bytes)
    → IsReader r
    → Reads r i a arg
    → read_value r i (type_of a) arg ≡ some a
unfolding read_value type_of read_int64 read_float read_double first_char is_limit
Reads-read_value r i (Arg.int32 n) arg ok h = int32_read (r.erange i) (r.strtol arg) n h.0 h.1
Reads-read_value r i (Arg.int64 n) arg ok (e, h) =
    subst (λ x. read_int64 (r.erange i) x ≡ some (Arg.int64 n)) (sym e) (ground arith)
Reads-read_value r i (Arg.float n) arg ok h = ap read_float h
Reads-read_value r i (Arg.double n) arg ok h = ap read_double h
Reads-read_value r i (Arg.string s) arg ok h = cc
Reads-read_value r i (Arg.symbol s) arg ok h = cc
Reads-read_value r i (Arg.char c) arg ok (inl (empty, nul)) =
    ap (λ x. some (Arg.char (first_char x))) empty ∙ ap (λ x. some (Arg.char x)) (sym nul)
Reads-read_value r i (Arg.char c) arg ok (inr (s, e)) = ap (λ x. some (Arg.char (first_char x))) e
Reads-read_value r i (Arg.midi a b c d) arg ok (e, ha, hb, hc, hd) =
    ap read_midi e ∙ midi_read a b c d ha hb hc hd
Reads-read_value r i (Arg.blob _) arg ok h = elim h [ ]
Reads-read_value r i (Arg.timetag _ _) arg ok h = elim h [ ]
Reads-read_value r i Arg.true_ arg ok h = elim h [ ]
Reads-read_value r i Arg.false_ arg ok h = elim h [ ]
Reads-read_value r i Arg.nil arg ok h = elim h [ ]
Reads-read_value r i Arg.infinitum arg ok h = elim h [ ]

-- What a word reads as is what it means.
pub read_value-Reads :
    (r : Reader) (i : ℕ) (a : Arg) (arg : Bytes)
    → IsReader r
    → read_value r i (type_of a) arg ≡ some a
    → Reads r i a arg
unfolding read_value type_of first_char
read_value-Reads r i (Arg.int32 n) arg ok e =
    int32_inv (r.erange i) (r.strtol arg) n (ok.long arg) e
read_value-Reads r i (Arg.int64 n) arg ok e = int64_inv (r.erange i) (r.strtoll arg) n e
read_value-Reads r i (Arg.float n) arg ok e = float_inv (r.strtof arg) n e
read_value-Reads r i (Arg.double n) arg ok e = double_inv (r.strtod arg) n e
read_value-Reads r i (Arg.string s) arg ok e = cc
read_value-Reads r i (Arg.symbol s) arg ok e = cc
read_value-Reads r i (Arg.char c) [] ok e = inl (refl, cc)
read_value-Reads r i (Arg.char c) (x ∷ s) ok e =
    let same : x ≡ c = cc in inr (s, ap (λ y. y ∷ s) same)
read_value-Reads r i (Arg.midi a b c d) arg ok e = midi_inv (r.hex arg) a b c d (ok.hex_word arg) e
read_value-Reads r i _ arg ok e = absurd (cc)
