-- ===== src/Address/Scan.antt =====
-- sscanf of the C library, for the formats of src/address.c: characters that must match, `%[...]`
-- with and without assignment, and `%s`.
use liblo.Base.{
  ℕ, ◌+◌, ◌≡◌, refl, ap, Bool, true, false, not, ◌&&◌, ◌||◌, Option, some, List, [], ◌∷◌, ◌++◌,
  Bytes, arith, leb, ◌==◌, if◌then◌else◌,
}

-- `char c` is a character of the format, `scan assign p` a set of characters.
pub data Directive : Type 0 where
  char : ℕ → Directive
  scan : Bool → (ℕ → Bool) → Directive
  word : Directive

-- EOF, or the number of assignments.
pub data Ret : Type 0 where
  eof : Ret
  count : ℕ → Ret

-- The result, and what is stored for the one assignment of a format.
pub record Scanned : Type 0 where
  pub ret : Ret
  pub stored : Option Bytes

abbrev pub is_space : ℕ → Bool
is_space c = c == b' ' || (leb 9 c && leb c 13)

abbrev pub not_space : ℕ → Bool
not_space c = not (is_space c)

-- The longest start of which all characters satisfy `p`, and what follows it.
unfoldable pub while_in : (ℕ → Bool) → Bytes → Bytes
while_in p [] = []
while_in p (c ∷ s) = if p c then c ∷ while_in p s else []

unfoldable pub past_in : (ℕ → Bool) → Bytes → Bytes
past_in p [] = []
past_in p (c ∷ s) = if p c then past_in p s else c ∷ s

-- The input ends where a character is wanted. Suppressed assignments do not count as done.
unfoldable pub input_failure : ℕ → Option Bytes → Scanned
input_failure done stored = record { ret = if done == 0 then eof else count done; stored = stored }

unfoldable pub sscanf : List Directive → Bytes → ℕ → Option Bytes → Scanned
sscanf [] s done stored = record { ret = count done; stored = stored }
sscanf (char c ∷ format) [] done stored = input_failure done stored
sscanf (char c ∷ format) (x ∷ s) done stored =
    let rest = sscanf format s done stored in
    if x == c then rest else record { ret = count done; stored = stored }
sscanf (scan assign p ∷ format) [] done stored = input_failure done stored
sscanf (scan assign p ∷ format) (x ∷ s) done stored =
    let done' = if assign then done + 1 else done in
    let stored' = if assign then some (while_in p (x ∷ s)) else stored in
    let rest = sscanf format (past_in p (x ∷ s)) done' stored' in
    if p x then rest else record { ret = count done; stored = stored }
sscanf (word ∷ format) s done stored =
    let from = past_in is_space s in
    let rest = sscanf format (past_in not_space from) (done + 1) (some (while_in not_space from)) in
    elim from [ [] ↦ input_failure done stored | _ ↦ rest ]

-- The characters of a format.
abbrev pub chars : Bytes → List Directive
chars [] = []
chars (c ∷ s) = char c ∷ chars s

-- `[^...]`.
unfoldable pub not_in : Bytes → ℕ → Bool
not_in [] c = true
not_in (x ∷ set) c = if c == x then false else not_in set c

unfoldable pub is_digit : ℕ → Bool
is_digit c = leb b'0' c && leb c b'9'

abbrev pub AllIn : (ℕ → Bool) → Bytes → Type 0
AllIn p [] = Unit
AllIn p (c ∷ s) = (p c ≡ true) × AllIn p s

pub while_in-append :
    (p : ℕ → Bool) (s : Bytes) (c : ℕ) (r : Bytes)
    → AllIn p s
    → p c ≡ false
    → while_in p (s ++ c ∷ r) ≡ s
unfolding while_in
while_in-append p [] c r h stop = rw stop
while_in-append p (x ∷ s) c r h stop = rw h.0 (ap (λ t. x ∷ t) (while_in-append p s c r h.1 stop))

pub past_in-append :
    (p : ℕ → Bool) (s : Bytes) (c : ℕ) (r : Bytes)
    → AllIn p s
    → p c ≡ false
    → past_in p (s ++ c ∷ r) ≡ c ∷ r
unfolding past_in
past_in-append p [] c r h stop = rw stop
past_in-append p (x ∷ s) c r h stop = rw h.0 (past_in-append p s c r h.1 stop)

pub past_in_all : (p : ℕ → Bool) (s : Bytes) → AllIn p s → past_in p s ≡ []
unfolding past_in
past_in_all p [] h = refl
past_in_all p (x ∷ s) h = rw h.0 (past_in_all p s h.1)

-- A set is scanned up to the first character that is not in it.
pub sscanf-scan :
    (assign : Bool) (p : ℕ → Bool) (format : List Directive) (x : ℕ) (s : Bytes) (c : ℕ) (r : Bytes)
    (done : ℕ) (stored : Option Bytes)
    → AllIn p (x ∷ s)
    → p c ≡ false
    → sscanf (scan assign p ∷ format) (x ∷ (s ++ c ∷ r)) done stored
      ≡ sscanf format
          (c ∷ r)
          (if assign then done + 1 else done)
          (if assign then some (x ∷ s) else stored)
unfolding sscanf
sscanf-scan assign p format x s c r done stored h stop =
    let all = while_in-append p (x ∷ s) c r h stop in
    let rest = past_in-append p (x ∷ s) c r h stop in rw (h.0, all, rest) refl

pub sscanf-chars :
    (t : Bytes) (format : List Directive) (s : Bytes) (done : ℕ) (stored : Option Bytes)
    → sscanf (chars t ++ format) (t ++ s) done stored ≡ sscanf format s done stored
unfolding sscanf
sscanf-chars [] format s done stored = refl
sscanf-chars (c ∷ t) format s done stored = ground (arith, sscanf-chars t format s done stored)
