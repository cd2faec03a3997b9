-- ===== src/Osc/Endian.antt =====
-- lo_swap32, lo_swap64 and the lo_otoh and lo_htoo macros, as they act on memory.
use liblo.Base.{
  ℕ, ◌+◌, ◌*◌, ◌/◌, ◌%◌, ◌^◌, ◌<◌, ◌≡◌, refl, Bool, true, false, [], ◌∷◌, ◌++◌, arith, Bytes,
  length,
}

-- The number that four bytes hold, most significant byte first.
abbrev pub be32 : ℕ → ℕ → ℕ → ℕ → ℕ
be32 a b c d = a * 2 ^ 24 + b * 2 ^ 16 + c * 2 ^ 8 + d

-- `*(uint32_t *) p = n` on the host.
unfoldable pub store32 : Bool → ℕ → Bytes
store32 true n = (n / 2 ^ 24 % 256) ∷ (n / 2 ^ 16 % 256) ∷ (n / 2 ^ 8 % 256) ∷ (n % 256) ∷ []
store32 false n = (n % 256) ∷ (n / 2 ^ 8 % 256) ∷ (n / 2 ^ 16 % 256) ∷ (n / 2 ^ 24 % 256) ∷ []

-- `*(uint32_t *) p` on the host. The callers have four bytes to read.
unfoldable pub load32 : Bool → Bytes → ℕ
load32 true (a ∷ b ∷ c ∷ d ∷ _) = be32 a b c d
load32 false (a ∷ b ∷ c ∷ d ∷ _) = be32 d c b a
load32 _ _ = 0

-- `*(int32_t *) p = lo_otoh32(*(int32_t *) p)`, which is also lo_htoo32: the bytes are
-- reversed on a little-endian host.
unfoldable pub lo_otoh32 : Bool → Bytes → Bytes
lo_otoh32 false (a ∷ b ∷ c ∷ d ∷ m) = d ∷ c ∷ b ∷ a ∷ m
lo_otoh32 _ m = m

-- lo_otoh64 and lo_htoo64: lo_swap64 exchanges the two halves and swaps each.
unfoldable pub lo_otoh64 : Bool → Bytes → Bytes
lo_otoh64 false (a ∷ b ∷ c ∷ d ∷ e ∷ f ∷ g ∷ h ∷ m) = h ∷ g ∷ f ∷ e ∷ d ∷ c ∷ b ∷ a ∷ m
lo_otoh64 _ m = m

pub length-store32 : (big : Bool) (n : ℕ) → length (store32 big n) ≡ 4
unfolding store32
length-store32 true n = refl
length-store32 false n = refl

pub load32-store32 :
    (big : Bool) (n : ℕ) (m : Bytes) → n < 2 ^ 32 → load32 big (store32 big n ++ m) ≡ n
unfolding store32 load32
load32-store32 true n m h = omega arith
load32-store32 false n m h = omega arith

-- What arrives in network order is read with its most significant byte first, on every host.
pub load32-lo_otoh32 :
    (big : Bool) (a b c d : ℕ) (m : Bytes)
    → load32 big (lo_otoh32 big (a ∷ b ∷ c ∷ d ∷ m)) ≡ be32 a b c d
unfolding load32 lo_otoh32
load32-lo_otoh32 true a b c d m = refl
load32-lo_otoh32 false a b c d m = refl

pub lo_otoh32_twice : (big : Bool) (m : Bytes) → lo_otoh32 big (lo_otoh32 big m) ≡ m
unfolding lo_otoh32
lo_otoh32_twice true m = refl
lo_otoh32_twice false [] = refl
lo_otoh32_twice false (a ∷ []) = refl
lo_otoh32_twice false (a ∷ b ∷ []) = refl
lo_otoh32_twice false (a ∷ b ∷ c ∷ []) = refl
lo_otoh32_twice false (a ∷ b ∷ c ∷ d ∷ m) = refl

pub lo_otoh64_twice :
    (big : Bool) (a b c d e f g h : ℕ) (m : Bytes)
    → lo_otoh64 big (lo_otoh64 big (a ∷ b ∷ c ∷ d ∷ e ∷ f ∷ g ∷ h ∷ m))
      ≡ a ∷ b ∷ c ∷ d ∷ e ∷ f ∷ g ∷ h ∷ m
unfolding lo_otoh64
lo_otoh64_twice true a b c d e f g h m = refl
lo_otoh64_twice false a b c d e f g h m = refl

pub length-lo_otoh32 : (big : Bool) (m : Bytes) → length (lo_otoh32 big m) ≡ length m
unfolding lo_otoh32
length-lo_otoh32 true m = refl
length-lo_otoh32 false [] = refl
length-lo_otoh32 false (a ∷ []) = refl
length-lo_otoh32 false (a ∷ b ∷ []) = refl
length-lo_otoh32 false (a ∷ b ∷ c ∷ []) = refl
length-lo_otoh32 false (a ∷ b ∷ c ∷ d ∷ m) = refl

pub length-lo_otoh64 :
    (big : Bool) (a b c d e f g h : ℕ) (m : Bytes)
    → length (lo_otoh64 big (a ∷ b ∷ c ∷ d ∷ e ∷ f ∷ g ∷ h ∷ m)) ≡ 8 + length m
unfolding lo_otoh64
length-lo_otoh64 true a b c d e f g h m = omega arith
length-lo_otoh64 false a b c d e f g h m = omega arith
