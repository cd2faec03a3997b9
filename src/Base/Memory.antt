-- ===== src/Base/Memory.antt =====
-- Runs of memory: `memcpy`, `memset` and `strcpy` into the middle of a buffer, and the
-- contents of memory that `malloc` and `realloc` hand out.
use Prim.Native.Nat.{ℕ, zero, suc, ◌+◌, ◌≤◌}
use mathlib.Core.Path.{◌≡◌, refl, ap}
use mathlib.Core.List.{List, [], ◌∷◌, ◌++◌}
use native.Mathlib.Omega.{arith}
use liblo.Base.Lists.{length, drop}

-- A copy to the start of a buffer. What would stand beyond its end is not written.
unfoldable pub overwrite : List ℕ → List ℕ → List ℕ
overwrite xs [] = xs
overwrite [] (b ∷ bs) = []
overwrite (x ∷ xs) (b ∷ bs) = b ∷ overwrite xs bs

-- A copy to offset `o` of a buffer.
unfoldable pub blit : ℕ → List ℕ → List ℕ → List ℕ
unfolding overwrite
blit zero xs bs = overwrite xs bs
blit (suc o) [] bs = []
blit (suc o) (x ∷ xs) bs = x ∷ blit o xs bs

-- `n` bytes of memory with whatever contents `junk` describes.
unfoldable pub fresh : (ℕ → ℕ) → ℕ → List ℕ
fresh junk zero = []
fresh junk (suc n) = junk n ∷ fresh junk n

pub length-fresh : (junk : ℕ → ℕ) (n : ℕ) → length (fresh junk n) ≡ n
unfolding fresh
length-fresh junk zero = refl
length-fresh junk (suc n) = ap suc (length-fresh junk n)

pub overwrite_whole : (xs bs : List ℕ) → length bs ≡ length xs → overwrite xs bs ≡ bs
unfolding overwrite
overwrite_whole [] [] h = refl
overwrite_whole (x ∷ xs) [] h = absurd (omega arith)
overwrite_whole [] (b ∷ bs) h = absurd (omega arith)
overwrite_whole (x ∷ xs) (b ∷ bs) h = ap (λ t. b ∷ t) (overwrite_whole xs bs (omega arith))

pub overwrite-append :
    (xs ys bs : List ℕ) → length bs ≡ length xs → overwrite (xs ++ ys) bs ≡ bs ++ ys
unfolding overwrite
overwrite-append [] ys [] h = refl
overwrite-append (x ∷ xs) ys [] h = absurd (omega arith)
overwrite-append [] ys (b ∷ bs) h = absurd (omega arith)
overwrite-append (x ∷ xs) ys (b ∷ bs) h = ap (λ t. b ∷ t) (overwrite-append xs ys bs (omega arith))

-- A copy that stays within the first part of a buffer leaves the second alone.
pub overwrite-append_le :
    (xs ys bs : List ℕ) → length bs ≤ length xs → overwrite (xs ++ ys) bs ≡ overwrite xs bs ++ ys
unfolding overwrite
overwrite-append_le xs ys [] h = refl
overwrite-append_le [] ys (b ∷ bs) h = elim h [ ]
overwrite-append_le (x ∷ xs) ys (b ∷ bs) h =
    ap (λ t. b ∷ t) (overwrite-append_le xs ys bs (omega arith))

pub blit-append_le :
    (o : ℕ) (xs ys bs : List ℕ)
    → o + length bs ≤ length xs
    → blit o (xs ++ ys) bs ≡ blit o xs bs ++ ys
unfolding blit
blit-append_le zero xs ys bs h = overwrite-append_le xs ys bs (omega arith)
blit-append_le (suc o) [] ys bs h = absurd (omega arith)
blit-append_le (suc o) (x ∷ xs) ys bs h = ap (λ t. x ∷ t) (blit-append_le o xs ys bs (omega arith))

-- A copy beyond the first part.
pub blit-append_ge :
    (xs ys bs : List ℕ) (o k : ℕ) → o ≡ length xs + k → blit o (xs ++ ys) bs ≡ xs ++ blit k ys bs
unfolding blit
blit-append_ge [] ys bs o k h = let e : o ≡ k = omega arith in ap (λ t. blit t ys bs) e
blit-append_ge (x ∷ xs) ys bs zero k h = absurd (omega arith)
blit-append_ge (x ∷ xs) ys bs (suc o) k h =
    ap (λ t. x ∷ t) (blit-append_ge xs ys bs o k (omega arith))

pub length-overwrite : (xs bs : List ℕ) → length (overwrite xs bs) ≡ length xs
unfolding overwrite
length-overwrite xs [] = refl
length-overwrite [] (b ∷ bs) = refl
length-overwrite (x ∷ xs) (b ∷ bs) = ap suc (length-overwrite xs bs)

pub length-blit : (o : ℕ) (xs bs : List ℕ) → length (blit o xs bs) ≡ length xs
unfolding blit
length-blit zero xs bs = length-overwrite xs bs
length-blit (suc o) [] bs = refl
length-blit (suc o) (x ∷ xs) bs = ap suc (length-blit o xs bs)

pub overwrite-eq-append :
    (xs bs : List ℕ) → length bs ≤ length xs → overwrite xs bs ≡ bs ++ drop (length bs) xs
unfolding overwrite
overwrite-eq-append xs [] h = refl
overwrite-eq-append [] (b ∷ bs) h = elim h [ ]
overwrite-eq-append (x ∷ xs) (b ∷ bs) h = ap (λ t. b ∷ t) (overwrite-eq-append xs bs (omega arith))
