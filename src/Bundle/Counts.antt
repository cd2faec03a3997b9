-- ===== src/Bundle/Counts.antt =====
-- References between the objects of a heap of bundles (src/bundle.c), counted.
use liblo.Base.{
  ℕ, zero, suc, ◌+◌, ◌≤◌, ◌<◌, ◌≡◌, refl, ap, ◌∙◌, Bool, true, false, List, [], ◌∷◌, ◌++◌, ◌==◌,
  if◌then◌else◌, arith, Bool-cases, inl, inr,
}
use liblo.Bundle.State.{Element, message, bundle}

abbrev pub is_bundle : ℕ → Element → Bool
is_bundle c (message path m) = false
is_bundle c (bundle d) = d == c

abbrev pub is_message : ℕ → Element → Bool
is_message c (message path m) = m == c
is_message c (bundle d) = false

-- How many of the elements refer to an object.
unfoldable pub refers : (Element → Bool) → List Element → ℕ
refers q [] = 0
refers q (e ∷ es) = (if q e then 1 else 0) + refers q es

pub refers-append :
    (q : Element → Bool) (xs ys : List Element) → refers q (xs ++ ys) ≡ refers q xs + refers q ys
unfolding refers
refers-append q [] ys = omega arith
refers-append q (x ∷ xs) ys = let rest = refers-append q xs ys in omega arith

-- How many elements of the bundles below `n` that are not in `gone` refer to an object.
unfoldable pub uses : (ℕ → List Element) → (Element → Bool) → ℕ → (ℕ → Bool) → ℕ
uses els q zero gone = 0
uses els q (suc n) gone = (if gone n then 0 else refers q (els n)) + uses els q n gone

abbrev pub add : ℕ → (ℕ → Bool) → ℕ → Bool
add b gone i = if i == b then true else gone i

uses-above :
    (els : ℕ → List Element) (q : Element → Bool) (n b : ℕ) (gone : ℕ → Bool)
    → n ≤ b
    → uses els q n (add b gone) ≡ uses els q n gone
unfolding uses
uses-above els q zero b gone h = refl
uses-above els q (suc n) b gone h =
    let rest = uses-above els q n b gone (omega arith) in ground arith

-- A bundle that goes takes the references of its elements with it.
pub uses-add :
    (els : ℕ → List Element) (q : Element → Bool) (n b : ℕ) (gone : ℕ → Bool)
    → b < n
    → gone b ≡ false
    → uses els q n (add b gone) + refers q (els b) ≡ uses els q n gone
unfolding uses
uses-add els q zero b gone lt here = absurd (omega arith)
uses-add els q (suc n) b gone lt here = elim (Bool-cases (n == b)) [
  | inl same ↦
      let e : n ≡ b = ground arith in
      let gone_n : gone n ≡ false = ap gone e ∙ here in
      let refers_n : refers q (els n) ≡ refers q (els b) = ap (λ i. refers q (els i)) e in
      let above = uses-above els q n b gone (omega arith) in ground arith
  | inr other ↦ let rest = uses-add els q n b gone (ground arith) here in ground arith
]

-- The bundles below `n` that are not in `gone`.
unfoldable pub left : ℕ → (ℕ → Bool) → ℕ
left zero gone = 0
left (suc n) gone = (if gone n then 0 else 1) + left n gone

left-above : (n b : ℕ) (gone : ℕ → Bool) → n ≤ b → left n (add b gone) ≡ left n gone
unfolding left
left-above zero b gone h = refl
left-above (suc n) b gone h = let rest = left-above n b gone (omega arith) in ground arith

pub left-add :
    (n b : ℕ) (gone : ℕ → Bool) → b < n → gone b ≡ false → left n (add b gone) + 1 ≡ left n gone
unfolding left
left-add zero b gone lt here = absurd (omega arith)
left-add (suc n) b gone lt here = elim (Bool-cases (n == b)) [
  | inl same ↦
      let e : n ≡ b = ground arith in
      let gone_n : gone n ≡ false = ap gone e ∙ here in
      let above = left-above n b gone (omega arith) in ground arith
  | inr other ↦ let rest = left-add n b gone (ground arith) here in ground arith
]

abbrev pub AllBelow : ℕ → List Element → Type 0
AllBelow n [] = Unit
AllBelow n (message path m ∷ es) = AllBelow n es
AllBelow n (bundle c ∷ es) = (c < n) × AllBelow n es

pub AllBelow-append :
    (n : ℕ) (xs ys : List Element) → AllBelow n xs → AllBelow n ys → AllBelow n (xs ++ ys)
AllBelow-append n [] ys hx hy = hy
AllBelow-append n (message path m ∷ xs) ys hx hy = AllBelow-append n xs ys hx hy
AllBelow-append n (bundle c ∷ xs) ys hx hy = (hx.0, AllBelow-append n xs ys hx.1 hy)
