-- ===== src/Bundle/Ends.antt =====
-- The walk of lo_bundle_circular (src/bundle.c) ends: each nested call has one bundle less that
-- is not among its parents.
use liblo.Base.{
  ℕ, zero, suc, ◌+◌, ◌<◌, ◌≤◌, ◌≡◌, ◌↔◌, inl, inr, refl, sym, ap, subst, ◌∙◌, Bool, true, false,
  Option, none, some, List, [], ◌∷◌, arith, Bool-cases, ◌==◌, if◌then◌else◌,
}
use liblo.Bundle.State.{
  Element, message, bundle, Heap, walk_elements, walk_tree, is_in_list, lo_bundle_circular,
}
use liblo.Bundle.Loops.{
  Nests, first, later, LoopsUnder, lo_bundle_circular-true, lo_bundle_circular-false,
}

-- How many of the bundles below `n` are not among the parents.
unfoldable left : ℕ → List ℕ → ℕ
left zero ps = 0
left (suc n) ps = (if is_in_list ps n then 0 else 1) + left n ps

left_le : (n b : ℕ) (ps : List ℕ) → left n (b ∷ ps) ≤ left n ps
unfolding left is_in_list
left_le zero b ps = omega arith
left_le (suc n) b ps = let rest = left_le n b ps in ground arith

left_lt : (n b : ℕ) (ps : List ℕ) → b < n → is_in_list ps b ≡ false → left n (b ∷ ps) < left n ps
unfolding left is_in_list
left_lt zero b ps lt new = elim lt [ ]
left_lt (suc n) b ps lt new = elim (Bool-cases (b == n)) [
  | inl same ↦
      let le = left_le n b ps in
      let here : b ≡ n = ground arith in
      let new' : is_in_list ps n ≡ false = ap (λ x. is_in_list ps x) (sym here) ∙ new in
      ground arith
  | inr other ↦ let rest = left_lt n b ps (ground arith) new in ground arith
]

left_start : (n : ℕ) → left n [] ≤ n
unfolding left is_in_list
left_start zero = omega arith
left_start (suc n) = let rest = left_start n in omega arith

-- The bundles below `n` hold only bundles below `n`.
abbrev pub IsClosed : Heap → ℕ → Type 0
IsClosed h n = (b c : ℕ) → b < n → Nests (h.bundles b).elmnts c → c < n

abbrev pub Answered : Option Bool → Type 0
Answered none = ⊥
Answered (some answer) = Unit

walk_elements-Answered :
    (walk : ℕ → Option Bool) (es : List Element)
    → ((c : ℕ) → Nests es c → Answered (walk c))
    → Answered (walk_elements walk es)
unfolding walk_elements
walk_elements-Answered walk [] ends = tt
walk_elements-Answered walk (message path m ∷ es) ends =
    walk_elements-Answered walk es (λ c n. ends c (later _ n))
walk_elements-Answered walk (bundle c ∷ es) ends =
    by_answer (walk c) (ends c (first c es))
      (walk_elements-Answered walk es (λ d n. ends d (later _ n)))
  where
    by_answer :
        (r : Option Bool)
        → Answered r
        → Answered (walk_elements walk es)
        → Answered
            (elim r [ none ↦ none | some true ↦ some true | some false ↦ walk_elements walk es ])
    by_answer none now rest = now
    by_answer (some true) now rest = tt
    by_answer (some false) now rest = rest

walk_tree-Answered :
    (h : Heap) (n : ℕ)
    → IsClosed h n
    → (fuel : ℕ) (ps : List ℕ) (b : ℕ) → b < n
    → left n ps < fuel
    → Answered (walk_tree h fuel ps b)
unfolding walk_tree
walk_tree-Answered h n closed zero ps b lt enough = elim enough [ ]
walk_tree-Answered h n closed (suc fuel) ps b lt enough =
    by_test _ (is_in_list ps b)
      (λ new.
        let less = left_lt n b ps lt new in
        walk_elements-Answered (walk_tree h fuel (b ∷ ps)) (h.bundles b).elmnts
          (λ c m. walk_tree-Answered h n closed fuel (b ∷ ps) c (closed b c lt m) (omega arith)))
      refl
  where
    by_test :
        (r : Option Bool) (t : Bool)
        → (is_in_list ps b ≡ false → Answered r)
        → is_in_list ps b ≡ t
        → Answered (if t then some true else r)
    by_test r true rest e = tt
    by_test r false rest e = rest e

-- If there are `n` bundles, which hold no others, then lo_bundle_circular ends on each of them,
-- within a depth of `n + 1` calls.
pub lo_bundle_circular-Answered :
    (h : Heap) (n : ℕ) → IsClosed h n → (b : ℕ) → b < n → Answered (lo_bundle_circular h (n + 1) b)
unfolding lo_bundle_circular
lo_bundle_circular-Answered h n closed b lt =
    let start = left_start n in walk_tree-Answered h n closed (n + 1) [] b lt (omega arith)

-- If there are `n` bundles, which hold no others, then within a depth of `n + 1` calls
-- lo_bundle_circular answers for each of them, whether there are circles or not; and it answers true
-- exactly if some bundle, the given one or one nested in it, is nested in itself.
lo_bundle_circular_iff :
    (h : Heap) (n b : ℕ)
    → IsClosed h n
    → b < n
    → (answer : Bool) × (lo_bundle_circular h (n + 1) b ≡ some answer)
      × ((answer ≡ true) ↔ LoopsUnder h b)
lo_bundle_circular_iff h n b closed lt = by_answer (lo_bundle_circular h (n + 1) b) refl
  where
    by_answer :
        (r : Option Bool)
        → lo_bundle_circular h (n + 1) b ≡ r
        → (answer : Bool) × (lo_bundle_circular h (n + 1) b ≡ some answer)
          × ((answer ≡ true) ↔ LoopsUnder h b)
    by_answer none e = absurd (subst Answered e (lo_bundle_circular-Answered h n closed b lt))
    by_answer (some true) e = (true, e, (λ _. lo_bundle_circular-true h _ b e, λ _. refl))
    by_answer (some false) e =
        (false, e, (λ t. absurd (cc), λ l. absurd (lo_bundle_circular-false h _ b e l)))
