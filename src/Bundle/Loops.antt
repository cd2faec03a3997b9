-- ===== src/Bundle/Loops.antt =====
-- What the answers of lo_bundle_circular (src/bundle.c) are about: bundles nested in themselves.
use liblo.Base.{
  ℕ, zero, suc, ◌<◌, ◌≡◌, ◌⊎◌, inl, inr, refl, sym, subst, Bool, true, false, Option, none, some,
  List, [], ◌∷◌, arith, ==_iff, Bool-cases, ◌==◌, if◌then◌else◌,
}
use liblo.Bundle.State.{
  Element, message, bundle, Heap, walk_elements, walk_tree, is_in_list, lo_bundle_circular,
}

-- Bundle `c` is an element.
pub data Nests : List Element → ℕ → Type 0 where
  first : (c : ℕ) (es : List Element) → Nests (bundle c ∷ es) c
  later : (e : Element) {es : List Element} {c : ℕ} → Nests es c → Nests (e ∷ es) c

-- Bundle `c` is nested in bundle `b`, at some depth.
pub data Below (h : Heap) : ℕ → ℕ → Type 0 where
  direct : {b c : ℕ} → Nests (h.bundles b).elmnts c → Below h b c
  deeper : {b c d : ℕ} → Nests (h.bundles b).elmnts c → Below h c d → Below h b d

Below-append : (h : Heap) (b c d : ℕ) → Below h b c → Nests (h.bundles c).elmnts d → Below h b d
Below-append h b c d (direct n) m = deeper n (direct m)
Below-append h b c d (deeper {c = e} n l) m = deeper n (Below-append h e c d l m)

abbrev AllAbove : Heap → List ℕ → ℕ → Type 0
AllAbove h [] b = Unit
AllAbove h (x ∷ xs) b = Below h x b × AllAbove h xs b

AllAbove-step :
    (h : Heap) (xs : List ℕ) (b c : ℕ)
    → AllAbove h xs b
    → Nests (h.bundles b).elmnts c
    → AllAbove h xs c
AllAbove-step h [] b c above n = tt
AllAbove-step h (x ∷ xs) b c above n =
    (Below-append h x b c above.0 n, AllAbove-step h xs b c above.1 n)

is_in_list-Below :
    (h : Heap) (xs : List ℕ) (b : ℕ) → AllAbove h xs b → is_in_list xs b ≡ true → Below h b b
unfolding is_in_list
is_in_list-Below h [] b above found = absurd (cc)
is_in_list-Below h (x ∷ xs) b above found = elim (Bool-cases (x == b)) [
  | inl same ↦ subst (λ y. Below h y b) ((==_iff x b).0 same) above.0
  | inr other ↦
      let rest : is_in_list xs b ≡ true = ground arith in is_in_list-Below h xs b above.1 rest
]

-- The walk over the elements answers true only where it does for a nested bundle.
walk_elements-true :
    (G : Type 0) (walk : ℕ → Option Bool) (es : List Element)
    → ((c : ℕ) → Nests es c → walk c ≡ some true → G)
    → walk_elements walk es ≡ some true
    → G
unfolding walk_elements
walk_elements-true G walk [] use_nested e = absurd (cc)
walk_elements-true G walk (message path m ∷ es) use_nested e =
    walk_elements-true G walk es (λ c n. use_nested c (later _ n)) e
walk_elements-true G walk (bundle c ∷ es) use_nested e =
    by_answer (walk c) (use_nested c (first c es))
      (walk_elements-true G walk es (λ d n. use_nested d (later _ n))) e
  where
    by_answer :
        (r : Option Bool)
        → (r ≡ some true → G)
        → (walk_elements walk es ≡ some true → G)
        → elim r [ none ↦ none | some true ↦ some true | some false ↦ walk_elements walk es ]
          ≡ some true
        → G
    by_answer none now rest e = absurd (cc)
    by_answer (some true) now rest e = now refl
    by_answer (some false) now rest e = rest e

-- Bundle `b` is `root` or nested in it, and bundle `b` is nested in itself.
abbrev pub LoopsUnder : Heap → ℕ → Type 0
LoopsUnder h root = (b : ℕ) × ((root ≡ b) ⊎ Below h root b) × Below h b b

under_step :
    (h : Heap) (root b c : ℕ)
    → (root ≡ b) ⊎ Below h root b
    → Nests (h.bundles b).elmnts c
    → (root ≡ c) ⊎ Below h root c
under_step h root b c (inl same) n =
    inr (direct (subst (λ x. Nests (h.bundles x).elmnts c) (sym same) n))
under_step h root b c (inr below) n = inr (Below-append h root b c below n)

walk_tree-true :
    (h : Heap) (root fuel : ℕ) (parents : List ℕ) (b : ℕ)
    → (root ≡ b) ⊎ Below h root b
    → AllAbove h parents b
    → walk_tree h fuel parents b ≡ some true
    → LoopsUnder h root
unfolding walk_tree
walk_tree-true h root zero parents b under above e = absurd (cc)
walk_tree-true h root (suc fuel) parents b under above e =
    elim (Bool-cases (is_in_list parents b)) [
      | inl found ↦ (b, under, is_in_list-Below h parents b above found)
      | inr new ↦
          walk_elements-true (LoopsUnder h root) (walk_tree h fuel (b ∷ parents))
            (h.bundles b).elmnts
            (λ c n.
              walk_tree-true h root fuel (b ∷ parents) c (under_step h root b c under n)
                (direct n, AllAbove-step h parents b c above n))
            (not_found new e)
    ]
  where
    not_found :
        {t : Bool} {r : Option Bool}
        → t ≡ false
        → (if t then some true else r) ≡ some true
        → r ≡ some true
    not_found h e = ground arith

-- If lo_bundle_circular answers that there is a circular reference, then some bundle, the given
-- one or one nested in it, is nested in itself.
pub lo_bundle_circular-true :
    (h : Heap) (fuel b : ℕ) → lo_bundle_circular h fuel b ≡ some true → LoopsUnder h b
unfolding lo_bundle_circular
lo_bundle_circular-true h fuel b e = walk_tree-true h b fuel [] b (inl refl) tt e

walk_elements-false :
    (walk : ℕ → Option Bool) (es : List Element) (c : ℕ)
    → walk_elements walk es ≡ some false
    → Nests es c
    → walk c ≡ some false
unfolding walk_elements
walk_elements-false walk [] c e n = elim n [ ]
walk_elements-false walk (bundle c ∷ es) c' e (first _ _) = answer (walk c) e
  where
    answer :
        (r : Option Bool)
        → elim r [ none ↦ none | some true ↦ some true | some false ↦ walk_elements walk es ]
          ≡ some false
        → r ≡ some false
    answer none e = absurd (cc)
    answer (some true) e = absurd (cc)
    answer (some false) e = refl
walk_elements-false walk (message path m ∷ es) c e (later _ n) = walk_elements-false walk es c e n
walk_elements-false walk (bundle b ∷ es) c e (later _ n) =
    walk_elements-false walk es c (rest (walk b) e) n
  where
    rest :
        (r : Option Bool)
        → elim r [ none ↦ none | some true ↦ some true | some false ↦ walk_elements walk es ]
          ≡ some false
        → walk_elements walk es ≡ some false
    rest none e = absurd (cc)
    rest (some true) e = absurd (cc)
    rest (some false) e = e

-- A walk with less than `fuel` answered false.
abbrev ClearWithin : Heap → ℕ → ℕ → Type 0
ClearWithin h fuel b = (k : ℕ) × (k < fuel) × ((ps : List ℕ) × (walk_tree h k ps b ≡ some false))

nested_clear :
    (h : Heap) (fuel : ℕ) (ps : List ℕ) (b c : ℕ)
    → walk_tree h fuel ps b ≡ some false
    → Nests (h.bundles b).elmnts c
    → ClearWithin h fuel c
unfolding walk_tree
nested_clear h zero ps b c e n = absurd (cc)
nested_clear h (suc fuel) ps b c e n =
    (fuel, omega arith, (b ∷ ps, walk_elements-false _ (h.bundles b).elmnts c (not_found _ e) n))
  where
    not_found :
        (t : Bool) {r : Option Bool} → (if t then some true else r) ≡ some false → r ≡ some false
    not_found true e = absurd (cc)
    not_found false e = e

Below-clear :
    (h : Heap) (b c : ℕ)
    → Below h b c
    → (fuel : ℕ) (ps : List ℕ) → walk_tree h fuel ps b ≡ some false
    → ClearWithin h fuel c
Below-clear h b c (direct n) fuel ps e = nested_clear h fuel ps b c e n
Below-clear h b c (deeper {c = d} n l) fuel ps e =
    let (k, lt, (qs, e')) = nested_clear h fuel ps b d e n in
    let (j, lt', (rs, e'')) = Below-clear h d c l k qs e' in (j, omega arith, (rs, e''))

no_loop :
    (h : Heap) (b : ℕ)
    → Below h b b
    → (bound fuel : ℕ) (ps : List ℕ) → fuel < bound
    → walk_tree h fuel ps b ≡ some false
    → ⊥
no_loop h b l zero fuel ps lt e = elim lt [ ]
no_loop h b l (suc bound) fuel ps lt e =
    let (k, lt', (qs, e')) = Below-clear h b b l fuel ps e in
    no_loop h b l bound k qs (omega arith) e'

-- If lo_bundle_circular answers that there is no circular reference, no bundle, the given one or
-- one nested in it, is nested in itself.
pub lo_bundle_circular-false :
    (h : Heap) (fuel b : ℕ) → lo_bundle_circular h fuel b ≡ some false → ¬ LoopsUnder h b
unfolding lo_bundle_circular
lo_bundle_circular-false h fuel b e (c, inl same, l) =
    no_loop h b (subst (λ x. Below h x x) (sym same) l) (suc fuel) fuel [] (omega arith) e
lo_bundle_circular-false h fuel b e (c, inr below, l) =
    let (k, lt, (qs, e')) = Below-clear h b c below fuel [] e in
    no_loop h c l (suc k) k qs (omega arith) e'
