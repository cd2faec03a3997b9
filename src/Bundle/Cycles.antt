-- ===== src/Bundle/Cycles.antt =====
-- lo_bundle_circular of src/bundle.c, and what lo_bundle_add_bundle does with its answer.
use liblo.Base.{
  ℕ, zero, suc, ◌+◌, ◌≡◌, refl, ap, subst, ◌∙◌, Bool, true, false, Option, none, some, List, [],
  ◌∷◌, ◌++◌, if◌then◌else◌, arith,
}
use liblo.Message.{Platform}
use liblo.Bundle.State.{
  Element, message, bundle, Heap, lo_bundle_incref, lo_bundle_decref, walk_elements, walk_tree,
  lo_bundle_circular, added, refused, no_memory, no_fuel, put_element, drop_last, take_back,
  grown_size, check_circular, lo_bundle_add_element, lo_bundle_add_bundle, add_lengths,
  lo_bundle_length,
}
use liblo.Bundle.Arrays.{
  lo_bundle_incref-elmnts, lo_bundle_decref-elmnts, lo_bundle_incref-refcount,
  lo_bundle_decref-refcount, put_element-elmnts, put_element-refcount, take_back-elmnts,
  take_back-refcount,
}

-- Some size comes out.
abbrev pub Ends : Option ℕ → Type 0
Ends none = ⊥
Ends (some s) = Unit

module _ (h : Heap) (walk : ℕ → Option Bool) (nested : ℕ → Option ℕ) where
  walk_elements-Ends :
      ((c : ℕ) → walk c ≡ some false → Ends (nested c))
      → (es : List Element) (size : ℕ) → walk_elements walk es ≡ some false
      → Ends (add_lengths h nested size es)
  unfolding walk_elements add_lengths
  walk_elements-Ends ih [] size clear = tt
  walk_elements-Ends ih (message path m ∷ es) size clear = walk_elements-Ends ih es _ clear
  walk_elements-Ends ih (bundle c ∷ es) size clear =
      nested_Ends (λ k e. walk_elements-Ends ih es k e) (walk c) (nested c) (ih c) clear
    where
      nested_Ends :
          ((k : ℕ) → walk_elements walk es ≡ some false → Ends (add_lengths h nested k es))
          → (r : Option Bool) (s : Option ℕ) → (r ≡ some false → Ends s)
          → elim r [ none ↦ none | some true ↦ some true | some false ↦ walk_elements walk es ]
            ≡ some false
          → Ends (elim s [ none ↦ none | some s ↦ add_lengths h nested (size + s) es ])
      nested_Ends rest none s ends clear = absurd (cc)
      nested_Ends rest (some true) s ends clear = absurd (cc)
      nested_Ends rest (some false) none ends clear = ends refl
      nested_Ends rest (some false) (some s) ends clear = rest (size + s) clear

pub walk_tree-Ends :
    (h : Heap) (fuel : ℕ) (parents : List ℕ) (b : ℕ)
    → walk_tree h fuel parents b ≡ some false
    → Ends (lo_bundle_length h fuel b)
unfolding walk_tree lo_bundle_length
walk_tree-Ends h zero parents b clear = absurd (cc)
walk_tree-Ends h (suc fuel) parents b clear =
    walk_elements-Ends h (walk_tree h fuel (b ∷ parents)) (lo_bundle_length h fuel)
      (walk_tree-Ends h fuel (b ∷ parents)) (h.bundles b).elmnts _ (not_found _ clear)
  where
    not_found :
        {r : Option Bool} (t : Bool) → (if t then some true else r) ≡ some false → r ≡ some false
    not_found true e = absurd (cc)
    not_found false e = e

drop_last-append : (es : List Element) (e : Element) → drop_last (es ++ e ∷ []) ≡ es
unfolding drop_last
drop_last-append [] e = refl
drop_last-append (x ∷ []) e = refl
drop_last-append (x ∷ y ∷ es) e = ap (λ t. x ∷ t) (drop_last-append (y ∷ es) e)

module _ (h : Heap) (b c size : ℕ) where
  -- The heap in which the element is in its place, and the heap in which all is taken back.
  abbrev grown : Heap
  grown = put_element (lo_bundle_incref h c) b size (bundle c)

  abbrev undone : Heap
  undone = take_back (lo_bundle_decref grown c) b

  undone-elmnts : (i : ℕ) → (undone.bundles i).elmnts ≡ (h.bundles i).elmnts
  undone-elmnts i =
      let last = drop_last-append (h.bundles b).elmnts (bundle c) in
      let at = λ (j : ℕ).
        lo_bundle_decref-elmnts grown c j
        ∙ put_element-elmnts (lo_bundle_incref h c) b size (bundle c) j in
      let at_i = at i in
      let at_b = at b in
      let inc_i = lo_bundle_incref-elmnts h c i in
      let inc_b = lo_bundle_incref-elmnts h c b in
      take_back-elmnts (lo_bundle_decref grown c) b i ∙ ground arith

  undone-refcount : (i : ℕ) → (undone.bundles i).refcount ≡ (h.bundles i).refcount
  undone-refcount i =
      let at = λ (j : ℕ).
        put_element-refcount (lo_bundle_incref h c) b size (bundle c) j
        ∙ lo_bundle_incref-refcount h c j in
      let at_i = at i in
      let at_c = at c in
      let dec = lo_bundle_decref-refcount grown c i in
      take_back-refcount (lo_bundle_decref grown c) b i ∙ ground arith

-- Every bundle has the same elements and the same reference count.
abbrev pub Kept : Heap → Heap → Type 0
Kept h h' =
    (i : ℕ)
    → ((h'.bundles i).elmnts ≡ (h.bundles i).elmnts)
      × ((h'.bundles i).refcount ≡ (h.bundles i).refcount)

-- If lo_bundle_add_bundle refuses the bundle `n`, every bundle has the elements and the
-- reference count that it had before.
pub lo_bundle_add_bundle_refused :
    (p : Platform) (fuel : ℕ) (h : Heap) (b n : ℕ) (h' : Heap)
    → lo_bundle_add_bundle p fuel h b (some n) ≡ refused h'
    → Kept h h'
unfolding lo_bundle_add_bundle lo_bundle_add_element check_circular
lo_bundle_add_bundle_refused p fuel h b n h' e = by_size (grown_size p (h.bundles b)) e
  where
    by_answer :
        (size : ℕ) (r : Option Bool)
        → elim r [
          | none ↦ no_fuel
          | some true ↦ refused (undone h b n size)
          | some false ↦ added (grown h b n size)
        ]
          ≡ refused h'
        → Kept h h'
    by_answer size none e = absurd (cc)
    by_answer size (some false) e = absurd (cc)
    by_answer size (some true) e =
        let same : undone h b n size ≡ h' = cc in
        subst (λ g. Kept h g) same (λ i. (undone-elmnts h b n size i, undone-refcount h b n size i))

    by_size :
        (o : Option ℕ)
        → elim o [ none ↦ no_memory | some size ↦ check_circular p fuel (grown h b n size) b n ]
          ≡ refused h'
        → Kept h h'
    by_size none e = absurd (cc)
    by_size (some size) e = by_answer size (lo_bundle_circular (grown h b n size) fuel b) e
