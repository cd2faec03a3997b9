-- ===== src/Bundle/Accepts.antt =====
-- What lo_bundle_add_bundle of src/bundle.c accepts, in a program with finitely many bundles.
use liblo.Base.{
  ℕ, ◌+◌, ◌<◌, ◌≡◌, ◌⊎◌, inl, inr, refl, sym, subst, ap, ◌∙◌, Bool, true, false, Option, none, some,
  List, [], ◌∷◌, ◌++◌, ◌==◌, if◌then◌else◌,
}
use liblo.Message.{Platform}
use liblo.Bundle.State.{
  Element, bundle, Heap, lo_bundle_incref, lo_bundle_decref, lo_bundle_circular, Added, added,
  refused, no_memory, no_fuel, put_element, take_back, grown_size, check_circular,
  lo_bundle_add_element, lo_bundle_add_bundle, lo_bundle_length,
}
use liblo.Bundle.Arrays.{lo_bundle_incref-elmnts, put_element-elmnts}
use liblo.Bundle.Loops.{
  Nests, first, later, LoopsUnder, lo_bundle_circular-true, lo_bundle_circular-false,
}
use liblo.Bundle.Ends.{IsClosed, Answered, lo_bundle_circular-Answered}
use liblo.Bundle.Cycles.{Ends, Kept, walk_tree-Ends, lo_bundle_add_bundle_refused}

Nests-inv : (es : List Element) (c d : ℕ) → Nests (es ++ bundle c ∷ []) d → Nests es d ⊎ (d ≡ c)
Nests-inv [] c d (first _ _) = inr refl
Nests-inv [] c d (later _ n) = elim n [ ]
Nests-inv (bundle x ∷ es) c d (first _ _) = inl (first x es)
Nests-inv (e ∷ es) c d (later _ n) = elim (Nests-inv es c d n) [
  | inl there ↦ inl (later e there)
  | inr last ↦ inr last
]

-- The heap with bundle `c` in bundle `b`.
abbrev pub with_bundle : Heap → ℕ → ℕ → ℕ → Heap
with_bundle h b c size = put_element (lo_bundle_incref h c) b size (bundle c)

with_bundle-elmnts :
    (h : Heap) (b c size i : ℕ)
    → ((with_bundle h b c size).bundles i).elmnts
      ≡ (if i == b then (h.bundles b).elmnts ++ bundle c ∷ [] else (h.bundles i).elmnts)
with_bundle-elmnts h b c size i =
    put_element-elmnts (lo_bundle_incref h c) b size (bundle c) i
    ∙ ap (λ es. if i == b then es ++ bundle c ∷ [] else ((lo_bundle_incref h c).bundles i).elmnts)
        (lo_bundle_incref-elmnts h c b)
    ∙ ap (λ es. if i == b then (h.bundles b).elmnts ++ bundle c ∷ [] else es)
        (lo_bundle_incref-elmnts h c i)

with_bundle-IsClosed :
    (h : Heap) (n b c size : ℕ) → IsClosed h n → b < n → c < n → IsClosed (with_bundle h b c size) n
with_bundle-IsClosed h n b c size closed lt_b lt_c i d lt_i nested =
    by_test (i == b) refl (subst (λ es. Nests es d) (with_bundle-elmnts h b c size i) nested)
  where
    by_test :
        (t : Bool)
        → (i == b) ≡ t
        → Nests (if t then (h.bundles b).elmnts ++ bundle c ∷ [] else (h.bundles i).elmnts) d
        → d < n
    by_test true e m = elim (Nests-inv (h.bundles b).elmnts c d m) [
      | inl there ↦ closed b d lt_b there
      | inr last ↦ subst (λ x. x < n) (sym last) lt_c
    ]
    by_test false e m = closed i d lt_i m

-- What the result says.
abbrev pub Judged : Platform → ℕ → Heap → ℕ → ℕ → Added → Type 0
Judged p n h b c (added h') =
    (¬ LoopsUnder h' b)
    × Ends (lo_bundle_length h' (n + 1) b)
    × ((size : ℕ) × (h' ≡ with_bundle h b c size))
Judged p n h b c (refused h') = ((size : ℕ) × LoopsUnder (with_bundle h b c size) b) × Kept h h'
Judged p n h b c no_memory = grown_size p (h.bundles b) ≡ none
Judged p n h b c no_fuel = ⊥

-- If there are `n` bundles, which hold no others, then within a depth of `n + 1` calls
-- lo_bundle_add_bundle ends for any two of them. It accepts the bundle only if then no bundle, the
-- one that it was added to or one nested in it, is nested in itself, and lo_bundle_length ends there
-- within the same depth; it refuses it only if such a bundle would be nested in itself, and then
-- every bundle has the elements and the reference count that it had before; and otherwise there was
-- no memory for the array.
pub lo_bundle_add_bundle-Judged :
    (p : Platform) (h : Heap) (n b c : ℕ)
    → IsClosed h n
    → b < n
    → c < n
    → Judged p n h b c (lo_bundle_add_bundle p (n + 1) h b (some c))
unfolding lo_bundle_add_bundle lo_bundle_add_element check_circular
lo_bundle_add_bundle-Judged p h n b c closed lt_b lt_c = by_size (grown_size p (h.bundles b)) refl
  where
    result : Added
    result = lo_bundle_add_bundle p (n + 1) h b (some c)

    by_answer :
        (size : ℕ)
        → result ≡ check_circular p (n + 1) (with_bundle h b c size) b c
        → (r : Option Bool) → lo_bundle_circular (with_bundle h b c size) (n + 1) b ≡ r
        → Judged p n h b c result
    by_answer size done none e =
        let answered =
          lo_bundle_circular-Answered (with_bundle h b c size) n
            (with_bundle-IsClosed h n b c size closed lt_b lt_c) b lt_b in
        absurd (subst Answered e answered)
    by_answer size done (some true) e =
        let is : result ≡ refused (take_back (lo_bundle_decref (with_bundle h b c size) c) b) =
          done ∙ (rw (e, check_circular) refl) in
        subst (Judged p n h b c) (sym is) (
          (size, lo_bundle_circular-true (with_bundle h b c size) _ b e),
          lo_bundle_add_bundle_refused p (n + 1) h b c _ is,
        )
    by_answer size done (some false) e =
        let is : result ≡ added (with_bundle h b c size) = done ∙ (rw (e, check_circular) refl) in
        subst (Judged p n h b c) (sym is) (
          lo_bundle_circular-false (with_bundle h b c size) _ b e,
          walk_tree-Ends (with_bundle h b c size) (n + 1) [] b (unfold lo_bundle_circular in e),
          (size, refl),
        )

    by_size : (o : Option ℕ) → grown_size p (h.bundles b) ≡ o → Judged p n h b c result
    by_size none e =
        let is : result ≡ no_memory = rw (e, lo_bundle_add_bundle, lo_bundle_add_element) refl in
        subst (Judged p n h b c) (sym is) e
    by_size (some size) e =
        by_answer size (rw (e, lo_bundle_add_bundle, lo_bundle_add_element) refl) _ refl
