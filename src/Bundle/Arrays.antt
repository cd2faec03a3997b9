-- ===== src/Bundle/Arrays.antt =====
-- The array and the count of each bundle behind the operations of src/bundle.c.
use liblo.Base.{
  ℕ, ◌+◌, ◌-◌, ◌≡◌, refl, ◌∙◌, Bool, true, false, [], ◌∷◌, ◌++◌, ◌==◌, if◌then◌else◌, arith,
}
use liblo.Bundle.State.{
  Element, Bundle, Heap, set_bundle, lo_bundle_incref, lo_bundle_decref, put_element, drop_last,
  take_back,
}

-- The array and the count of object `i`, in a heap in which `b` was set.
set_bundle-elmnts :
    (h : Heap) (b : ℕ) (v : Bundle) (i : ℕ)
    → ((set_bundle h b v).bundles i).elmnts ≡ (if i == b then v.elmnts else (h.bundles i).elmnts)
unfolding set_bundle
set_bundle-elmnts h b v i = if_elmnts (i == b)
  where
    if_elmnts :
        (t : Bool)
        → (if t then v else h.bundles i).elmnts ≡ (if t then v.elmnts else (h.bundles i).elmnts)
    if_elmnts true = refl
    if_elmnts false = refl

set_bundle-refcount :
    (h : Heap) (b : ℕ) (v : Bundle) (i : ℕ)
    → ((set_bundle h b v).bundles i).refcount
      ≡ (if i == b then v.refcount else (h.bundles i).refcount)
unfolding set_bundle
set_bundle-refcount h b v i = if_refcount (i == b)
  where
    if_refcount :
        (t : Bool)
        → (if t then v else h.bundles i).refcount
          ≡ (if t then v.refcount else (h.bundles i).refcount)
    if_refcount true = refl
    if_refcount false = refl

-- What one operation does to the array and to the count of each object.
pub lo_bundle_incref-elmnts :
    (h : Heap) (c i : ℕ) → ((lo_bundle_incref h c).bundles i).elmnts ≡ (h.bundles i).elmnts
unfolding lo_bundle_incref
lo_bundle_incref-elmnts h c i = set_bundle-elmnts h c _ i ∙ ground arith

pub lo_bundle_decref-elmnts :
    (h : Heap) (c i : ℕ) → ((lo_bundle_decref h c).bundles i).elmnts ≡ (h.bundles i).elmnts
unfolding lo_bundle_decref
lo_bundle_decref-elmnts h c i = set_bundle-elmnts h c _ i ∙ ground arith

pub lo_bundle_incref-refcount :
    (h : Heap) (c i : ℕ)
    → ((lo_bundle_incref h c).bundles i).refcount
      ≡ (if i == c then (h.bundles c).refcount + 1 else (h.bundles i).refcount)
unfolding lo_bundle_incref
lo_bundle_incref-refcount h c i = set_bundle-refcount h c _ i

pub lo_bundle_decref-refcount :
    (h : Heap) (c i : ℕ)
    → ((lo_bundle_decref h c).bundles i).refcount
      ≡ (if i == c then (h.bundles c).refcount - 1 else (h.bundles i).refcount)
unfolding lo_bundle_decref
lo_bundle_decref-refcount h c i = set_bundle-refcount h c _ i

pub put_element-elmnts :
    (h : Heap) (b size : ℕ) (e : Element) (i : ℕ)
    → ((put_element h b size e).bundles i).elmnts
      ≡ (if i == b then (h.bundles b).elmnts ++ e ∷ [] else (h.bundles i).elmnts)
unfolding put_element
put_element-elmnts h b size e i = set_bundle-elmnts h b _ i

pub put_element-refcount :
    (h : Heap) (b size : ℕ) (e : Element) (i : ℕ)
    → ((put_element h b size e).bundles i).refcount ≡ (h.bundles i).refcount
unfolding put_element
put_element-refcount h b size e i = set_bundle-refcount h b _ i ∙ ground arith

pub take_back-elmnts :
    (h : Heap) (b i : ℕ)
    → ((take_back h b).bundles i).elmnts
      ≡ (if i == b then drop_last (h.bundles b).elmnts else (h.bundles i).elmnts)
unfolding take_back
take_back-elmnts h b i = set_bundle-elmnts h b _ i

pub take_back-refcount :
    (h : Heap) (b i : ℕ) → ((take_back h b).bundles i).refcount ≡ (h.bundles i).refcount
unfolding take_back
take_back-refcount h b i = set_bundle-refcount h b _ i ∙ ground arith
