-- ===== src/Bundle/Free.antt =====
-- lo_bundle_free_recursive, lo_bundle_free_messages and collect_element of src/bundle.c, with
-- lo_message_free, over a heap of which objects are released.
use liblo.Base.{
  ℕ, zero, suc, ◌-◌, Bool, true, Option, none, some, List, [], ◌∷◌, ◌&&◌, leb, ◌==◌, if◌then◌else◌,
}
use liblo.Bundle.State.{Element, message, bundle, Heap, set_message, lo_bundle_decref}

-- Which bundles and messages have been released.
pub record Store : Type 0 where
  pub heap : Heap
  pub freed : ℕ → Bool
  pub lost : ℕ → Bool

-- How a call ends; `dangling` is the use of an object that has been released.
pub data Freed : Type 0 where
  done : Store → Freed
  dangling no_fuel : Freed

-- `--m->refcount`, which from 0 goes to -1 in C: both are no more than 0.
unfoldable pub release_message : Store → ℕ → Store
release_message s m =
    let v = s.heap.messages m in
    record s {
      heap = set_message s.heap m (record v { refcount = v.refcount - 1 });
      lost = λ i. if i == m && leb (v.refcount - 1) 0 then true else s.lost i;
    }

unfoldable pub free_message : Store → ℕ → Option Store
free_message s m = if s.lost m then none else some (release_message s m)

-- The loop over the elements, with collect_element; `nested` is the call for a bundle.
unfoldable pub collect_elements : (Store → ℕ → Freed) → List Element → Store → Freed
collect_elements nested [] s = done s
collect_elements nested (message path m ∷ es) s = elim (free_message s m) [
  | none ↦ dangling
  | some s' ↦ collect_elements nested es s'
]
collect_elements nested (bundle c ∷ es) s = elim (nested s c) [
  | done s' ↦ collect_elements nested es s'
  | dangling ↦ dangling
  | no_fuel ↦ no_fuel
]

-- The end of the call for `b`: the array and the structure are released.
unfoldable pub release_bundle : ℕ → Freed → Freed
release_bundle b (done s) = done (record s { freed = λ i. if i == b then true else s.freed i })
release_bundle b dangling = dangling
release_bundle b no_fuel = no_fuel

-- The fuel is for the depth of nested calls.
unfoldable pub lo_bundle_free_recursive : ℕ → Store → ℕ → Freed
lo_bundle_free_recursive zero s b = no_fuel
lo_bundle_free_recursive (suc fuel) s b =
    let s' = record s { heap = lo_bundle_decref s.heap b } in
    let collected = collect_elements (lo_bundle_free_recursive fuel) (s.heap.bundles b).elmnts s' in
    if s.freed b
    then dangling
    else if leb (s'.heap.bundles b).refcount 0
    then release_bundle b collected
    else done s'

unfoldable pub lo_bundle_free_messages : ℕ → Store → ℕ → Freed
lo_bundle_free_messages fuel s b = lo_bundle_free_recursive fuel s b
