-- ===== src/Examples/Bundles.antt =====
-- The theorems on bundles (src/bundle.c) at concrete heaps, and runs of the code on them.
use liblo.Base.{
  ℕ, Bool-cases, inl, inr, Bool, ◌<◌, arith, ◌≡◌, refl, true, false, some, [], ◌∷◌, codes, ◌==◌,
  if◌then◌else◌,
}
use liblo.Osc.{lo_strsize, strlen}
use liblo.Timetag.{immediate}
use liblo.Message.{Platform, lo_message_new, lo_message_length}
use liblo.Bundle.Free.{Store, done, lo_bundle_free_recursive}
use liblo.Bundle.Counts.{AllBelow, uses, refers}
use liblo.Bundle.Frees.{IsCounted, given_back, lo_bundle_free_recursive-IsCounted}
use liblo.Bundle.{
  message, bundle, Bundle, Heap, lo_bundle_decref, Added, added, refused, lo_bundle_new,
  lo_bundle_circular, lo_bundle_add_bundle, lo_bundle_length, add_lengths, lo_bundle_add_element,
  grown_size, check_circular, walk_tree, is_in_list, walk_elements, put_element, set_bundle,
  lo_bundle_incref,
}
use liblo.Bundle.Ends.{IsClosed}
use liblo.Bundle.Accepts.{Judged, lo_bundle_add_bundle-Judged}
use liblo.Bundle.Loops.{Nests, first, later}
use liblo.Bundle.Cycles.{lo_bundle_add_bundle_refused, Kept}

abbrev host : Platform
host = record {
  big = false;
  log_ratio = λ b a. 0;
  realloc = λ n. true;
  junk = λ n. 170;
  pointer = λ s. 4096;
}

-- Bundle 1 holds a message without arguments and bundle 2, and the other bundles are empty.
abbrev nested : Heap
nested = record {
  bundles = λ i.
      if i == 1
      then record {
        size = 4;
        ts = immediate;
        elmnts = message (codes "/a") 0 ∷ bundle 2 ∷ [];
        refcount = 0;
      }
      else lo_bundle_new immediate;
  messages = λ i. lo_message_new;
}

-- The heap that is left.
abbrev after : Added → Heap
after (added h) = h
after (refused h) = h
after _ = nested

nested_length : lo_bundle_length nested 3 1 ≡ some 48
unfolding lo_bundle_length add_lengths lo_bundle_new lo_message_length lo_strsize strlen
    lo_message_new
nested_length = refl

-- The outer bundle put into the inner one closes a cycle.
lo_bundle_add_bundle_refused_example :
    Kept nested (after (lo_bundle_add_bundle host 4 nested 2 (some 1)))
unfolding lo_bundle_add_bundle lo_bundle_add_element grown_size check_circular lo_bundle_circular
    walk_tree is_in_list walk_elements put_element set_bundle lo_bundle_incref lo_bundle_new
lo_bundle_add_bundle_refused_example = lo_bundle_add_bundle_refused host 4 nested 2 1 _ refl

nested-IsClosed : IsClosed nested 4
unfolding lo_bundle_new
nested-IsClosed b c lt n = by_test (b == 1) c n
  where
    by_test :
        (t : Bool) (d : ℕ)
        → Nests
            (if t
              then record {
                size = 4;
                ts = immediate;
                elmnts = message (codes "/a") 0 ∷ bundle 2 ∷ [];
                refcount = 0;
              }
              else lo_bundle_new immediate).elmnts
            d
        → d < 4
    by_test true d (later _ (first _ _)) = omega arith
    by_test true d (later _ (later _ m)) = elim m [ ]
    by_test false d m = elim m [ ]

lo_bundle_add_bundle-Judged_example :
    Judged host 4 nested 2 1 (lo_bundle_add_bundle host 5 nested 2 (some 1))
lo_bundle_add_bundle-Judged_example =
    lo_bundle_add_bundle-Judged host nested 4 2 1 nested-IsClosed (omega arith) (omega arith)

-- Bundle 0 holds bundle 1 and message 0, and bundle 1 holds message 0; the program has no reference
-- of its own.
abbrev shared : ℕ → Bundle
shared i =
    if i == 0
    then record (lo_bundle_new immediate) { elmnts = bundle 1 ∷ message (codes "/a") 0 ∷ [] }
    else if i == 1
    then record (lo_bundle_new immediate) { elmnts = message (codes "/b") 0 ∷ []; refcount = 1 }
    else lo_bundle_new immediate

abbrev kept : Store
kept = record {
  heap = record {
    bundles = shared;
    messages = λ i. if i == 0 then record lo_message_new { refcount = 2 } else lo_message_new;
  };
  freed = λ i. false;
  lost = λ i. false;
}

kept-IsCounted : IsCounted (λ b. 0) (λ m. 0) 2 (given_back kept 0)
unfolding uses refers lo_bundle_decref set_bundle lo_bundle_new lo_message_new
kept-IsCounted = record {
  closed = below;
  bundle_counts = λ b. ground arith;
  message_counts = λ m. ground arith;
}
  where
    below : (b : ℕ) → AllBelow 2 ((given_back kept 0).heap.bundles b).elmnts
    below b = elim (Bool-cases (b == 0)) [
      | inl e ↦ rw e (omega arith, tt)
      | inr e ↦ elim (Bool-cases (b == 1)) [ inl e' ↦ rw (e, e') tt | inr e' ↦ rw (e, e') tt ]
    ]

lo_bundle_free_recursive-IsCounted_example :
    (s' : Store) × (lo_bundle_free_recursive 3 kept 0 ≡ done s')
    × IsCounted (λ b. 0) (λ m. 0) 2 s'
    × (s'.freed 0 ≡ true)
unfolding lo_bundle_decref set_bundle lo_bundle_new
lo_bundle_free_recursive-IsCounted_example =
    lo_bundle_free_recursive-IsCounted (λ b. 0) (λ m. 0) 2 kept 0 kept-IsCounted (omega arith) refl
