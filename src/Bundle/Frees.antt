-- ===== src/Bundle/Frees.antt =====
-- Reference counts (src/bundle.c): lo_bundle_free_recursive uses no object that has been released.
use liblo.Base.{
  ℕ, zero, suc, ◌+◌, ◌≤◌, ◌<◌, ◌≡◌, refl, sym, ap, subst, ◌∙◌, ◌⊎◌, Bool, true, false, List, [],
  leb, ◌==◌, if◌then◌else◌, arith, Bool-cases, inl, inr,
}
use liblo.Bundle.State.{Element, lo_bundle_decref}
use liblo.Bundle.Free.{
  Store, Freed, done, dangling, no_fuel, release_bundle, lo_bundle_free_recursive,
}
use liblo.Bundle.Counts.{is_bundle, is_message, refers, uses, left, AllBelow}
use liblo.Bundle.Releases.{Sound, Good, Frees-all}

-- The elements of the bundles on a heap.
abbrev elements_of : Store → ℕ → List Element
elements_of s b = (s.heap.bundles b).elmnts

-- The bundles hold only bundles below `n`, and the count of each object that has not been released is
-- the number of elements of such bundles that refer to it, with the references that the program has
-- beside, `spare` for a bundle and `spare_m` for a message; to one that has been released there is
-- no reference.
pub record IsCounted (spare spare_m : ℕ → ℕ) (n : ℕ) (s : Store) : Type 0 where
  pub closed : (b : ℕ) → AllBelow n (elements_of s b)
  pub bundle_counts :
      (b : ℕ)
      → (if s.freed b then 0 else (s.heap.bundles b).refcount)
        ≡ uses (elements_of s) (is_bundle b) n s.freed + (if s.freed b then 0 else spare b)
  pub message_counts :
      (m : ℕ)
      → (if s.lost m then 0 else (s.heap.messages m).refcount)
        ≡ uses (elements_of s) (is_message m) n s.freed + (if s.lost m then 0 else spare_m m)

uses-same :
    (els els' : ℕ → List Element) (q : Element → Bool) (n : ℕ) (gone gone' : ℕ → Bool)
    → ((b : ℕ) → els b ≡ els' b)
    → ((b : ℕ) → gone b ≡ gone' b)
    → uses els q n gone ≡ uses els' q n gone'
unfolding uses
uses-same els els' q zero gone gone' e g = refl
uses-same els els' q (suc n) gone gone' e g =
    let rest = uses-same els els' q n gone gone' e g in
    let here = ap (refers q) (e n) in let same = g n in ground arith

-- Where the elements are those of the heap and what is gone has been released.
Sound-IsCounted :
    (spare spare_m : ℕ → ℕ) (els : ℕ → List Element) (n : ℕ) (closed : (b : ℕ) → AllBelow n (els b))
    (s : Store) (gone : ℕ → Bool)
    → Sound spare spare_m els n closed s gone []
    → ((b : ℕ) → gone b ≡ s.freed b)
    → IsCounted spare spare_m n s
unfolding refers
Sound-IsCounted spare spare_m els n closed s gone sound same = record {
  closed = λ b. subst (AllBelow n) (sym (sound.elements b)) (closed b);
  bundle_counts = λ b.
      (let there = sound.bundle_counts b in
        let e =
          uses-same els (elements_of s) (is_bundle b) n gone s.freed (λ k. sym (sound.elements k))
            same in
        let g = same b in ground arith);
  message_counts = λ m.
      (let there = sound.message_counts m in
        let e =
          uses-same els (elements_of s) (is_message m) n gone s.freed (λ k. sym (sound.elements k))
            same in
        ground arith);
}

left_le : (n : ℕ) (gone : ℕ → Bool) → left n gone ≤ n
unfolding left
left_le zero gone = omega arith
left_le (suc n) gone = let rest = left_le n gone in ground arith

same_flag : (a b : Bool) → (a ≡ true → b ≡ true) → (b ≡ true → a ≡ true) → a ≡ b
same_flag true b f g = sym (f refl)
same_flag false true f g = g refl
same_flag false false f g = refl

RootFreed : ℕ → Freed → Type 0
RootFreed b (done s) = s.freed b ≡ true
RootFreed b _ = Unit

release-RootFreed : (b : ℕ) (r : Freed) → RootFreed b (release_bundle b r)
unfolding release_bundle RootFreed
release-RootFreed b (done s) = let e : (b == b) ≡ true = ground arith in ground arith
release-RootFreed b dangling = tt
release-RootFreed b no_fuel = tt

-- Whether the bundle itself is released.
root_freed :
    (fuel : ℕ) (s s' : Store) (b : ℕ)
    → s.freed b ≡ false
    → lo_bundle_free_recursive (suc fuel) s b ≡ done s'
    → s'.freed b ≡ leb ((lo_bundle_decref s.heap b).bundles b).refcount 0
unfolding lo_bundle_free_recursive RootFreed
root_freed fuel s s' b here e =
    elim (Bool-cases (leb ((lo_bundle_decref s.heap b).bundles b).refcount 0)) [
      | inl last ↦ subst (RootFreed b) (rw (here, last) at e) (release-RootFreed b _) ∙ sym last
      | inr more ↦ let e' = rw (here, more) at e in sym (ap (freed_or b) e') ∙ here ∙ sym more
    ]
  where
    freed_or : ℕ → Freed → Bool
    freed_or b (done s) = s.freed b
    freed_or b _ = true

IsCounted-Sound :
    (spare spare_m : ℕ → ℕ) (n : ℕ) (s : Store) (counted : IsCounted spare spare_m n s)
    → Sound spare spare_m (elements_of s) n counted.closed s s.freed []
unfolding refers
IsCounted-Sound spare spare_m n s counted = record {
  elements = λ k. refl;
  freed_gone = λ k e. e;
  bundle_counts = λ k. (let there = counted.bundle_counts k in ground arith);
  message_counts = λ k. (let there = counted.message_counts k in ground arith);
  todo_below = tt;
}

-- The store with one reference to the bundle given back.
abbrev pub given_back : Store → ℕ → Store
given_back s b = record s { heap = lo_bundle_decref s.heap b }

-- A call of lo_bundle_free_recursive gives back one reference to the bundle `b`, which has not been
-- released. Where the counts are right without it, the call ends, within a depth of n + 1 calls,
-- it uses no object that has been released, and the counts are right again; and `b` has been
-- released just if it had no other reference.
pub lo_bundle_free_recursive-IsCounted :
    (spare spare_m : ℕ → ℕ) (n : ℕ) (s : Store) (b : ℕ)
    → IsCounted spare spare_m n (given_back s b)
    → b < n
    → s.freed b ≡ false
    → (s' : Store) × (lo_bundle_free_recursive (suc n) s b ≡ done s')
      × IsCounted spare spare_m n s'
      × (s'.freed b ≡ leb ((lo_bundle_decref s.heap b).bundles b).refcount 0)
lo_bundle_free_recursive-IsCounted spare spare_m n s b counted lt here =
    go (lo_bundle_free_recursive (suc n) s b) refl (
      Frees-all spare spare_m (elements_of (given_back s b)) n counted.closed (suc n) s s.freed [] b
        (IsCounted-Sound spare spare_m n (given_back s b) counted) lt here
        (let le = left_le n s.freed in omega arith))
  where
    go :
        (r : Freed)
        → lo_bundle_free_recursive (suc n) s b ≡ r
        → Good spare spare_m (elements_of (given_back s b)) n counted.closed s.freed s.freed [] r
        → (s' : Store) × (lo_bundle_free_recursive (suc n) s b ≡ done s')
          × IsCounted spare spare_m n s'
          × (s'.freed b ≡ leb ((lo_bundle_decref s.heap b).bundles b).refcount 0)
    go (done s') e (gone', after, le, sub, kept, new) = (
      s',
      e,
      Sound-IsCounted spare spare_m (elements_of (given_back s b)) n counted.closed s' gone' after
          (λ k. same_flag (gone' k) (s'.freed k) (λ g. either k (new k g)) (after.freed_gone k)),
      root_freed n s s' b here e,
    )
      where
        either : (k : ℕ) → (s'.freed k ≡ true) ⊎ (s.freed k ≡ true) → s'.freed k ≡ true
        either k (inl f) = f
        either k (inr f) = kept k f
    go dangling e good = elim good [ ]
    go no_fuel e good = elim good [ ]
