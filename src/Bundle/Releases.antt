-- ===== src/Bundle/Releases.antt =====
-- The steps of lo_bundle_free_recursive (src/bundle.c), and the reference counts behind each.
use liblo.Base.{
  ℕ, zero, suc, ◌+◌, ◌-◌, ◌≤◌, ◌<◌, ◌≡◌, refl, sym, ap, subst, ◌∙◌, ◌⊎◌, Bool, true, false, some,
  List, [], ◌∷◌, ◌++◌, leb, ◌==◌, if◌then◌else◌, arith, Bool-cases, inl, inr,
}
use liblo.Bundle.State.{Element, message, bundle, set_bundle, set_message, lo_bundle_decref}
use liblo.Bundle.Free.{
  Store, Freed, done, dangling, no_fuel, release_message, free_message, collect_elements,
  release_bundle, lo_bundle_free_recursive,
}
use liblo.Bundle.Counts.{
  is_bundle, is_message, refers, refers-append, uses, uses-add, left, left-add, add, AllBelow,
  AllBelow-append,
}

module _ (spare spare_m : ℕ → ℕ) (els : ℕ → List Element) (n : ℕ)
    (closed : (b : ℕ) → AllBelow n (els b)) where
  -- The references to an object, from bundles that are not in `gone` and in the list `todo`.
  abbrev held : (Element → Bool) → (ℕ → Bool) → List Element → ℕ
  held q gone todo = uses els q n gone + refers q todo

  -- The bundles in `gone` have been released, or their elements are being released, of which `todo`
  -- are left. The count of each other object is that of the references to it, and of those that
  -- the program has beside, `spare` and `spare_m`.
  pub record Sound (s : Store) (gone : ℕ → Bool) (todo : List Element) : Type 0 where
    pub elements : (b : ℕ) → (s.heap.bundles b).elmnts ≡ els b
    pub freed_gone : (b : ℕ) → s.freed b ≡ true → gone b ≡ true
    pub bundle_counts :
        (b : ℕ)
        → (if gone b then 0 else (s.heap.bundles b).refcount)
          ≡ held (is_bundle b) gone todo + (if gone b then 0 else spare b)
    pub message_counts :
        (m : ℕ)
        → (if s.lost m then 0 else (s.heap.messages m).refcount)
          ≡ held (is_message m) gone todo + (if s.lost m then 0 else spare_m m)
    pub todo_below : AllBelow n todo

  message_step :
      (s : Store) (gone : ℕ → Bool) (path : List ℕ) (m : ℕ) (todo : List Element)
      → Sound s gone (message path m ∷ todo)
      → (free_message s m ≡ some (release_message s m)) × Sound (release_message s m) gone todo
  unfolding free_message release_message refers set_message
  message_step s gone path m todo sound =
      let here = sound.message_counts m in
      let not_lost : s.lost m ≡ false = ground arith in
      (
        rw (not_lost, free_message) refl,
        record {
          elements = sound.elements;
          freed_gone = sound.freed_gone;
          bundle_counts = λ k. (let there = sound.bundle_counts k in ground arith);
          message_counts = λ k. (let there = sound.message_counts k in ground arith);
          todo_below = sound.todo_below;
        },
      )

  decref-elements :
      (s : Store) (b k : ℕ)
      → ((lo_bundle_decref s.heap b).bundles k).elmnts ≡ (s.heap.bundles k).elmnts
  unfolding lo_bundle_decref set_bundle
  decref-elements s b k = elim (Bool-cases (k == b)) [
    | inl same ↦
        let k_is : k ≡ b = ground arith in rw same (ap (λ i. (s.heap.bundles i).elmnts) (sym k_is))
    | inr other ↦ rw other refl
  ]

  -- There is a reference to a bundle in `todo`: it is given back.
  bundle_step :
      (s : Store) (gone : ℕ → Bool) (c : ℕ) (todo : List Element)
      → Sound s gone (bundle c ∷ todo)
      → (gone c ≡ false) × Sound (record s { heap = lo_bundle_decref s.heap c }) gone todo
  unfolding refers lo_bundle_decref set_bundle
  bundle_step s gone c todo sound =
      let here = sound.bundle_counts c in
      let live : gone c ≡ false = ground arith in
      (
        live,
        record {
          elements = λ k. decref-elements s c k ∙ sound.elements k;
          freed_gone = sound.freed_gone;
          bundle_counts = λ k. (let there = sound.bundle_counts k in ground arith);
          message_counts = λ k. (let there = sound.message_counts k in ground arith);
          todo_below = sound.todo_below.1;
        },
      )

  -- How a call ends that begins with `freed` and `gone`: more may be released, and what is added
  -- to `gone` has been released.
  abbrev pub Good : (ℕ → Bool) → (ℕ → Bool) → List Element → Freed → Type 0
  Good freed gone todo (done s) =
      (gone' : ℕ → Bool) × Sound s gone' todo
      × (left n gone' ≤ left n gone)
      × ((b : ℕ) → gone b ≡ true → gone' b ≡ true)
      × ((b : ℕ) → freed b ≡ true → s.freed b ≡ true)
      × ((b : ℕ) → gone' b ≡ true → (s.freed b ≡ true) ⊎ (gone b ≡ true))
  Good freed gone todo dangling = ⊥
  Good freed gone todo no_fuel = ⊥

  -- One call for a bundle of which the counts are right once a reference to it is given back.
  abbrev Frees : ℕ → Type 0
  Frees fuel =
      (s : Store) (gone : ℕ → Bool) (todo : List Element) (b : ℕ)
      → Sound (record s { heap = lo_bundle_decref s.heap b }) gone todo
      → b < n
      → gone b ≡ false
      → left n gone < fuel
      → Good s.freed gone todo (lo_bundle_free_recursive fuel s b)

  Good-trans :
      (freed between gone mid : ℕ → Bool) (todo : List Element) (r : Freed)
      → left n mid ≤ left n gone
      → ((b : ℕ) → gone b ≡ true → mid b ≡ true)
      → ((b : ℕ) → freed b ≡ true → between b ≡ true)
      → ((b : ℕ) → mid b ≡ true → (between b ≡ true) ⊎ (gone b ≡ true))
      → Good between mid todo r
      → Good freed gone todo r
  Good-trans freed between gone mid todo (done s) le sub kept new
        (gone', sound, le', sub', kept', new') =
      (
        gone',
        sound,
        omega arith,
        λ b e. sub' b (sub b e),
        λ b e. kept' b (kept b e),
        λ b e. earlier b (new' b e),
      )
    where
      earlier : (b : ℕ) → (s.freed b ≡ true) ⊎ (mid b ≡ true) → (s.freed b ≡ true) ⊎ (gone b ≡ true)
      earlier b (inl released) = inl released
      earlier b (inr e) = earliest b (new b e)
        where
          earliest :
              (b : ℕ) → (between b ≡ true) ⊎ (gone b ≡ true) → (s.freed b ≡ true) ⊎ (gone b ≡ true)
          earliest b (inl e) = inl (kept' b e)
          earliest b (inr e) = inr e
  Good-trans freed between gone mid todo dangling le sub kept new good = elim good [ ]
  Good-trans freed between gone mid todo no_fuel le sub kept new good = elim good [ ]

  collect_elements-Good :
      (fuel : ℕ) (es todo : List Element) (s : Store) (gone : ℕ → Bool)
      → Frees fuel
      → Sound s gone (es ++ todo)
      → left n gone < fuel
      → Good s.freed gone todo (collect_elements (lo_bundle_free_recursive fuel) es s)
  unfolding collect_elements release_message
  collect_elements-Good fuel [] todo s gone frees sound enough =
      (gone, sound, omega arith, λ b e. e, λ b e. e, λ b e. inr e)
  collect_elements-Good fuel (message path m ∷ es) todo s gone frees sound enough =
      let (freed, rest) = message_step s gone path m (es ++ todo) sound in
      rw (freed, collect_elements)
        (collect_elements-Good fuel es todo (release_message s m) gone frees rest enough)
  collect_elements-Good fuel (bundle c ∷ es) todo s gone frees sound enough =
      let (here, rest) = bundle_step s gone c (es ++ todo) sound in
      go _ (frees s gone (es ++ todo) c rest sound.todo_below.0 here enough)
        (λ s' mid sound' le. collect_elements-Good fuel es todo s' mid frees sound' (omega arith))
    where
      go :
          (r : Freed)
          → Good s.freed gone (es ++ todo) r
          → ((s' : Store) (mid : ℕ → Bool)
              → Sound s' mid (es ++ todo)
              → left n mid ≤ left n gone
              → Good s'.freed mid todo (collect_elements (lo_bundle_free_recursive fuel) es s'))
          → Good s.freed gone todo (elim r [
            | done s' ↦ collect_elements (lo_bundle_free_recursive fuel) es s'
            | dangling ↦ dangling
            | no_fuel ↦ no_fuel
          ])
      go (done s') (mid, sound', le, sub, kept, new) rest =
          Good-trans s.freed s'.freed gone mid todo _ le sub kept new (rest s' mid sound' le)
      go dangling good rest = elim good [ ]
      go no_fuel good rest = elim good [ ]

  counted :
      (s : Store) (b : ℕ)
      → ((lo_bundle_decref s.heap b).bundles b).refcount ≡ (s.heap.bundles b).refcount - 1
  unfolding lo_bundle_decref set_bundle
  counted s b = ground arith

  -- A bundle to which there is no reference goes, and its elements are to be released.
  add-Sound :
      (s : Store) (gone : ℕ → Bool) (todo : List Element) (b : ℕ)
      → Sound s gone todo
      → b < n
      → gone b ≡ false
      → held (is_bundle b) gone todo + spare b ≤ 0
      → Sound s (add b gone) (els b ++ todo)
  add-Sound s gone todo b sound lt here unused = record {
    elements = sound.elements;
    freed_gone = λ k e. (let before = sound.freed_gone k e in ground arith);
    bundle_counts = λ k.
        (let there = sound.bundle_counts k in
          let moved = uses-add els (is_bundle k) n b gone lt here in
          let both = refers-append (is_bundle k) (els b) todo in
          elim (Bool-cases (k == b)) [
            | inl same ↦
                let k_is : k ≡ b = ground arith in
                let none_left =
                  subst (λ i. held (is_bundle i) gone todo + spare i ≤ 0) (sym k_is) unused in
                ground arith
            | inr other ↦ ground arith
          ]);
    message_counts = λ k.
        (let there = sound.message_counts k in
          let moved = uses-add els (is_message k) n b gone lt here in
          let both = refers-append (is_message k) (els b) todo in ground arith);
    todo_below = AllBelow-append n (els b) todo (closed b) sound.todo_below;
  }

  -- The end of the call for a bundle.
  release-Good :
      (freed gone : ℕ → Bool) (todo : List Element) (b : ℕ) (r : Freed)
      → gone b ≡ false
      → left n (add b gone) ≤ left n gone
      → Good freed (add b gone) todo r
      → Good freed gone todo (release_bundle b r)
  unfolding release_bundle
  release-Good freed gone todo b (done s) here le (gone', sound, le', sub, kept, new) = (
    gone',
    record {
      elements = sound.elements;
      freed_gone = λ k e. (let before = sound.freed_gone k in let it = sub k in ground arith);
      bundle_counts = sound.bundle_counts;
      message_counts = sound.message_counts;
      todo_below = sound.todo_below;
    },
    omega arith,
    λ k e. (let it = sub k in ground arith),
    λ k e. (let it = kept k e in ground arith),
    λ k e. (let it = new k e in ground arith),
  )
  release-Good freed gone todo b dangling here le good = good
  release-Good freed gone todo b no_fuel here le good = good

  pub Frees-all : (fuel : ℕ) → Frees fuel
  unfolding lo_bundle_free_recursive
  Frees-all zero s gone todo b sound1 lt here enough = absurd (omega arith)
  Frees-all (suc fuel) s gone todo b sound1 lt here enough =
      let s1 : Store = record s { heap = lo_bundle_decref s.heap b } in
      let counts = sound1.bundle_counts b in
      let not_freed : s.freed b ≡ false = ground (arith, sound1.freed_gone b) in
      elim (Bool-cases (leb ((lo_bundle_decref s.heap b).bundles b).refcount 0)) [
        | inr more ↦
            rw (not_freed, more) (gone, sound1, omega arith, λ k e. e, λ k e. e, λ k e. inr e)
        | inl last ↦
            let fewer = left-add n b gone lt here in
            let unused : held (is_bundle b) gone todo + spare b ≤ 0 = ground arith in
            let sound2 = add-Sound s1 gone todo b sound1 lt here unused in
            let good =
              collect_elements-Good fuel (els b) todo s1 (add b gone) (Frees-all fuel) sound2
                (omega arith) in
            let good' : Good s.freed (add b gone) todo
                (collect_elements (lo_bundle_free_recursive fuel) (s.heap.bundles b).elmnts s1) =
              subst
                (λ es.
                  Good s.freed (add b gone) todo
                    (collect_elements (lo_bundle_free_recursive fuel) es s1))
                (sym (sound1.elements b) ∙ decref-elements s b b) good in
            rw (not_freed, last) (release-Good s.freed gone todo b _ here (omega arith) good')
      ]
