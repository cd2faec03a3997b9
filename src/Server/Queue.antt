-- ===== src/Server/Queue.antt =====
-- The queue of messages for later: queue_data and dispatch_queued of src/server.c.
use liblo.Base.{
  ℕ, suc, ◌+◌, ◌^◌, ◌<◌, ◌≤◌, ◌≡◌, ◌≢◌, ◌⊎◌, refl, ap, Bool, true, false, ◌||◌, Option, none, some,
  List, [], ◌∷◌, ◌++◌, Bytes, ◌==◌, if◌then◌else◌, arith, Bool-cases, inl, inr,
}
use native.Mathlib.Decide.{ℕ_discrete as dec_eq}
use liblo.Timetag.{Timetag, units, is_later, is_near}
use liblo.Message.{Message}

-- `sock` is `none` for -1.
pub record Queued : Type 0 where
  pub ts : Timetag
  pub path : Bytes
  pub msg : Message
  pub sock : Option ℕ

-- The new entry goes before the first one that is later.
unfoldable pub queue_data : List Queued → Queued → List Queued
queue_data [] ins = ins ∷ []
queue_data (it ∷ queued) ins =
    let later = queue_data queued ins in
    if is_later it.ts ins.ts then ins ∷ it ∷ queued else it ∷ later

-- The loop of dispatch_queued once the head has been dispatched at `disp_time`: the entries that
-- are dispatched as well, and those that stay.
unfoldable pub dispatch_rest : Timetag → Bool → List Queued → List Queued × List Queued
dispatch_rest disp_time all [] = ([], [])
dispatch_rest disp_time all (head ∷ queued) =
    let (now, later) = dispatch_rest disp_time all queued in
    if is_near head.ts disp_time || all then (head ∷ now, later) else ([], head ∷ queued)

-- `none` is the error path of an empty queue, which throws LO_INT_ERR.
unfoldable pub dispatch_queued : List Queued → Bool → Option (List Queued × List Queued)
dispatch_queued [] all = none
dispatch_queued (head ∷ queued) all =
    let (now, later) = dispatch_rest head.ts all queued in some (head ∷ now, later)

abbrev pub AllFrom : ℕ → List Queued → Type 0
AllFrom n [] = Unit
AllFrom n (q ∷ qs) = (n ≤ units q.ts) × AllFrom n qs

abbrev pub AllUpTo : ℕ → List Queued → Type 0
AllUpTo n [] = Unit
AllUpTo n (q ∷ qs) = (units q.ts ≤ n) × AllUpTo n qs

-- In the order of time.
abbrev pub IsOrdered : List Queued → Type 0
IsOrdered [] = Unit
IsOrdered (q ∷ qs) = AllFrom (units q.ts) qs × IsOrdered qs

AllFrom-le : (n k : ℕ) (qs : List Queued) → n ≤ k → AllFrom k qs → AllFrom n qs
AllFrom-le n k [] h a = tt
AllFrom-le n k (q ∷ qs) h a = (omega arith, AllFrom-le n k qs h a.1)

AllFrom-queue_data :
    (n : ℕ) (qs : List Queued) (ins : Queued)
    → n ≤ units ins.ts
    → AllFrom n qs
    → AllFrom n (queue_data qs ins)
unfolding queue_data
AllFrom-queue_data n [] ins h a = (h, tt)
AllFrom-queue_data n (q ∷ qs) ins h a = ground (arith, AllFrom-queue_data n qs ins h a.1)

-- Queueing keeps the order of time.
pub queue_data-IsOrdered :
    (qs : List Queued) (ins : Queued) → IsOrdered qs → IsOrdered (queue_data qs ins)
unfolding queue_data
queue_data-IsOrdered [] ins o = (tt, tt)
queue_data-IsOrdered (q ∷ qs) ins o = elim (Bool-cases (is_later q.ts ins.ts)) [
  | inl e ↦
      let lt : units ins.ts ≤ units q.ts = unfold is_later in ground arith in
      rw e ((lt, AllFrom-le (units ins.ts) (units q.ts) qs lt o.0), o)
  | inr e ↦
      let ge : units q.ts ≤ units ins.ts = unfold is_later in ground arith in
      rw e (AllFrom-queue_data (units q.ts) qs ins ge o.0, queue_data-IsOrdered qs ins o.1)
]

-- Where the new entry goes: behind everything that is not later, before everything that is.
queue_data_place :
    (qs : List Queued) (ins : Queued)
    → IsOrdered qs
    → (front back : List Queued) × (qs ≡ front ++ back)
      × (queue_data qs ins ≡ front ++ ins ∷ back)
      × AllUpTo (units ins.ts) front
      × AllFrom (suc (units ins.ts)) back
unfolding queue_data
queue_data_place [] ins o = ([], [], refl, refl, tt, tt)
queue_data_place (q ∷ qs) ins o = elim (Bool-cases (is_later q.ts ins.ts)) [
  | inl e ↦
      let lt : units ins.ts < units q.ts = unfold is_later in ground arith in
      ([], q ∷ qs, refl, rw e, tt, (lt, AllFrom-le (suc (units ins.ts)) (units q.ts) qs lt o.0))
  | inr e ↦
      let (front, back, split, placed, before, after) = queue_data_place qs ins o.1 in
      let ge : units q.ts ≤ units ins.ts = unfold is_later in ground arith in
      (q ∷ front, back, ap (λ t. q ∷ t) split, rw e (ap (λ t. q ∷ t) placed), (ge, before), after)
]

-- The fields are those of an unsigned 32-bit fraction.
abbrev pub AllFractions : List Queued → Type 0
AllFractions [] = Unit
AllFractions (q ∷ qs) = (q.ts.frac < 2 ^ 32) × AllFractions qs

abbrev pub NoneNear : Timetag → List Queued → Type 0
NoneNear t [] = Unit
NoneNear t (q ∷ qs) = (is_near q.ts t ≡ false) × NoneNear t qs

not_near :
    (a t : Timetag)
    → is_near a t ≡ false
    → ((a.sec ≡ t.sec) × (t.frac + 512 < a.frac)) ⊎ ((a.sec ≢ t.sec) × (units t + 512 ≤ units a))
unfolding is_near
not_near a t h = elim (Bool-cases (a.sec == t.sec)) [
  | inl e ↦ inl (ground arith, ground arith)
  | inr e ↦ inr (ground arith, ground arith)
]

far_same : (a t : Timetag) → a.sec ≡ t.sec → t.frac + 512 < a.frac → is_near a t ≡ false
unfolding is_near
far_same a t e h = let s : (a.sec == t.sec) ≡ true = ground arith in rw s (ground arith)

far_other : (a t : Timetag) → a.sec ≢ t.sec → units t + 512 ≤ units a → is_near a t ≡ false
unfolding is_near
far_other a t e h = let s : (a.sec == t.sec) ≡ false = ground arith in rw s (ground arith)

is_near_later :
    (a b t : Timetag)
    → units a ≤ units b
    → a.frac < 2 ^ 32
    → b.frac < 2 ^ 32
    → is_near a t ≡ false
    → is_near b t ≡ false
is_near_later a b t le fa fb h = elim (dec_eq b.sec t.sec) [
  | yes e ↦ far_same b t e (far (not_near a t h) e)
  | no n ↦ far_other b t n (farther (not_near a t h) n)
]
  where
    far :
        ((a.sec ≡ t.sec) × (t.frac + 512 < a.frac)) ⊎ ((a.sec ≢ t.sec) × (units t + 512 ≤ units a))
        → b.sec ≡ t.sec
        → t.frac + 512 < b.frac
    far (inl (e, g)) k = omega arith
    far (inr (e, g)) k = absurd (e (omega arith))

    farther :
        ((a.sec ≡ t.sec) × (t.frac + 512 < a.frac)) ⊎ ((a.sec ≢ t.sec) × (units t + 512 ≤ units a))
        → b.sec ≢ t.sec
        → units t + 512 ≤ units b
    farther (inl (e, g)) k = omega arith
    farther (inr (e, g)) k = omega arith

NoneNear-later :
    (a t : Timetag) (qs : List Queued)
    → is_near a t ≡ false
    → a.frac < 2 ^ 32
    → AllFrom (units a) qs
    → AllFractions qs
    → NoneNear t qs
NoneNear-later a t [] h fa o f = tt
NoneNear-later a t (q ∷ qs) h fa o f =
    (is_near_later a q.ts t o.0 fa f.0 h, NoneNear-later a t qs h fa o.1 f.1)

dispatch_rest_lem :
    (t : Timetag) (qs : List Queued)
    → IsOrdered qs
    → AllFractions qs
    → let (now, later) = dispatch_rest t false qs in
      (now ++ later ≡ qs) × NoneNear t later × IsOrdered later
unfolding dispatch_rest
dispatch_rest_lem t [] o f = (refl, tt, tt)
dispatch_rest_lem t (q ∷ qs) o f = elim (Bool-cases (is_near q.ts t)) [
  | inl e ↦
      let (all_of, none_near, ordered) = dispatch_rest_lem t qs o.1 f.1 in
      rw e (ap (λ x. q ∷ x) all_of, none_near, ordered)
  | inr e ↦ rw e (refl, (e, NoneNear-later q.ts t qs e f.0 o.0 f.1), o)
]

dispatch_rest_all : (t : Timetag) (qs : List Queued) → dispatch_rest t true qs ≡ (qs, [])
unfolding dispatch_rest
dispatch_rest_all t [] = refl
dispatch_rest_all t (q ∷ qs) = ground (arith, dispatch_rest_all t qs)

-- On a queue in order dispatch_queued dispatches entries from its front, the first one always,
-- and leaves the others in order; without `dispatch_all` none that stays is near the time of the
-- first, and with it none stays.
pub dispatch_queued_lem :
    (head : Queued) (qs : List Queued)
    → IsOrdered (head ∷ qs)
    → AllFractions (head ∷ qs)
    → ((now later : List Queued) × (dispatch_queued (head ∷ qs) false ≡ some (head ∷ now, later))
        × (now ++ later ≡ qs)
        × NoneNear head.ts later
        × IsOrdered later)
      × (dispatch_queued (head ∷ qs) true ≡ some (head ∷ qs, []))
unfolding dispatch_queued
dispatch_queued_lem head qs o f =
    let (all_of, none_near, ordered) = dispatch_rest_lem head.ts qs o.1 f.1 in
    (
      (
        (dispatch_rest head.ts false qs).0,
        (dispatch_rest head.ts false qs).1,
        refl,
        all_of,
        none_near,
        ordered,
      ),
      ap (λ r. some (head ∷ r.0, r.1)) (dispatch_rest_all head.ts qs),
    )
