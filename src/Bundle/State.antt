-- ===== src/Bundle/State.antt =====
-- struct _lo_bundle and its operations, over a heap of bundles and messages that share each
-- other by pointers. A pointer is the number of an object.
use liblo.Base.{
  ℕ, zero, suc, ◌+◌, ◌-◌, ◌*◌, Bool, true, false, Option, none, some, List, [], ◌∷◌, ◌++◌, Bytes,
  length, leb, ◌==◌, if◌then◌else◌,
}
use liblo.Timetag.{Timetag}
use liblo.Message.{Platform, Message, lo_message_incref, lo_message_length}

pub data Element : Type 0 where
  message : Bytes → ℕ → Element
  bundle : ℕ → Element

-- `elmnts` holds the first `len` elements of an array with room for `size`.
pub record Bundle : Type 0 where
  pub size : ℕ
  pub ts : Timetag
  pub elmnts : List Element
  pub refcount : ℕ

pub record Heap : Type 0 where
  pub bundles : ℕ → Bundle
  pub messages : ℕ → Message

unfoldable pub set_bundle : Heap → ℕ → Bundle → Heap
set_bundle h b v = record h { bundles = λ i. if i == b then v else h.bundles i }

unfoldable pub set_message : Heap → ℕ → Message → Heap
set_message h m v = record h { messages = λ i. if i == m then v else h.messages i }

unfoldable pub lo_bundle_new : Timetag → Bundle
lo_bundle_new tt = record { size = 4; ts = tt; elmnts = []; refcount = 0 }

unfoldable pub lo_bundle_incref : Heap → ℕ → Heap
lo_bundle_incref h b =
    let v = h.bundles b in set_bundle h b (record v { refcount = v.refcount + 1 })

unfoldable pub lo_bundle_decref : Heap → ℕ → Heap
lo_bundle_decref h b =
    let v = h.bundles b in set_bundle h b (record v { refcount = v.refcount - 1 })

unfoldable pub is_in_list : List ℕ → ℕ → Bool
is_in_list [] ptr = false
is_in_list (x ∷ list) ptr = if x == ptr then true else is_in_list list ptr

-- The loop over the elements; `walk` is the call for a nested bundle.
unfoldable pub walk_elements : (ℕ → Option Bool) → List Element → Option Bool
walk_elements walk [] = some false
walk_elements walk (message _ _ ∷ es) = walk_elements walk es
walk_elements walk (bundle c ∷ es) = elim (walk c) [
  | none ↦ none
  | some true ↦ some true
  | some false ↦ walk_elements walk es
]

-- Whether a bundle is met below itself; `none` if the fuel ends. `parents` is the list of
-- bundles from the first one down to here, the last one first: a call pushes its bundle for the
-- nested ones, and pops it on return.
unfoldable pub walk_tree : Heap → ℕ → List ℕ → ℕ → Option Bool
walk_tree h zero parents b = none
walk_tree h (suc fuel) parents b =
    if is_in_list parents b
    then some true
    else walk_elements (walk_tree h fuel (b ∷ parents)) (h.bundles b).elmnts

unfoldable pub lo_bundle_circular : Heap → ℕ → ℕ → Option Bool
lo_bundle_circular h fuel b = walk_tree h fuel [] b

-- What adding an element comes to: the result 0, the result -1 with the heap as it then is, the
-- result -1 without memory (the array of the bundle is then lost), or no end within the fuel.
pub data Added : Type 0 where
  added refused : Heap → Added
  no_memory no_fuel : Added

-- The element behind the others, in an array of size `size`.
unfoldable pub put_element : Heap → ℕ → ℕ → Element → Heap
put_element h b size e =
    let v = h.bundles b in set_bundle h b (record v { size = size; elmnts = v.elmnts ++ e ∷ [] })

unfoldable pub drop_last : List Element → List Element
drop_last [] = []
drop_last (e ∷ []) = []
drop_last (e ∷ f ∷ es) = e ∷ drop_last (f ∷ es)

-- `(b->len)--`.
unfoldable pub take_back : Heap → ℕ → Heap
take_back h b = let v = h.bundles b in set_bundle h b (record v { elmnts = drop_last v.elmnts })

module _ (p : Platform) where
  -- The size of the array behind a possible `realloc`, 24 bytes for an element; `none` without
  -- memory.
  unfoldable pub grown_size : Bundle → Option ℕ
  grown_size v =
      if leb v.size (length v.elmnts)
      then (if p.realloc (24 * (v.size * 2)) then some (v.size * 2) else none)
      else some v.size

  -- The last part of the case of a bundle.
  unfoldable pub check_circular : ℕ → Heap → ℕ → ℕ → Added
  check_circular fuel h b c = elim (lo_bundle_circular h fuel b) [
    | none ↦ no_fuel
    | some true ↦ refused (take_back (lo_bundle_decref h c) b)
    | some false ↦ added h
  ]

  unfoldable pub lo_bundle_add_element : ℕ → Heap → ℕ → Element → Added
  lo_bundle_add_element fuel h b (message path m) = elim (grown_size (h.bundles b)) [
    | none ↦ no_memory
    | some size ↦
        added
          (put_element (set_message h m (lo_message_incref (h.messages m))) b size (message path m))
  ]
  lo_bundle_add_element fuel h b (bundle c) = elim (grown_size (h.bundles b)) [
    | none ↦ no_memory
    | some size ↦ check_circular fuel (put_element (lo_bundle_incref h c) b size (bundle c)) b c
  ]

  -- `none` is a null pointer.
  unfoldable pub lo_bundle_add_message : ℕ → Heap → ℕ → Bytes → Option ℕ → Added
  lo_bundle_add_message fuel h b path none = added h
  lo_bundle_add_message fuel h b path (some m) = lo_bundle_add_element fuel h b (message path m)

  unfoldable pub lo_bundle_add_bundle : ℕ → Heap → ℕ → Option ℕ → Added
  lo_bundle_add_bundle fuel h b none = added h
  lo_bundle_add_bundle fuel h b (some n) = lo_bundle_add_element fuel h b (bundle n)

unfoldable pub lo_bundle_get_timestamp : Bundle → Timetag
lo_bundle_get_timestamp v = v.ts

unfoldable pub lo_bundle_count : Bundle → ℕ
lo_bundle_count v = length v.elmnts

-- `size += ...` for each element, behind its size word; `rec` is the call for a nested bundle.
unfoldable pub add_lengths : Heap → (ℕ → Option ℕ) → ℕ → List Element → Option ℕ
add_lengths h nested size [] = some size
add_lengths h nested size (message path m ∷ es) =
    add_lengths h nested (size + lo_message_length (h.messages m) path) es
add_lengths h nested size (bundle c ∷ es) = elim (nested c) [
  | none ↦ none
  | some s ↦ add_lengths h nested (size + s) es
]

-- `none` if the fuel ends.
unfoldable pub lo_bundle_length : Heap → ℕ → ℕ → Option ℕ
lo_bundle_length h zero b = none
lo_bundle_length h (suc fuel) b =
    add_lengths h (lo_bundle_length h fuel) (16 + length (h.bundles b).elmnts * 4)
      (h.bundles b).elmnts

-- `none` means that the array and the structure are released. A count of 0 would go to -1, which
-- releases too.
unfoldable pub lo_bundle_free : Bundle → Option Bundle
lo_bundle_free v =
    if leb (v.refcount - 1) 0 then none else some (record v { refcount = v.refcount - 1 })
