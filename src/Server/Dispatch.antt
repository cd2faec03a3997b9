-- ===== src/Server/Dispatch.antt =====
-- dispatch_data of src/server.c: what it does with received data, as the events that leave it.
-- The call of the methods (dispatch_method) is an event; so is an entry for the queue.
use liblo.Base.{
  ℕ, zero, suc, Bool, true, false, ◌||◌, not, List, [], ◌∷◌, ◌++◌, Bytes, length, take, drop, codes,
  str_eq, ltb, ◌==◌, if◌then◌else◌, Option, none, some, Result, ok, err, fault, Error,
}
use liblo.Osc.{load32, lo_otoh32, c_string}
use liblo.Timetag.{Timetag, is_immediate, is_later}
use liblo.Message.{Platform, Message, lo_message_incref, lo_message_deserialise}
use liblo.Validate.{lo_validate_string, lo_validate_bundle}

pub data Event : Type 0 where
  method_called : Bytes → Message → Event
  queued : Timetag → Bytes → Message → Event
  thrown : Error → Event
  bundle_started : Timetag → Event
  bundle_ended : Event

-- Which handlers are set, the flag LO_SERVER_ENQUEUE, and the time of the call.
pub record Dispatcher : Type 0 where
  pub platform : Platform
  pub start_handler : Bool
  pub end_handler : Bool
  pub enqueue : Bool
  pub now : Timetag

-- The events, and the number that is returned.
abbrev pub Outcome : Type 0
Outcome = List Event × Result ℕ

-- `!strcmp(s, t)` for a `t` of the program; `none` if it reads beyond the data.
unfoldable pub strcmp_eq : Bytes → Bytes → Option Bool
strcmp_eq [] t = none
strcmp_eq (x ∷ s) [] = some (x == 0)
strcmp_eq (x ∷ s) (c ∷ t) = let rest = strcmp_eq s t in if x == c then rest else some false

-- Events that come before the others.
unfoldable pub before : List Event → Outcome → Outcome
before es (fs, r) = (es ++ fs, r)

-- A message of a bundle, its count raised, with the time `ts`, called at once or put into the queue.
unfoldable pub deliver : Dispatcher → Timetag → Bytes → Message → Event
deliver s ts path m =
    if is_immediate ts || not (is_later ts s.now) || not s.enqueue
    then method_called path (lo_message_incref (record m { ts = ts }))
    else queued ts path (lo_message_incref (record m { ts = ts }))

-- The result of a nested call is dropped.
unfoldable pub past : Outcome → Outcome → Outcome
past (es, fault) next = (es, fault)
past (es, ok _) next = before es next
past (es, err _) next = before es next

-- An element at `pos` of the length `elem_len`: a bundle, whose own result is dropped, or a
-- message. `next` is the rest of the loop.
unfoldable pub dispatch_element :
    Dispatcher → (Bytes → Outcome) → Timetag → Bytes → ℕ → Outcome → Outcome
dispatch_element s nested ts pos elem_len next = elim (strcmp_eq pos (codes "#bundle")) [
  | none ↦ ([], fault)
  | some true ↦ past (nested (take elem_len pos)) next
  | some false ↦ elim (lo_message_deserialise s.platform (take elem_len pos)) [
    | ok m ↦ before (deliver s ts (c_string pos) m ∷ []) next
    | err e ↦ (thrown e ∷ [], err e)
    | fault ↦ ([], fault)
  ]
]

-- The loop over the elements of a valid bundle, in which `size` is what is returned in the end.
-- Each round takes at least four bytes.
unfoldable pub dispatch_elements :
    Dispatcher → (Bytes → Outcome) → Timetag → ℕ → ℕ → Bytes → Outcome
dispatch_elements s nested ts size zero pos = ([], fault)
dispatch_elements s nested ts size (suc fuel) pos =
    let elem_len = load32 s.platform.big (lo_otoh32 s.platform.big pos) in
    let rest = drop 4 pos in
    let next = dispatch_elements s nested ts size fuel (drop elem_len rest) in
    if ltb (length pos) 4
    then (if s.end_handler then bundle_ended ∷ [] else [], ok size)
    else dispatch_element s nested ts rest elem_len next

unfoldable pub dispatch_bundle : Dispatcher → (Bytes → Outcome) → Bytes → ℕ → Outcome
dispatch_bundle s nested d len = elim (lo_validate_bundle s.platform.big d) [
  | err e ↦ (thrown e ∷ [], err e)
  | fault ↦ ([], fault)
  | ok _ ↦
      let pos = drop len d in
      let ts : Timetag = record {
        sec = load32 s.platform.big (lo_otoh32 s.platform.big pos);
        frac = load32 s.platform.big (lo_otoh32 s.platform.big (drop 4 pos));
      } in
      before (if s.start_handler then bundle_started ts ∷ [] else [])
        (dispatch_elements s nested ts (length d) (suc (length d)) (drop 8 pos))
]

unfoldable pub dispatch_message : Dispatcher → Bytes → Outcome
dispatch_message s d = elim (lo_message_deserialise s.platform d) [
  | ok m ↦ (method_called (c_string d) (lo_message_incref m) ∷ [], ok (length d))
  | err e ↦ (thrown e ∷ [], err e)
  | fault ↦ ([], fault)
]

-- The data `d`, whose length is `size`; the fuel bounds the depth of nested bundles.
unfoldable pub dispatch_data : Dispatcher → ℕ → Bytes → Outcome
dispatch_data s zero d = ([], fault)
dispatch_data s (suc fuel) d =
    let nested = dispatch_data s fuel in
    elim (lo_validate_string d) [
      | err e ↦ (thrown e ∷ [], err e)
      | fault ↦ ([], fault)
      | ok len ↦
          if str_eq (c_string d) (codes "#bundle")
          then dispatch_bundle s nested d len
          else dispatch_message s d
    ]

unfoldable pub lo_server_dispatch_data : Dispatcher → Bytes → Outcome
lo_server_dispatch_data s d = dispatch_data s (suc (length d)) d
