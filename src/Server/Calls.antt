-- ===== src/Server/Calls.antt =====
-- dispatch_method of src/server.c: which methods are called, and the answer to a path that asks
-- for the names below it. The handlers are the program's own.
use liblo.Base.{
  ℕ, Bool, true, false, not, ◌&&◌, ◌||◌, Option, none, some, List, [], ◌∷◌, ◌++◌, Bytes, length,
  take, drop, codes, str_eq, ◌==◌, if◌then◌else◌,
}
use liblo.Osc.{load32, lo_arg_size}
use liblo.Message.{Platform, Message, lo_message_new, lo_message_add_int32, lo_message_add_string}
use liblo.Pattern.{lo_pattern_match}
use liblo.Address.State.{Protocol, udp}
use liblo.Server.Coerce.{lo_can_coerce_spec}
use liblo.Server.Hires.{Conversions, lo_coerce}
use liblo.Server.Methods.{Method, is_pattern, is_accept}

-- The array of arguments: that of the message, NULL for `none`, or the coerced arguments, as the
-- bytes that are written at each place.
pub data Argv : Type 0 where
  of_message : Option (List (Option ℕ)) → Argv
  coerced : List Bytes → Argv

pub record Call : Type 0 where
  pub method : Method
  pub path : Bytes
  pub types : Bytes
  pub argv : Argv
  pub argc : ℕ

-- What a handler returns may depend on the calls before.
pub record Server : Type 1 where
  pub platform : Platform
  pub conversions : Conversions
  pub protocol : Protocol
  pub methods : List Method
  pub should_coerce : Bool
  pub handler : List Call → Call → ℕ

-- `strrchr(path, '/')` is the last character.
unfoldable pub ends_in_slash : Bytes → Bool
ends_in_slash [] = false
ends_in_slash (c ∷ []) = c == b'/'
ends_in_slash (c ∷ d ∷ path) = ends_in_slash (d ∷ path)

-- What `it->path + len` is, if the path begins with the one that was asked for.
unfoldable pub below : Bytes → Option Bytes → Option Bytes
below path none = none
below path (some p) =
    if str_eq (take (length path) p) path then some (drop (length path) p) else none

unfoldable pub to_slash : Bytes → Bytes
to_slash [] = []
to_slash (c ∷ s) = if c == b'/' then [] else c ∷ to_slash s

-- A name goes behind the others, unless it is there.
unfoldable pub has_name : Bytes → List Bytes → Bool
has_name n [] = false
has_name n (x ∷ names) = if str_eq x n then true else has_name n names

unfoldable pub add_name : List Bytes → Bytes → List Bytes
add_name names n = if has_name n names then names else names ++ n ∷ []

unfoldable pub names_loop : Bytes → List Method → List Bytes → List Bytes
names_loop path [] names = names
names_loop path (it ∷ methods) names =
    names_loop path methods
      (elim (below path it.path) [ none ↦ names | some rest ↦ add_name names (to_slash rest) ])

module _ (s : Server) where
  -- The coerced arguments. `typespec` is as long as `types`.
  unfoldable pub coerce_args : Bytes → Bytes → Bytes → List Bytes
  coerce_args typespec [] ptr = []
  coerce_args [] (t ∷ types) ptr = []
  coerce_args (u ∷ typespec) (t ∷ types) ptr =
      (elim (lo_coerce s.platform.big s.conversions u t ptr) [ none ↦ [] | some bytes ↦ bytes ])
      ∷ coerce_args typespec types (drop (lo_arg_size s.platform.big t ptr) ptr)

  -- A pattern that the matcher reads beyond its end counts as no match.
  unfoldable pub path_matches : Bytes → Method → Bool
  path_matches path it = elim it.path [
    | none ↦ true
    | some p ↦ str_eq path p || (is_pattern path && is_accept (lo_pattern_match p path))
  ]

  -- The path for the handler: that of the method, if it has one.
  unfoldable pub handler_path : Bytes → Method → Bytes
  handler_path path it = elim it.path [ none ↦ path | some p ↦ p ]

  -- How a method whose path matches is called, if its types allow it.
  unfoldable pub call_for : Bytes → Message → Method → Option Call
  call_for path msg it =
      let types = drop 1 msg.types in
      let direct : Call = record {
        method = it;
        path = handler_path path it;
        types = types;
        argv = of_message msg.argv;
        argc = length types;
      } in
      elim it.typespec [
        | none ↦ some direct
        | some spec ↦
            if str_eq types spec
            then some direct
            else if s.should_coerce && lo_can_coerce_spec types spec
            then some (record direct {
              types = spec;
              argv =
                  if length types == 0
                  then of_message none
                  else coerced (coerce_args spec types msg.data_bytes);
            })
            else none
      ]

  -- What the body of the loop does for one method whose path matches: the calls so far and what
  -- the last one returned.
  unfoldable pub try_method : Bytes → Message → Method → List Call → ℕ → List Call × ℕ
  try_method path msg it calls ret = elim (call_for path msg it) [
    | none ↦ (calls, ret)
    | some call ↦ (calls ++ call ∷ [], s.handler calls call)
  ]

  unfoldable pub method_loop : Bytes → Message → List Method → List Call → ℕ → List Call × ℕ
  method_loop path msg [] calls ret = (calls, ret)
  method_loop path msg (it ∷ methods) calls ret =
      let matches = path_matches path it in
      let tried = if matches then try_method path msg it calls ret else (calls, ret) in
      let rest = method_loop path msg methods tried.0 tried.1 in
      if matches && tried.1 == 0 && not (is_pattern path) then tried else rest

  unfoldable pub add_strings : Message → List Bytes → Message
  add_strings m [] = m
  add_strings m (n ∷ names) = add_strings (lo_message_add_string s.platform m n).0 names

  -- The answer to a path that ends in a slash.
  unfoldable pub reply_to : Bytes → Message → Message
  reply_to path msg =
      let numbered =
        (lo_message_add_int32 s.platform lo_message_new (load32 s.platform.big msg.data_bytes)).0 in
      let first =
        if str_eq (drop 1 msg.types) (codes "i")
        then (elim msg.argv [ none ↦ lo_message_new | some _ ↦ numbered ])
        else lo_message_new in
      add_strings (lo_message_add_string s.platform first path).0 (names_loop path s.methods [])

  -- The calls, and the answer that is sent to the source.
  unfoldable pub dispatch_method : Bytes → Message → List Call × Option Message
  dispatch_method path msg =
      let (calls, ret) = method_loop path msg s.methods [] 1 in
      let reply : Option Message = elim s.protocol [
        | udp ↦ if ret == 1 && ends_in_slash path then some (reply_to path msg) else none
        | _ ↦ none
      ] in
      (calls, reply)
