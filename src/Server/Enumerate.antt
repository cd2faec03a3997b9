-- ===== src/Server/Enumerate.antt =====
-- What dispatch_method of src/server.c does with the methods of the table: the calls it makes, and
-- the names it lists for a path that ends in a slash.
use liblo.Base.{
  ℕ, ◌≡◌, refl, Bool, true, false, not, ◌&&◌, ◌||◌, Option, none, some, List, [], ◌∷◌, ◌++◌, Bytes,
  ◌==◌, str_eq, str_eq→eq, if◌then◌else◌, arith, inl, inr, Option-cases,
}
use liblo.Message.{Message}
use liblo.Server.Methods.{Method, is_pattern}
use liblo.Server.Calls.{
  Call, Server, path_matches, call_for, try_method, method_loop, below, to_slash, has_name,
  add_name, names_loop, dispatch_method,
}

-- The calls of the methods whose path and types match.
unfoldable pub candidates : Server → Bytes → Message → List Method → List Call
candidates s path msg [] = []
candidates s path msg (it ∷ methods) =
    let rest = candidates s path msg methods in
    if path_matches s path it
    then (elim (call_for s path msg it) [ none ↦ rest | some call ↦ call ∷ rest ])
    else rest

-- The calls that are made after the calls `done`: up to and with the first that returns 0, where
-- `all` does not ask for every one.
unfoldable pub made : Server → Bool → List Call → List Call → List Call
made s all done [] = done
made s all done (call ∷ calls) =
    let rest = made s all (done ++ call ∷ []) calls in
    if not all && s.handler done call == 0 then done ++ call ∷ [] else rest

method_loop-made :
    (s : Server)
    → (path : Bytes) → (msg : Message) → (methods : List Method) → (calls : List Call) → (ret : ℕ)
    → not (is_pattern path) && ret == 0 ≡ false
    → (method_loop s path msg methods calls ret).0
      ≡ made s (is_pattern path) calls (candidates s path msg methods)
unfolding method_loop made candidates try_method
method_loop-made s path msg [] calls ret h = refl
method_loop-made s path msg (it ∷ methods) calls ret h =
    elim (Option-cases (call_for s path msg it)) [
      | inl e ↦ ground (e, arith, method_loop-made s path msg methods calls ret h)
      | inr (call, e) ↦ ground (
        e,
        arith,
        method_loop-made s path msg methods calls ret h,
        method_loop-made s path msg methods (calls ++ call ∷ []) (s.handler calls call),
      )
    ]

-- The calls for a message: of the methods in the table whose path and types match (candidates),
-- in the order of the table, every one if the path is a pattern, and otherwise those up to and
-- with the first whose handler returns 0.
pub dispatch_method-made :
    (s : Server)
    → (path : Bytes) → (msg : Message)
    → (dispatch_method s path msg).0 ≡ made s (is_pattern path) [] (candidates s path msg s.methods)
unfolding dispatch_method
dispatch_method-made s path msg = method_loop-made s path msg s.methods [] 1 (ground arith)

-- Whether `n` is the first part of `rest`, up to a slash or to the end.
unfoldable pub is_first_part : Bytes → Bytes → Bool
is_first_part [] [] = true
is_first_part [] (d ∷ rest) = d == b'/'
is_first_part (c ∷ n) [] = false
is_first_part (c ∷ n) (d ∷ rest) = c == d && not (d == b'/') && is_first_part n rest

-- Whether a method's path is `path` and then `n`, up to a slash or to the end.
unfoldable pub is_next_part : Bytes → Bytes → Bytes → Bool
is_next_part [] n p = is_first_part n p
is_next_part (c ∷ path) n [] = false
is_next_part (c ∷ path) n (d ∷ p) = c == d && is_next_part path n p

abbrev names_next : Bytes → Bytes → Option Bytes → Bool
names_next path n none = false
names_next path n (some p) = is_next_part path n p

unfoldable pub is_name_below : Bytes → Bytes → List Method → Bool
is_name_below path n [] = false
is_name_below path n (it ∷ methods) = names_next path n it.path || is_name_below path n methods

unfoldable pub no_repeats : List Bytes → Bool
no_repeats [] = true
no_repeats (x ∷ names) = not (has_name x names) && no_repeats names

str_eq-to_slash : (n p : Bytes) → str_eq (to_slash p) n ≡ is_first_part n p
unfolding str_eq to_slash is_first_part
str_eq-to_slash [] [] = refl
str_eq-to_slash (c ∷ n) [] = refl
str_eq-to_slash [] (d ∷ p) = ground arith
str_eq-to_slash (c ∷ n) (d ∷ p) = ground (arith, str_eq-to_slash n p)

abbrev next_of : Bytes → Option Bytes → Bool
next_of n none = false
next_of n (some rest) = str_eq (to_slash rest) n

next_of-below : (path n p : Bytes) → next_of n (below path (some p)) ≡ is_next_part path n p
unfolding below is_next_part str_eq
next_of-below [] n p = str_eq-to_slash n p
next_of-below (c ∷ path) n [] = refl
next_of-below (c ∷ path) n (d ∷ p) = ground (arith, next_of-below path n p)

names_next-below :
    (path n : Bytes) → (p : Option Bytes) → next_of n (below path p) ≡ names_next path n p
unfolding below
names_next-below path n none = refl
names_next-below path n (some p) = next_of-below path n p

has_name-append :
    (n : Bytes) → (xs ys : List Bytes) → has_name n (xs ++ ys) ≡ (has_name n xs || has_name n ys)
unfolding has_name
has_name-append n [] ys = refl
has_name-append n (x ∷ xs) ys = ground (arith, has_name-append n xs ys)

str_eq_sym : (a b : Bytes) → str_eq a b ≡ str_eq b a
unfolding str_eq
str_eq_sym [] [] = refl
str_eq_sym [] (b ∷ t) = refl
str_eq_sym (a ∷ s) [] = refl
str_eq_sym (a ∷ s) (b ∷ t) = ground (arith, str_eq_sym s t)

no_repeats-append :
    (n : Bytes)
    → (xs : List Bytes) → no_repeats xs ≡ true
    → has_name n xs ≡ false
    → no_repeats (xs ++ n ∷ []) ≡ true
unfolding no_repeats has_name
no_repeats-append n [] h k = refl
no_repeats-append n (x ∷ xs) h k =
    ground (arith, no_repeats-append n xs, has_name-append x xs (n ∷ []), str_eq_sym n x)

no_repeats-add_name :
    (xs : List Bytes) → (n : Bytes) → no_repeats xs ≡ true → no_repeats (add_name xs n) ≡ true
unfolding add_name
no_repeats-add_name xs n h = ground (arith, no_repeats-append n xs h)

has_name-add_name :
    (n m : Bytes) → (xs : List Bytes) → has_name n (add_name xs m) ≡ (has_name n xs || str_eq m n)
unfolding add_name has_name
has_name-add_name n m xs = ground (arith, has_name-append n xs (m ∷ []), str_eq→eq m n)

no_repeats-names_loop :
    (path : Bytes)
    → (methods : List Method) → (names : List Bytes) → no_repeats names ≡ true
    → no_repeats (names_loop path methods names) ≡ true
unfolding names_loop
no_repeats-names_loop path [] names h = h
no_repeats-names_loop path (it ∷ methods) names h = elim (Option-cases (below path it.path)) [
  | inl e ↦ rw e (no_repeats-names_loop path methods names h)
  | inr (rest, e) ↦ rw e (
      no_repeats-names_loop path methods (add_name names (to_slash rest))
        (no_repeats-add_name names (to_slash rest) h))
]

has_name-names_loop :
    (path n : Bytes)
    → (methods : List Method) → (names : List Bytes)
    → has_name n (names_loop path methods names)
      ≡ (has_name n names || is_name_below path n methods)
unfolding names_loop is_name_below
has_name-names_loop path n [] names = ground arith
has_name-names_loop path n (it ∷ methods) names = elim (Option-cases (below path it.path)) [
  | inl e ↦
      ground (e, arith, has_name-names_loop path n methods names, names_next-below path n it.path)
  | inr (rest, e) ↦ ground (
    e,
    arith,
    has_name-names_loop path n methods (add_name names (to_slash rest)),
    has_name-add_name n (to_slash rest) names,
    names_next-below path n it.path,
  )
]

-- The names listed for a path are the next parts of the paths that begin with it, all of them and
-- no others, and no name is listed twice.
pub names_loop-is_name_below :
    (path n : Bytes)
    → (methods : List Method)
    → (no_repeats (names_loop path methods []) ≡ true)
      × (has_name n (names_loop path methods []) ≡ is_name_below path n methods)
unfolding no_repeats has_name
names_loop-is_name_below path n methods =
    (no_repeats-names_loop path methods [] refl, has_name-names_loop path n methods [])
