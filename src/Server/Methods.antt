-- ===== src/Server/Methods.antt =====
-- The table of methods: lo_server_add_method and lo_server_del_method. The linked list is a list,
-- in its order.
use liblo.Base.{
  ℕ, ◌≡◌, ◌∙◌, refl, ap, Bool, true, false, ◌&&◌, ◌||◌, Option, none, some, List, [], ◌∷◌, ◌++◌,
  Bytes, ◌==◌, if◌then◌else◌, arith, str_eq, str_eq_refl, append-nil, Bool-cases, inl, inr,
}
use liblo.Pattern.{Verdict, lo_pattern_match}

-- A null path or typespec is `none`. The handler and its user data are known by a number.
pub record Method : Type 0 where
  pub path : Option Bytes
  pub typespec : Option Bytes
  pub handler : ℕ

-- `strpbrk(path, " #*,?[]{}") != NULL`
unfoldable pub is_pattern : Bytes → Bool
is_pattern [] = false
is_pattern (c ∷ p) =
    (c == b' '
      || c == b'#'
      || c == b'*'
      || c == b','
      || c == b'?'
      || c == b'['
      || c == b']'
      || c == b'{'
      || c == b'}')
    || is_pattern p

abbrev pub has_pattern : Option Bytes → Bool
has_pattern none = false
has_pattern (some p) = is_pattern p

-- `none` for the method is the null pointer that is returned.
unfoldable pub lo_server_add_method :
    List Method → Option Bytes → Option Bytes → ℕ → List Method × Option Method
lo_server_add_method methods path typespec handler =
    let m : Method = record { path = path; typespec = typespec; handler = handler } in
    if has_pattern path then (methods, none) else (methods ++ m ∷ [], some m)

abbrev pub is_accept : Verdict → Bool
is_accept Verdict.accept = true
is_accept _ = false

-- Two strings that may be null: the same pointer (both null) or equal text.
unfoldable pub same_text : Option Bytes → Option Bytes → Bool
same_text none none = true
same_text (some a) (some b) = str_eq a b
same_text _ _ = false

-- The test of lo_server_del_method on the path of a method. (A pattern that the matcher reads
-- beyond its end counts as no match.)
unfoldable pub path_selected : Option Bytes → Option Bytes → Bool
path_selected path none = same_text none path
path_selected none (some q) = false
path_selected (some p) (some q) = str_eq p q || (is_pattern p && is_accept (lo_pattern_match q p))

unfoldable pub selected : Option Bytes → Option Bytes → Method → Bool
selected path typespec it = path_selected path it.path && same_text it.typespec typespec

unfoldable pub lo_server_del_method : List Method → Option Bytes → Option Bytes → List Method
lo_server_del_method [] path typespec = []
lo_server_del_method (it ∷ methods) path typespec =
    let rest = lo_server_del_method methods path typespec in
    if selected path typespec it then rest else it ∷ rest

-- No path of the table has a character that makes a pattern.
abbrev pub AllLiteral : List Method → Type 0
AllLiteral [] = Unit
AllLiteral (m ∷ methods) = (has_pattern m.path ≡ false) × AllLiteral methods

AllLiteral-snoc :
    (ms : List Method) (m : Method)
    → AllLiteral ms
    → has_pattern m.path ≡ false
    → AllLiteral (ms ++ m ∷ [])
AllLiteral-snoc [] m h k = (k, tt)
AllLiteral-snoc (x ∷ ms) m h k = (h.0, AllLiteral-snoc ms m h.1 k)

-- Adding a method keeps the paths of the table literal, on both branches.
add_method-AllLiteral :
    (ms : List Method) (path typespec : Option Bytes) (handler : ℕ)
    → AllLiteral ms
    → AllLiteral (lo_server_add_method ms path typespec handler).0
unfolding lo_server_add_method
add_method-AllLiteral ms path typespec handler h = elim (Bool-cases (has_pattern path)) [
  | inl e ↦ rw (e, lo_server_add_method) h
  | inr e ↦ rw (e, lo_server_add_method) (AllLiteral-snoc ms _ h e)
]

-- Deleting methods keeps the paths of the table literal.
pub del_method-AllLiteral :
    (ms : List Method) (path typespec : Option Bytes)
    → AllLiteral ms
    → AllLiteral (lo_server_del_method ms path typespec)
unfolding lo_server_del_method
del_method-AllLiteral [] path typespec h = tt
del_method-AllLiteral (it ∷ ms) path typespec h =
    ground (arith, del_method-AllLiteral ms path typespec)

del_method-append :
    (xs ys : List Method) (path typespec : Option Bytes)
    → lo_server_del_method (xs ++ ys) path typespec
      ≡ lo_server_del_method xs path typespec ++ lo_server_del_method ys path typespec
unfolding lo_server_del_method
del_method-append [] ys path typespec = refl
del_method-append (x ∷ xs) ys path typespec = ground (arith, del_method-append xs ys path typespec)

same_text_refl : (a : Option Bytes) → same_text a a ≡ true
unfolding same_text
same_text_refl none = refl
same_text_refl (some a) = str_eq_refl a

selected_self :
    (path typespec : Option Bytes) (h : ℕ)
    → selected path typespec (record { path = path; typespec = typespec; handler = h }) ≡ true
unfolding selected path_selected
selected_self none typespec h = rw (same_text_refl none, same_text_refl typespec)
selected_self (some p) typespec h = rw (str_eq_refl p, same_text_refl typespec)

del_method_twice :
    (xs : List Method) (path typespec : Option Bytes)
    → lo_server_del_method (lo_server_del_method xs path typespec) path typespec
      ≡ lo_server_del_method xs path typespec
unfolding lo_server_del_method
del_method_twice [] path typespec = refl
del_method_twice (x ∷ xs) path typespec = elim (Bool-cases (selected path typespec x)) [
  | inl e ↦ rw e (del_method_twice xs path typespec)
  | inr e ↦ rw (e, e) (ap (λ t. x ∷ t) (del_method_twice xs path typespec))
]

del_method_added :
    (ms : List Method) (path typespec : Option Bytes) (handler : ℕ)
    → lo_server_del_method (lo_server_add_method ms path typespec handler).0 path typespec
      ≡ lo_server_del_method ms path typespec
unfolding lo_server_add_method lo_server_del_method
del_method_added ms path typespec handler = elim (Bool-cases (has_pattern path)) [
  | inl e ↦ rw (e, lo_server_add_method) refl
  | inr e ↦
      rw (e, lo_server_add_method)
        (del_method-append ms _ path typespec
          ∙ rw (selected_self path typespec handler) (append-nil _))
]

-- Deleting by the path and typespec of a method that was just added leaves what deleting by them
-- leaves of the table before, and a second deletion changes nothing.
del_method-add_method :
    (ms : List Method) (path typespec : Option Bytes) (handler : ℕ)
    → (lo_server_del_method (lo_server_add_method ms path typespec handler).0 path typespec
        ≡ lo_server_del_method ms path typespec)
      × (lo_server_del_method (lo_server_del_method ms path typespec) path typespec
          ≡ lo_server_del_method ms path typespec)
del_method-add_method ms path typespec handler =
    (del_method_added ms path typespec handler, del_method_twice ms path typespec)
