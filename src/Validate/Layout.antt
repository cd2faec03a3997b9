-- ===== src/Validate/Layout.antt =====
-- The data that lo_validate_bundle of src/message.c accepts.
use liblo.Base.{
  ℕ, suc, ◌≡◌, ◌≤◌, ◌≢◌, ◌∙◌, sym, subst, refl, ap, ap₂, Bool, true, false, List, ◌++◌, arith,
  Bytes, length, take, drop, ltb, ok, err, fault, int_err, length-append, take-append-drop,
  length-take, length-drop, ◌↔◌, drop-append_self, str_eq, codes, str_eq→eq, str_eq_refl,
  Result-Cases, is_ok, is_err, is_fault,
}
use liblo.Osc.{c_string}
use liblo.Osc.Padding.{IsText, padded, c_string-padded}
use liblo.Validate.Strings.{
  lo_validate_string, lo_validate_string-padded, lo_validate_string_inv,
  lo_validate_string_no_fault,
}
use liblo.Validate.Bundles.{
  elements_loop, check_bundle, lo_validate_bundle, frames, AllShort, AllBytes, elements_loop-frames,
  AllBytes-drop, elements_loop_inv, elements_loop_errors,
}

-- A header, a time tag, and elements behind their sizes.
abbrev pub IsBundle : Bytes → Type 0
IsBundle m =
    (tag : Bytes) × (es : List Bytes) × (length tag ≡ 8)
    × AllShort es
    × (m ≡ padded (codes "#bundle") ++ (tag ++ frames es))

pub bundle-IsText : IsText (codes "#bundle")
bundle-IsText = omega arith

ltb_ge : (a b : ℕ) → b ≤ a → ltb a b ≡ false
ltb_ge a b h = ground arith

check_bundle_layout :
    (big : Bool) (tag : Bytes) (es : List Bytes)
    → length tag ≡ 8
    → AllShort es
    → let m = padded (codes "#bundle") ++ (tag ++ frames es) in check_bundle big m 8 ≡ ok (length m)
unfolding check_bundle padded
check_bundle_layout big tag es size short =
    let m = padded (codes "#bundle") ++ (tag ++ frames es) in
    let named : str_eq (c_string m) (codes "#bundle") ≡ true =
      ap (λ s. str_eq s (codes "#bundle"))
        (c_string-padded (codes "#bundle") (tag ++ frames es) bundle-IsText)
      ∙ str_eq_refl (codes "#bundle") in
    let rest : drop 8 (tag ++ frames es) ≡ frames es =
      ap (λ k. drop k (tag ++ frames es)) (sym size) ∙ drop-append_self tag (frames es) in
    let all_ok : elements_loop big (suc (length m)) (frames es) ≡ ok tt =
      elements_loop-frames big es (suc (length m)) short
        (omega (arith, length-append tag (frames es))) in
    let cut : drop 8 m ≡ tag ++ frames es = refl in
    let long : ltb (length (drop 8 m)) 8 ≡ false =
      ltb_ge _ 8 (omega (arith, length-append tag (frames es))) in
    rw (named, long, rest, all_ok)

check_bundle_facts :
    (big : Bool) (m : Bytes) (len n : ℕ)
    → check_bundle big m len ≡ ok n
    → (str_eq (c_string m) (codes "#bundle") ≡ true)
      × (8 ≤ length (drop len m))
      × (elements_loop big (suc (length m)) (drop 8 (drop len m)) ≡ ok tt)
      × (n ≡ length m)
unfolding check_bundle
check_bundle_facts big m len n h = ground arith

pub layout→valid : (big : Bool) (m : Bytes) → IsBundle m → lo_validate_bundle big m ≡ ok (length m)
layout→valid big m (tag, es, size, short, e) =
    let layout = padded (codes "#bundle") ++ (tag ++ frames es) in
    let path : lo_validate_string layout ≡ ok 8 =
      lo_validate_string-padded (codes "#bundle") (tag ++ frames es) bundle-IsText in
    let checked : lo_validate_bundle big layout ≡ ok (length layout) =
      unfold lo_validate_bundle in
      rw (path, lo_validate_bundle) (check_bundle_layout big tag es size short) in
    subst (λ x. lo_validate_bundle big x ≡ ok (length x)) (sym e) checked

checked→layout :
    (big : Bool) (m : Bytes) (len n : ℕ)
    → AllBytes m
    → lo_validate_string m ≡ ok len
    → check_bundle big m len ≡ ok n
    → IsBundle m × (n ≡ length m)
checked→layout big m len n bytes path h =
    let (named, long, elements, size) = check_bundle_facts big m len n h in
    let (s, text, split, _, _) = lo_validate_string_inv m len path in
    let rest = drop len m in
    let name : s ≡ codes "#bundle" =
      sym (c_string-padded s rest text) ∙ ap c_string (sym split) ∙ str_eq→eq _ _ named in
    let bytes' : AllBytes (drop 8 rest) = AllBytes-drop 8 rest (AllBytes-drop len m bytes) in
    let (es, e, short) = elements_loop_inv big (suc (length m)) (drop 8 rest) bytes' elements in
    let body : take 8 rest ++ frames es ≡ rest =
      ap (λ t. take 8 rest ++ t) (sym e) ∙ take-append-drop 8 rest in
    (
      (
        take 8 rest,
        es,
        length-take 8 rest long,
        short,
        split ∙ ap₂ (λ p t. padded p ++ t) name (sym body),
      ),
      size,
    )

valid→layout :
    (big : Bool) (m : Bytes) (n : ℕ)
    → AllBytes m
    → lo_validate_bundle big m ≡ ok n
    → IsBundle m × (n ≡ length m)
valid→layout big m n bytes h = elim (Result-Cases (lo_validate_string m)) [
  | is_ok len e ↦
      checked→layout big m len n bytes e
        (unfold lo_validate_bundle in (rw (e, lo_validate_bundle) at h))
  | is_err e p ↦ absurd (unfold lo_validate_bundle in ground arith)
  | is_fault p ↦ absurd (unfold lo_validate_bundle in ground arith)
]

-- lo_validate_bundle returns a length exactly for the data that are laid out as a bundle: the
-- padded name, a time tag of eight bytes, and elements each behind its size. The length is that
-- of the data.
pub lo_validate_bundle_iff :
    (big : Bool) (m : Bytes) (n : ℕ)
    → AllBytes m
    → (lo_validate_bundle big m ≡ ok n) ↔ (IsBundle m × (n ≡ length m))
lo_validate_bundle_iff big m n bytes =
    (valid→layout big m n bytes, λ b. layout→valid big m b.0 ∙ ap ok (sym b.1))

check_bundle_errors :
    (big : Bool) (m : Bytes) (len : ℕ)
    → (check_bundle big m len ≢ fault) × (check_bundle big m len ≢ err int_err)
unfolding check_bundle
check_bundle_errors big m len = ground (
  arith,
  elements_loop_errors big (suc (length m)) (drop 8 (drop len m)),
  length-drop 8 (drop len m),
  length-drop len m,
)

-- lo_validate_bundle never reads outside its data, and its loop ends within its fuel.
lo_validate_bundle_errors :
    (big : Bool) (m : Bytes)
    → (lo_validate_bundle big m ≢ fault) × (lo_validate_bundle big m ≢ err int_err)
unfolding lo_validate_bundle
lo_validate_bundle_errors big m = elim (Result-Cases (lo_validate_string m)) [
  | is_ok len e ↦ rw (e, lo_validate_bundle) (check_bundle_errors big m len)
  | is_err e p ↦ ground arith
  | is_fault p ↦ absurd (lo_validate_string_no_fault m p)
]
