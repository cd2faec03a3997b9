-- ===== src/Validate/Bundles.antt =====
-- lo_validate_bundle, and what it accepts: a header, a time tag, and elements behind their sizes.
use liblo.Base.{
  ℕ, zero, suc, ◌/◌, ◌%◌, ◌^◌, ◌≡◌, ◌≤◌, ◌<◌, ◌≢◌, ◌∙◌, sym, refl, ap, ap₂, Bool, true, not, List,
  [], ◌∷◌, ◌++◌, arith, Bytes, length, take, drop, ltb, ◌==◌, if◌then◌else◌, Result, ok, err, fault,
  esize, int_err, einvalidbund, length-append, take-append-drop, length-take, length-drop,
  drop-append_self, str_eq, codes,
}
use liblo.Osc.{load32, lo_otoh32, be32, load32-lo_otoh32, store32, c_string}
use liblo.Validate.Strings.{lo_validate_string}

-- The loop over the elements. Each round takes at least four bytes, so that the fuel suffices.
unfoldable pub elements_loop : Bool → ℕ → Bytes → Result (Unit {0})
elements_loop big zero m = err int_err
elements_loop big (suc f) m =
    let elem_len = load32 big (lo_otoh32 big m) in
    let rest = drop 4 m in
    let next = elements_loop big f (drop elem_len rest) in
    if ltb (length m) 4
    then (if length m == 0 then ok tt else err esize)
    else if ltb (length rest) elem_len
    then err esize
    else next

-- The checks behind the path string, whose padded length is `len`.
unfoldable pub check_bundle : Bool → Bytes → ℕ → Result ℕ
check_bundle big m len =
    let rest = drop len m in
    let elements = elements_loop big (suc (length m)) (drop 8 rest) in
    if not (str_eq (c_string m) (codes "#bundle"))
    then err einvalidbund
    else if ltb (length rest) 8
    then err esize
    else elim elements [ ok _ ↦ ok (length m) | err e ↦ err e | fault ↦ fault ]

unfoldable pub lo_validate_bundle : Bool → Bytes → Result ℕ
lo_validate_bundle big m = elim (lo_validate_string m) [
  | ok len ↦ check_bundle big m len
  | err _ ↦ err esize
  | fault ↦ fault
]

-- Elements behind their sizes, most significant byte first.
unfoldable pub frames : List Bytes → Bytes
frames [] = []
frames (e ∷ es) = store32 true (length e) ++ (e ++ frames es)

abbrev pub AllShort : List Bytes → Type 0
AllShort [] = Unit
AllShort (e ∷ es) = (length e < 2 ^ 32) × AllShort es

abbrev pub AllBytes : Bytes → Type 0
AllBytes [] = Unit
AllBytes (c ∷ m) = (c < 256) × AllBytes m

elements_loop_step :
    (big : Bool) (f a b c d : ℕ) (r : Bytes)
    → elements_loop big (suc f) (a ∷ b ∷ c ∷ d ∷ r) ≡ (
        if ltb (length r) (be32 a b c d)
        then err esize
        else elements_loop big f (drop (be32 a b c d) r))
unfolding elements_loop
elements_loop_step big f a b c d r = rw (load32-lo_otoh32 big a b c d r) (ground arith)

be32_store32 :
    (n : ℕ)
    → n < 2 ^ 32
    → be32 (n / 2 ^ 24 % 256) (n / 2 ^ 16 % 256) (n / 2 ^ 8 % 256) (n % 256) ≡ n
be32_store32 n h = omega arith

-- Elements behind their sizes are accepted.
pub elements_loop-frames :
    (big : Bool) (es : List Bytes) (f : ℕ)
    → AllShort es
    → length (frames es) < f
    → elements_loop big f (frames es) ≡ ok tt
unfolding frames store32
elements_loop-frames big es zero h lt = elim lt [ ]
elements_loop-frames big [] (suc f) h lt = unfold elements_loop in refl
elements_loop-frames big (e ∷ es) (suc f) h lt =
    elements_loop_step big f _ _ _ _ (e ++ frames es)
    ∙ rw (be32_store32 (length e) h.0, drop-append_self e (frames es))
        (ground (
          arith,
          length-append e (frames es),
          elements_loop-frames big es f h.1 (omega (arith, length-append e (frames es))),
        ))

pub store32-be32 :
    (a b c d : ℕ)
    → a < 256
    → b < 256
    → c < 256
    → d < 256
    → store32 true (be32 a b c d) ≡ a ∷ b ∷ c ∷ d ∷ []
unfolding store32
store32-be32 a b c d ha hb hc hd = ground arith

pub AllBytes-drop : (n : ℕ) (m : Bytes) → AllBytes m → AllBytes (drop n m)
AllBytes-drop zero m h = h
AllBytes-drop (suc n) [] h = h
AllBytes-drop (suc n) (c ∷ m) h = AllBytes-drop n m h.1

pub elements_loop_inv :
    (big : Bool) (f : ℕ) (m : Bytes)
    → AllBytes m
    → elements_loop big f m ≡ ok tt
    → (es : List Bytes) × (m ≡ frames es) × AllShort es
unfolding frames
elements_loop_inv big zero m bytes h = absurd (unfold elements_loop in cc)
elements_loop_inv big (suc f) [] bytes h = ([], refl, tt)
elements_loop_inv big (suc f) (a ∷ []) bytes h = absurd (unfold elements_loop in ground arith)
elements_loop_inv big (suc f) (a ∷ b ∷ []) bytes h = absurd (unfold elements_loop in ground arith)
elements_loop_inv big (suc f) (a ∷ b ∷ c ∷ []) bytes h =
    absurd (unfold elements_loop in ground arith)
elements_loop_inv big (suc f) (a ∷ b ∷ c ∷ d ∷ r) (ha, (hb, (hc, (hd, hr)))) h =
    let n : ℕ = be32 a b c d in
    let h' : (if ltb (length r) n then err esize else elements_loop big f (drop n r)) ≡ ok tt =
      sym (elements_loop_step big f a b c d r) ∙ h in
    let fits : n ≤ length r = ground arith in
    let again : elements_loop big f (drop n r) ≡ ok tt = ground arith in
    let (es, e, short) = elements_loop_inv big f (drop n r) (AllBytes-drop n r hr) again in
    let size : length (take n r) ≡ n = length-take n r fits in
    (
      take n r ∷ es,
      ap₂ ◌++◌ (sym (store32-be32 a b c d ha hb hc hd) ∙ ap (store32 true) (sym size))
          (sym (take-append-drop n r) ∙ ap (λ t. take n r ++ t) e),
      (omega arith, short),
    )

pub elements_loop_errors :
    (big : Bool) (f : ℕ) (m : Bytes)
    → length m < f
    → (elements_loop big f m ≢ fault) × (elements_loop big f m ≢ err int_err)
unfolding elements_loop
elements_loop_errors big zero m h = elim h [ ]
elements_loop_errors big (suc f) m h =
    let n : ℕ = load32 big (lo_otoh32 big m) in
    ground (
      arith,
      elements_loop_errors big f (drop n (drop 4 m)),
      length-drop n (drop 4 m),
      length-drop 4 m,
    )
