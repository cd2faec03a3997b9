-- ===== src/Validate/Blobs.antt =====
-- lo_validate_blob, and what it accepts. A read outside the data is `fault`.
use liblo.Base.{
  ℕ, zero, suc, refl, ◌==◌, ◌>>=◌, ◌≢◌, [], ◌+◌, ◌-◌, ◌*◌, ◌/◌, ◌%◌, ◌^◌, ◌≡◌, ◌≤◌, ◌<◌, ◌∙◌, sym,
  ap, ap₂, Bool, true, ◌∷◌, ◌++◌, arith, Bytes, length, take, drop, ltb, if◌then◌else◌, Result, ok,
  err, fault, esize, epad, length-append, length-replicate, replicate, append_assoc,
  take-append-drop, length-take, length-drop, ◌↔◌, drop-append_self, drop-drop,
}
use liblo.Osc.{load32, lo_otoh32, be32, load32-lo_otoh32}
use liblo.Validate.Strings.{all_zero, all_zero-replicate, all_zero→replicate, take-replicate}

abbrev pub lo_max_msg_size : ℕ
lo_max_msg_size = 32768

-- The loop over the pad bytes: `k` are left, and `q` is the memory at `pos + i`. A read behind the
-- data is `fault`.
unfoldable pub pads_loop : ℕ → Bytes → ℕ → Result ℕ
pads_loop zero q len = ok len
pads_loop (suc k) [] len = fault
pads_loop (suc k) (c ∷ q) len = let rest = pads_loop k q len in if c == 0 then rest else err epad

-- The checks on a blob whose data are `dsize` bytes long.
unfoldable pub check_blob : Bytes → ℕ → Result ℕ
check_blob m dsize =
    let end = 4 + dsize in
    let len = 4 * ((end + 3) / 4) in
    if ltb lo_max_msg_size dsize
    then err esize
    else if ltb (length m) len
    then err esize
    else pads_loop (len - end) (drop end m) len

-- `lo_otoh32(*(uint32_t *) data)`.
unfoldable pub read_word : Bool → Bytes → Result ℕ
read_word big (a ∷ b ∷ c ∷ d ∷ m) = ok (load32 big (lo_otoh32 big (a ∷ b ∷ c ∷ d ∷ m)))
read_word big _ = fault

unfoldable pub lo_validate_blob : Bool → Bytes → Result ℕ
lo_validate_blob big m = read_word big m >>= check_blob m

-- Within the data, the loop over the pad bytes is a test on all of them.
pads_loop_within :
    (k : ℕ) (q : Bytes) (len : ℕ)
    → k ≤ length q
    → pads_loop k q len ≡ (if all_zero (take k q) then ok len else err epad)
unfolding pads_loop all_zero
pads_loop_within zero q len h = refl
pads_loop_within (suc k) [] len h = absurd (omega arith)
pads_loop_within (suc k) (c ∷ q) len h = ground (arith, pads_loop_within k q len)

-- The verdict on a blob, on all of its pad bytes at once.
blob_verdict : Bytes → ℕ → Result ℕ
blob_verdict m dsize =
    let end = 4 + dsize in
    let len = 4 * ((end + 3) / 4) in
    if ltb lo_max_msg_size dsize
    then err esize
    else if ltb (length m) len
    then err esize
    else if all_zero (take (len - end) (drop end m))
    then ok len
    else err epad

check_blob_lem : (m : Bytes) (dsize : ℕ) → check_blob m dsize ≡ blob_verdict m dsize
unfolding check_blob blob_verdict
check_blob_lem m dsize =
    let end = 4 + dsize in
    let len = 4 * ((end + 3) / 4) in
    ground (arith, pads_loop_within (len - end) (drop end m) len, length-drop end m)

-- A blob on the wire: its size, most significant byte first, its data, and pad bytes.
unfoldable pub padded_blob : Bytes → Bytes
padded_blob bs =
    (length bs / 2 ^ 24 % 256)
    ∷ (length bs / 2 ^ 16 % 256)
    ∷ (length bs / 2 ^ 8 % 256)
    ∷ (length bs % 256)
    ∷ (bs ++ replicate (3 - (length bs + 3) % 4) 0)

be32_digits :
    (n : ℕ)
    → n < 2 ^ 32
    → be32 (n / 2 ^ 24 % 256) (n / 2 ^ 16 % 256) (n / 2 ^ 8 % 256) (n % 256) ≡ n
be32_digits n h = omega arith

pub length-padded_blob : (bs : Bytes) → length (padded_blob bs) ≡ 4 * ((4 + length bs + 3) / 4)
unfolding padded_blob
length-padded_blob bs = omega (
  arith,
  length-append bs (replicate (3 - (length bs + 3) % 4) 0),
  length-replicate {A = ℕ} (3 - (length bs + 3) % 4) 0,
)

lo_validate_blob_eq :
    (big : Bool) (a b c d : ℕ) (r : Bytes)
    → lo_validate_blob big (a ∷ b ∷ c ∷ d ∷ r) ≡ blob_verdict (a ∷ b ∷ c ∷ d ∷ r) (be32 a b c d)
unfolding lo_validate_blob read_word
lo_validate_blob_eq big a b c d r =
    ap (check_blob (a ∷ b ∷ c ∷ d ∷ r)) (load32-lo_otoh32 big a b c d r)
    ∙ check_blob_lem (a ∷ b ∷ c ∷ d ∷ r) (be32 a b c d)

blob_verdict_padded :
    (a b c d : ℕ) (bs m : Bytes)
    → length bs ≤ lo_max_msg_size
    → blob_verdict
        (a ∷ b ∷ c ∷ d ∷ ((bs ++ replicate (3 - (length bs + 3) % 4) 0) ++ m))
        (length bs)
      ≡ ok (4 * ((4 + length bs + 3) / 4))
unfolding blob_verdict
blob_verdict_padded a b c d bs m h =
    let k = 3 - (length bs + 3) % 4 in
    let pads : Bytes = replicate k 0 in
    let four : 4 + length bs ≡ suc (suc (suc (suc (length bs)))) = omega arith in
    let pad : 4 * ((suc (suc (suc (suc (length bs)))) + 3) / 4) - suc (suc (suc (suc (length bs))))
        ≡ k =
      omega arith in
    let split : (bs ++ pads) ++ m ≡ bs ++ (pads ++ m) = append_assoc bs pads m in
    let cut : take
          (4 * ((suc (suc (suc (suc (length bs)))) + 3) / 4) - suc (suc (suc (suc (length bs)))))
          (pads ++ m)
        ≡ pads =
      take-replicate k _ m pad in
    let long : 4 * ((suc (suc (suc (suc (length bs)))) + 3) / 4) ≤ 4 + length (bs ++ (pads ++ m)) =
      omega
        (arith, length-append bs (pads ++ m), length-append pads m, length-replicate {A = ℕ} k 0) in
    rw (four, split, drop-append_self bs (pads ++ m), cut, all_zero-replicate) (ground arith)

-- A padded blob is accepted, whatever follows it, with its padded length.
pub lo_validate_blob_padded :
    (big : Bool) (bs m : Bytes)
    → length bs ≤ lo_max_msg_size
    → lo_validate_blob big (padded_blob bs ++ m) ≡ ok (4 * ((4 + length bs + 3) / 4))
unfolding padded_blob
lo_validate_blob_padded big bs m h =
    lo_validate_blob_eq big _ _ _ _ _
    ∙ ap (blob_verdict _) (be32_digits (length bs) (omega arith))
    ∙ blob_verdict_padded _ _ _ _ bs m h

blob_verdict_facts :
    (m : Bytes) (dsize n : ℕ)
    → blob_verdict m dsize ≡ ok n
    → (n ≡ 4 * ((4 + dsize + 3) / 4))
      × (n ≤ length m)
      × (dsize ≤ lo_max_msg_size)
      × (all_zero (take (n - (4 + dsize)) (drop (4 + dsize) m)) ≡ true)
unfolding blob_verdict
blob_verdict_facts m dsize n h = ground arith

-- What is accepted is a padded blob with its length, then the rest of the data.
pub lo_validate_blob_inv :
    (big : Bool) (a b c d : ℕ) (r : Bytes) (n : ℕ)
    → lo_validate_blob big (a ∷ b ∷ c ∷ d ∷ r) ≡ ok n
    → (bs : Bytes) × (length bs ≡ be32 a b c d)
      × (length bs ≤ lo_max_msg_size)
      × (n ≡ 4 * ((4 + length bs + 3) / 4))
      × (r ≡ (bs ++ replicate (3 - (length bs + 3) % 4) 0) ++ drop n (a ∷ b ∷ c ∷ d ∷ r))
lo_validate_blob_inv big a b c d r n h =
    let v : ℕ = be32 a b c d in
    let h' : blob_verdict (a ∷ b ∷ c ∷ d ∷ r) v ≡ ok n =
      rw (lo_validate_blob_eq big a b c d r) at h in
    let (len, fits, small, zero_pad) = blob_verdict_facts _ v n h' in
    let four : 4 + v ≡ suc (suc (suc (suc v))) = omega arith in
    let z : all_zero (take (n - (4 + v)) (drop v r)) ≡ true =
      ap (λ j. all_zero (take (n - (4 + v)) (drop j (a ∷ b ∷ c ∷ d ∷ r)))) (sym four) ∙ zero_pad in
    let size : length (take v r) ≡ v = length-take v r (omega arith) in
    let k : n - (4 + v) ≡ 3 - (v + 3) % 4 = omega arith in
    let cut : length (take (n - (4 + v)) (drop v r)) ≡ 3 - (v + 3) % 4 =
      omega (arith, length-take (n - (4 + v)) (drop v r), length-drop v r) in
    let pads : take (n - (4 + v)) (drop v r) ≡ replicate (3 - (v + 3) % 4) 0 =
      all_zero→replicate _ z ∙ ap (λ j. replicate j 0) cut in
    let rest : drop (n - (4 + v)) (drop v r) ≡ drop n (a ∷ b ∷ c ∷ d ∷ r) =
      drop-drop (n - (4 + v)) (suc (suc (suc (suc v)))) n (a ∷ b ∷ c ∷ d ∷ r) (omega arith) in
    (
      take v r,
      size,
      rw size small,
      rw size len,
      sym (
          ap (λ j. (take v r ++ replicate (3 - (j + 3) % 4) 0) ++ drop n (a ∷ b ∷ c ∷ d ∷ r)) size
          ∙ append_assoc (take v r) (replicate (3 - (v + 3) % 4) 0) _
          ∙ ap (λ t. take v r ++ t)
              (ap₂ ◌++◌ (sym pads) (sym rest) ∙ take-append-drop (n - (4 + v)) (drop v r))
          ∙ take-append-drop v r),
    )

no_fault : (m : Bytes) (dsize : ℕ) → blob_verdict m dsize ≢ fault
unfolding blob_verdict
no_fault m dsize = λ e. absurd (ground arith)

-- lo_validate_blob reads outside its data exactly when these are shorter than a size word: the tests
-- on the size keep the loop over the pad bytes within the data, whatever the size word says.
pub lo_validate_blob_fault_iff :
    (big : Bool) (m : Bytes) → (lo_validate_blob big m ≡ fault) ↔ (length m < 4)
unfolding lo_validate_blob read_word
lo_validate_blob_fault_iff big [] = (λ _. omega arith, λ _. refl)
lo_validate_blob_fault_iff big (a ∷ []) = (λ _. omega arith, λ _. refl)
lo_validate_blob_fault_iff big (a ∷ b ∷ []) = (λ _. omega arith, λ _. refl)
lo_validate_blob_fault_iff big (a ∷ b ∷ c ∷ []) = (λ _. omega arith, λ _. refl)
lo_validate_blob_fault_iff big (a ∷ b ∷ c ∷ d ∷ m) = (
  λ e. absurd (no_fault _ _ (sym (lo_validate_blob_eq big a b c d m) ∙ e)),
  λ short. absurd (omega arith),
)
