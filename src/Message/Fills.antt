-- ===== src/Message/Fills.antt =====
-- The stores of the lo_message_add functions (src/message.c) into the room of an argument.
use liblo.Base.{
  ℕ, zero, suc, ◌+◌, ◌-◌, ◌*◌, ◌/◌, ◌%◌, ◌≤◌, ◌<◌, ◌≡◌, ◌∙◌, refl, sym, ap, subst, Bool, true,
  false, [], ◌∷◌, ◌++◌, Bytes, length, take, drop, replicate, overwrite, blit, arith,
  overwrite_whole, blit-append_ge, length-blit, take-append_ge, overwrite-eq-append, length-drop,
  overwrite-append,
}
use liblo.Osc.{lo_strsize, lo_blobsize, store32}
use liblo.Osc.Padding.{IsText, padded, zeros4, strlen_whole, length-padded}
use liblo.Argument.{blob_pad, lo_blobsize_small}
use liblo.Message.State.{Platform}
use liblo.Message.Build.{strncpy}

-- The stores into the room of an argument leave its bytes there, whatever was there before.
abbrev pub Fills : Bytes → ℕ → (Bytes → Bytes) → Type 0
Fills bs s store = (nptr : Bytes) → length nptr ≡ s → store nptr ≡ bs

-- The stores of each function fill its room with the bytes of its argument.
pub overwrite-Fills : (bs : Bytes) (s : ℕ) → length bs ≡ s → Fills bs s (λ nptr. overwrite nptr bs)
overwrite-Fills bs s e = λ nptr h. overwrite_whole nptr bs (e ∙ sym h)

take-replicate : (k n : ℕ) → k ≤ n → take k (replicate {A = ℕ} n 0) ≡ replicate k 0
take-replicate zero n h = refl
take-replicate (suc k) zero h = elim h [ ]
take-replicate (suc k) (suc n) h = ap (λ t. 0 ∷ t) (take-replicate k n (omega arith))

strncpy_padded :
    (s : Bytes) → IsText s → take (lo_strsize s) (s ++ replicate (lo_strsize s) 0) ≡ padded s
unfolding padded lo_strsize
strncpy_padded s text =
    let n = 4 * (length s / 4 + 1) in
    let k : n - length s ≡ 4 - length s % 4 = omega arith in
    rw (strlen_whole s text) (
      take-append_ge n s (replicate n 0) (omega arith)
      ∙ ap (λ t. s ++ t) (take-replicate (n - length s) n (omega arith))
      ∙ ap (λ j. s ++ replicate j 0) k)

pub strncpy-Fills :
    (p : Platform) (s : Bytes)
    → IsText s
    → Fills (padded s) (lo_strsize s) (λ nptr. strncpy p nptr s (lo_strsize s))
unfolding strncpy
strncpy-Fills p s text = λ nptr h.
    ap (overwrite nptr) (strncpy_padded s text)
    ∙ overwrite_whole nptr (padded s) (length-padded s ∙ size ∙ sym h)
  where
    size : 4 * (length s / 4 + 1) ≡ lo_strsize s
    size = unfold lo_strsize in rw (strlen_whole s text)

-- A first part of four bytes, then a second up to the end.
pub two_parts-Fills :
    (xs ys : Bytes) (s : ℕ)
    → length xs ≡ 4
    → 4 + length ys ≡ s
    → Fills (xs ++ ys) s (λ nptr. blit 4 (overwrite nptr xs) ys)
unfolding blit
two_parts-Fills xs ys s hx hy = λ nptr h.
    ap (λ t. blit 4 t ys) (overwrite-eq-append nptr xs (omega arith))
    ∙ blit-append_ge xs (drop (length xs) nptr) ys 4 0 (omega arith)
    ∙ ap (λ t. xs ++ t)
        (overwrite_whole (drop (length xs) nptr) ys (omega (arith, length-drop (length xs) nptr)))

-- The data of a blob, over a region whose last word has been cleared.
overwrite-blit_blob :
    (bs q : Bytes)
    → 0 < length bs
    → length q ≡ 4 * ((length bs + 3) / 4)
    → overwrite (blit (4 * ((length bs + 3) / 4) - 4) q zeros4) bs ≡ bs ++ blob_pad bs
unfolding overwrite blit blob_pad
overwrite-blit_blob [] q pos h = elim pos [ ]
overwrite-blit_blob (a ∷ []) (w ∷ x ∷ y ∷ z ∷ []) pos h = refl
overwrite-blit_blob (a ∷ b ∷ []) (w ∷ x ∷ y ∷ z ∷ []) pos h = refl
overwrite-blit_blob (a ∷ b ∷ c ∷ []) (w ∷ x ∷ y ∷ z ∷ []) pos h = refl
overwrite-blit_blob (a ∷ b ∷ c ∷ d ∷ []) (w ∷ x ∷ y ∷ z ∷ []) pos h = refl
overwrite-blit_blob (a ∷ b ∷ c ∷ d ∷ e ∷ s) (w ∷ x ∷ y ∷ z ∷ q) pos h =
    let n = suc (length s) in
    let o : 4 * ((suc (suc (suc (suc n))) + 3) / 4) - 4
        ≡ suc (suc (suc (suc (4 * ((n + 3) / 4) - 4)))) =
      omega arith in
    let r : (suc (suc (suc (suc n))) + 3) % 4 ≡ (n + 3) % 4 = omega arith in
    rw (o, r)
      (ap (λ t. a ∷ b ∷ c ∷ d ∷ t) (overwrite-blit_blob (e ∷ s) q (omega arith) (omega arith)))
overwrite-blit_blob bs q pos h = absurd (omega arith)

blob_regions :
    (word bs : Bytes) (w x y z : ℕ) (q : Bytes)
    → length word ≡ 4
    → 0 < length bs
    → length q ≡ 4 * ((length bs + 3) / 4)
    → blit 4
        (overwrite (blit (4 * ((4 + length bs + 3) / 4) - 4) (w ∷ x ∷ y ∷ z ∷ q) zeros4) word)
        bs
      ≡ word ++ (bs ++ blob_pad bs)
unfolding blit
blob_regions word bs w x y z q four pos h =
    let n = length bs in
    let q' : Bytes = blit (4 * ((n + 3) / 4) - 4) q zeros4 in
    let o : 4 * ((4 + n + 3) / 4) - 4 ≡ suc (suc (suc (suc (4 * ((n + 3) / 4) - 4)))) =
      omega arith in
    ap (λ k. blit 4 (overwrite (blit k (w ∷ x ∷ y ∷ z ∷ q) zeros4) word) bs) o
    ∙ ap (λ t. blit 4 t bs) (overwrite-append (w ∷ x ∷ y ∷ z ∷ []) q' word four)
    ∙ blit-append_ge word q' bs 4 0 (omega arith)
    ∙ ap (λ t. word ++ t) (overwrite-blit_blob bs q pos h)

blob-Fills :
    (word bs : Bytes)
    → length word ≡ 4
    → Fills
        (word ++ (bs ++ blob_pad bs))
        (4 * ((4 + length bs + 3) / 4))
        (λ nptr. blit 4 (overwrite (blit (4 * ((4 + length bs + 3) / 4) - 4) nptr zeros4) word) bs)
blob-Fills word (b ∷ bs) four [] h = absurd (omega arith)
blob-Fills word (b ∷ bs) four (w ∷ []) h = absurd (omega arith)
blob-Fills word (b ∷ bs) four (w ∷ x ∷ []) h = absurd (omega arith)
blob-Fills word (b ∷ bs) four (w ∷ x ∷ y ∷ []) h = absurd (omega arith)
blob-Fills word (b ∷ bs) four (w ∷ x ∷ y ∷ z ∷ q) h =
    blob_regions word (b ∷ bs) w x y z q four (omega arith) (omega arith)
blob-Fills word [] four nptr h =
    unfold blob_pad in
    two_parts-Fills word [] 4 four refl (blit 0 nptr zeros4) (length-blit 0 nptr zeros4 ∙ h)

pub length-padded_strsize : (s : Bytes) → IsText s → length (padded s) ≡ lo_strsize s
unfolding lo_strsize
length-padded_strsize s text = rw (strlen_whole s text) (length-padded s)

char_union : (big : Bool) (c : ℕ) → overwrite (store32 big 0) (c ∷ []) ≡ c ∷ 0 ∷ 0 ∷ 0 ∷ []
unfolding store32 overwrite
char_union true c = refl
char_union false c = refl

pub char-Fills :
    (big : Bool) (c : ℕ)
    → Fills (c ∷ 0 ∷ 0 ∷ 0 ∷ []) 4 (λ nptr. overwrite nptr (overwrite (store32 big 0) (c ∷ [])))
char-Fills big c = λ nptr h. ap (overwrite nptr) (char_union big c) ∙ overwrite_whole nptr _ (sym h)

pub blobsize-Fills :
    (word bs : Bytes)
    → length word ≡ 4
    → length bs ≤ 32768
    → Fills
        (word ++ (bs ++ blob_pad bs))
        (lo_blobsize (length bs))
        (λ nptr. blit 4 (overwrite (blit (lo_blobsize (length bs) - 4) nptr zeros4) word) bs)
blobsize-Fills word bs four small =
    subst
      (λ s.
        Fills (word ++ (bs ++ blob_pad bs)) s
          (λ nptr. blit 4 (overwrite (blit (s - 4) nptr zeros4) word) bs))
      (sym (lo_blobsize_small (length bs) small)) (blob-Fills word bs four)
