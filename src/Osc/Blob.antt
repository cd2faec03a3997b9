-- ===== src/Osc/Blob.antt =====
-- Blobs in memory: lo_blob_new, lo_blob_datasize and lo_blob_dataptr of src/blob.c.
use liblo.Base.{
  ℕ, ◌^◌, ◌<◌, ◌≡◌, ◌∙◌, ap, sym, subst, Bool, true, not, ◌||◌, Option, none, some, ◌++◌, Bytes,
  take, drop, leb, ◌==◌, if◌then◌else◌, Result, ok, fault, fresh, drop-append_self, Bool-cases, inl,
  inr,
}
use liblo.Osc.Endian.{store32, load32, load32-store32, length-store32}

module _ (big : Bool) (junk : ℕ → ℕ) (allocates : Bool) where
  -- `size` is the bit pattern of an int32_t, `none` the result NULL. The result of malloc is used
  -- without a test.
  unfoldable pub lo_blob_new : ℕ → Option Bytes → Result (Option Bytes)
  lo_blob_new size bytes =
      if size == 0 || leb (2 ^ 31) size
      then ok none
      else if not allocates
      then fault
      else ok
          (some (store32 big size ++ elim bytes [ none ↦ fresh junk size | some b ↦ take size b ]))

unfoldable pub lo_blob_datasize : Bool → Bytes → ℕ
lo_blob_datasize big b = load32 big b

unfoldable pub lo_blob_dataptr : Bytes → Bytes
lo_blob_dataptr b = drop 4 b

-- A blob that was made from `size` bytes or more has this size and these bytes.
lo_blob_new-lo_blob_dataptr :
    (big : Bool) (junk : ℕ → ℕ) (size : ℕ) (bytes b : Bytes)
    → size < 2 ^ 32
    → lo_blob_new big junk true size (some bytes) ≡ ok (some b)
    → (lo_blob_datasize big b ≡ size) × (lo_blob_dataptr b ≡ take size bytes)
unfolding lo_blob_new lo_blob_datasize lo_blob_dataptr
lo_blob_new-lo_blob_dataptr big junk size bytes b word made =
    elim (Bool-cases (size == 0 || leb (2 ^ 31) size)) [
      | inl none_made ↦ absurd (cc (rw none_made at made))
      | inr allowed ↦
          let e : store32 big size ++ take size bytes ≡ b = cc (rw allowed at made) in
          subst (λ b. (load32 big b ≡ size) × (drop 4 b ≡ take size bytes)) e
            (
              load32-store32 big size (take size bytes) word,
              ap (λ n. drop n (store32 big size ++ take size bytes)) (sym (length-store32 big size))
                  ∙ drop-append_self (store32 big size) (take size bytes),
            )
    ]
