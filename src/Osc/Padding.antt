-- ===== src/Osc/Padding.antt =====
-- Strings as OSC lays them out: NUL-terminated and padded with NULs to a multiple of four.
use liblo.Base.{
  ℕ, suc, ◌+◌, ◌-◌, ◌*◌, ◌/◌, ◌%◌, ◌≡◌, refl, ap, ◌≢◌, [], ◌∷◌, ◌++◌, arith, Bytes, append_assoc,
  length, replicate, length-append, length-replicate, overwrite, blit,
}
use liblo.Osc.Types.{strlen, c_string}

-- No byte of the list is NUL, so that it is the content of a C string.
abbrev pub IsText : Bytes → Type 0
IsText [] = Unit
IsText (c ∷ s) = (c ≢ 0) × IsText s

unfoldable pub padded : Bytes → Bytes
padded s = s ++ replicate (4 - length s % 4) 0

abbrev pub zeros4 : Bytes
zeros4 = 0 ∷ 0 ∷ 0 ∷ 0 ∷ []

pub padded_four : (a b c d : ℕ) (s : Bytes) → padded (a ∷ b ∷ c ∷ d ∷ s) ≡ a ∷ b ∷ c ∷ d ∷ padded s
unfolding padded
padded_four a b c d s =
    let e : suc (suc (suc (suc (length s)))) % 4 ≡ length s % 4 = omega arith in
    ap (λ k. a ∷ b ∷ c ∷ d ∷ (s ++ replicate (4 - k) 0)) e

pub strlen_text : (s : Bytes) (m : Bytes) → IsText s → strlen (s ++ 0 ∷ m) ≡ length s
unfolding strlen
strlen_text [] m h = refl
strlen_text (c ∷ s) m h = ground (arith, strlen_text s m)

pub strlen_whole : (s : Bytes) → IsText s → strlen s ≡ length s
unfolding strlen
strlen_whole [] h = refl
strlen_whole (c ∷ s) h = ground (arith, strlen_whole s)

pub length-padded : (s : Bytes) → length (padded s) ≡ 4 * (length s / 4 + 1)
unfolding padded
length-padded s = omega (
  arith,
  length-append s (replicate (4 - length s % 4) 0),
  length-replicate {A = ℕ} (4 - length s % 4) 0,
)

-- `padded s` begins with the string and its terminator.
pub padded-eq : (s : Bytes) → padded s ≡ s ++ 0 ∷ replicate (3 - length s % 4) 0
unfolding padded
padded-eq s =
    let e : 4 - length s % 4 ≡ suc (3 - length s % 4) = omega arith in
    ap (λ k. s ++ replicate k 0) e

-- The last word cleared, then `strcpy`: whatever the buffer held, it now holds the padded string.
pub overwrite-blit-padded :
    (s buf : Bytes)
    → length buf ≡ 4 * (length s / 4 + 1)
    → overwrite (blit (4 * (length s / 4)) buf zeros4) (s ++ 0 ∷ []) ≡ padded s
unfolding overwrite blit padded
overwrite-blit-padded [] (w ∷ x ∷ y ∷ z ∷ []) h = refl
overwrite-blit-padded (a ∷ []) (w ∷ x ∷ y ∷ z ∷ []) h = refl
overwrite-blit-padded (a ∷ b ∷ []) (w ∷ x ∷ y ∷ z ∷ []) h = refl
overwrite-blit-padded (a ∷ b ∷ c ∷ []) (w ∷ x ∷ y ∷ z ∷ []) h = refl
overwrite-blit-padded (a ∷ b ∷ c ∷ d ∷ s) (w ∷ x ∷ y ∷ z ∷ buf) h =
    let e : 4 * (suc (suc (suc (suc (length s)))) / 4)
        ≡ suc (suc (suc (suc (4 * (length s / 4))))) =
      omega arith in
    let r : suc (suc (suc (suc (length s)))) % 4 ≡ length s % 4 = omega arith in
    rw (e, r) (ap (λ t. a ∷ b ∷ c ∷ d ∷ t) (overwrite-blit-padded s buf (omega arith)))
overwrite-blit-padded s buf h = absurd (omega arith)

pub c_string_text : (s m : Bytes) → IsText s → c_string (s ++ 0 ∷ m) ≡ s
unfolding c_string
c_string_text [] m h = refl
c_string_text (c ∷ s) m h = ground (arith, c_string_text s m)

pub c_string-padded : (s m : Bytes) → IsText s → c_string (padded s ++ m) ≡ s
c_string-padded s m h = rw (padded-eq s, append_assoc s _ m) (c_string_text s _ h)

pub strlen-padded : (s m : Bytes) → IsText s → strlen (padded s ++ m) ≡ length s
strlen-padded s m h = rw (padded-eq s, append_assoc s _ m) (strlen_text s _ h)
