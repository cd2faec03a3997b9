-- ===== src/Message/Build.antt =====
-- The lo_message_add functions for one argument.
use liblo.Base.{
  ℕ, ◌-◌, Bool, true, false, none, some, [], ◌∷◌, ◌++◌, Bytes, length, take, drop, replicate,
  overwrite, blit,
}
use liblo.Osc.{OscType, typechar, lo_strsize, lo_blobsize, store32}
use liblo.Osc.Padding.{zeros4}
use liblo.Argument.{store64}
use liblo.Message.State.{Platform, Message, lo_message_add_data, lo_message_add_typechar}

module _ (p : Platform) where
  -- The course of each function: room for `s` bytes, the typechar `t`, and then the stores
  -- through the pointer to the new bytes, which `store` describes. The result is the message,
  -- changed or not, and whether the C function returns 0.
  unfoldable pub add_arg : Message → OscType → ℕ → (Bytes → Bytes) → Message × Bool
  add_arg m t s store = elim (lo_message_add_data p m s) [
    | none ↦ (m, false)
    | some m1 ↦ elim (lo_message_add_typechar p m1 (typechar t)) [
      | none ↦ (m1, false)
      | some m2 ↦ (
        record m2 {
          data_bytes = take m.datalen m2.data_bytes ++ store (drop m.datalen m2.data_bytes);
        },
        true,
      )
    ]
  ]

  -- The types without data.
  unfoldable pub add_flag : Message → OscType → Message × Bool
  add_flag m t = elim (lo_message_add_typechar p m (typechar t)) [
    | none ↦ (m, false)
    | some m' ↦ (m', true)
  ]

  unfoldable pub lo_message_add_int32 : Message → ℕ → Message × Bool
  lo_message_add_int32 m a = add_arg m OscType.int32 4 (λ nptr. overwrite nptr (store32 p.big a))

  -- The float by its bit pattern, as the union lo_pcast32 gives it.
  unfoldable pub lo_message_add_float : Message → ℕ → Message × Bool
  lo_message_add_float m a = add_arg m OscType.float 4 (λ nptr. overwrite nptr (store32 p.big a))

  -- `strncpy(nptr, s, n)` writes `n` bytes: the string, then NULs.
  unfoldable pub strncpy : Bytes → Bytes → ℕ → Bytes
  strncpy nptr s n = overwrite nptr (take n (s ++ replicate n 0))

  unfoldable pub lo_message_add_string : Message → Bytes → Message × Bool
  lo_message_add_string m a =
      add_arg m OscType.string (lo_strsize a) (λ nptr. strncpy nptr a (lo_strsize a))

  -- `a` is the data of the blob, and their length its `size` field.
  unfoldable pub lo_message_add_blob : Message → Bytes → Message × Bool
  lo_message_add_blob m a =
      let size = lo_blobsize (length a) in
      add_arg m OscType.blob size
        λ nptr. blit 4 (overwrite (blit (size - 4) nptr zeros4) (store32 p.big (length a))) a

  unfoldable pub lo_message_add_int64 : Message → ℕ → Message × Bool
  lo_message_add_int64 m a = add_arg m OscType.int64 8 (λ nptr. overwrite nptr (store64 p.big a))

  unfoldable pub lo_message_add_timetag : Message → ℕ → ℕ → Message × Bool
  lo_message_add_timetag m sec frac =
      add_arg m OscType.timetag 8
        λ nptr. blit 4 (overwrite nptr (store32 p.big sec)) (store32 p.big frac)

  unfoldable pub lo_message_add_double : Message → ℕ → Message × Bool
  lo_message_add_double m a = add_arg m OscType.double 8 (λ nptr. overwrite nptr (store64 p.big a))

  unfoldable pub lo_message_add_symbol : Message → Bytes → Message × Bool
  lo_message_add_symbol m a =
      add_arg m OscType.symbol (lo_strsize a) (λ nptr. strncpy nptr a (lo_strsize a))

  -- The union is cleared, then its first byte is the character, on either byte order.
  unfoldable pub lo_message_add_char : Message → ℕ → Message × Bool
  lo_message_add_char m a =
      add_arg m OscType.char 4 (λ nptr. overwrite nptr (overwrite (store32 p.big 0) (a ∷ [])))

  unfoldable pub lo_message_add_midi : Message → ℕ → ℕ → ℕ → ℕ → Message × Bool
  lo_message_add_midi m a b c d =
      add_arg m OscType.midi 4 (λ nptr. overwrite nptr (a ∷ b ∷ c ∷ d ∷ []))

  unfoldable pub lo_message_add_true : Message → Message × Bool
  lo_message_add_true m = add_flag m OscType.true_

  unfoldable pub lo_message_add_false : Message → Message × Bool
  lo_message_add_false m = add_flag m OscType.false_

  unfoldable pub lo_message_add_nil : Message → Message × Bool
  lo_message_add_nil m = add_flag m OscType.nil

  unfoldable pub lo_message_add_infinitum : Message → Message × Bool
  lo_message_add_infinitum m = add_flag m OscType.infinitum
