-- ===== src/Server/Hires.antt =====
-- lo_hires_val and lo_coerce of src/message.c, over the conversions of the C language between
-- numbers and long double.
use liblo.Base.{
  ℕ, ◌+◌, ◌*◌, ◌^◌, Bool, true, false, ◌&&◌, Option, none, some, [], ◌∷◌, ◌++◌, Bytes, take, drop,
  ◌==◌, if◌then◌else◌,
}
use liblo.Osc.{load32, store32, lo_arg_size, c_string}
use liblo.Argument.{store64}
use liblo.Server.Coerce.{lo_is_numerical_type, lo_is_string_type}

-- A number of C, as its bytes in a word, to long double and back. The conversions to the two
-- unsigned types have no defined result for a negative number or one that is too large.
pub record Conversions : Type 1 where
  pub Hires : Type 0
  pub zero_value : Hires
  pub of_int32 : ℕ → Hires
  pub of_int64 : ℕ → Hires
  pub of_float : ℕ → Hires
  pub of_double : ℕ → Hires
  pub to_uint32 : Hires → ℕ
  pub to_uint64 : Hires → ℕ
  pub to_float : Hires → ℕ
  pub to_double : Hires → ℕ

-- A word of eight bytes in the order of the host.
unfoldable pub load64 : Bool → Bytes → ℕ
load64 true m = load32 true m * 2 ^ 32 + load32 true (drop 4 m)
load64 false m = load32 false m + load32 false (drop 4 m) * 2 ^ 32

module _ (big : Bool) (c : Conversions) where
  unfoldable pub lo_hires_val : ℕ → Bytes → c.Hires
  lo_hires_val type p =
      if type == b'i'
      then c.of_int32 (load32 big p)
      else if type == b'h'
      then c.of_int64 (load64 big p)
      else if type == b'f'
      then c.of_float (load32 big p)
      else if type == b'd'
      then c.of_double (load64 big p)
      else c.zero_value

  -- The bytes that are written, or `none` for the result 0.
  unfoldable pub lo_coerce : ℕ → ℕ → Bytes → Option Bytes
  lo_coerce type_to type_from from =
      if type_to == type_from
      then some (take (lo_arg_size big type_from from) from)
      else if lo_is_string_type type_to && lo_is_string_type type_from
      then some (c_string from ++ 0 ∷ [])
      else if lo_is_numerical_type type_to && lo_is_numerical_type type_from
      then (if type_to == b'i'
          then some (store32 big (c.to_uint32 (lo_hires_val type_from from)))
          else if type_to == b'h'
          then some (store64 big (c.to_uint64 (lo_hires_val type_from from)))
          else if type_to == b'f'
          then some (store32 big (c.to_float (lo_hires_val type_from from)))
          else if type_to == b'd'
          then some (store64 big (c.to_double (lo_hires_val type_from from)))
          else none)
      else none
