-- ===== src/Argument/Order.antt =====
-- lo_arg_host_endian and lo_arg_network_endian, in place on the memory from the argument on.
use liblo.Base.{ℕ, Bool, none, some, ◌++◌, Bytes, take, drop}
use liblo.Osc.{OscType, to_type, lo_otoh32, lo_otoh64}

-- The two words of a time tag, one after the other.
unfoldable pub swap_timetag : Bool → Bytes → Bytes
swap_timetag big m = let m' = lo_otoh32 big m in take 4 m' ++ lo_otoh32 big (drop 4 m')

unfoldable pub lo_arg_host_endian : Bool → ℕ → Bytes → Bytes
lo_arg_host_endian big c m = elim (to_type c) [
  | none ↦ m
  | some OscType.int32 ↦ lo_otoh32 big m
  | some OscType.float ↦ lo_otoh32 big m
  | some OscType.blob ↦ lo_otoh32 big m
  | some OscType.char ↦ lo_otoh32 big m
  | some OscType.timetag ↦ swap_timetag big m
  | some OscType.int64 ↦ lo_otoh64 big m
  | some OscType.double ↦ lo_otoh64 big m
  | some OscType.string ↦ m
  | some OscType.symbol ↦ m
  | some OscType.midi ↦ m
  | some OscType.true_ ↦ m
  | some OscType.false_ ↦ m
  | some OscType.nil ↦ m
  | some OscType.infinitum ↦ m
]

-- lo_htoo32 and lo_htoo64 are the same macros as lo_otoh32 and lo_otoh64.
unfoldable pub lo_arg_network_endian : Bool → ℕ → Bytes → Bytes
lo_arg_network_endian big c m = elim (to_type c) [
  | none ↦ m
  | some OscType.int32 ↦ lo_otoh32 big m
  | some OscType.float ↦ lo_otoh32 big m
  | some OscType.blob ↦ lo_otoh32 big m
  | some OscType.char ↦ lo_otoh32 big m
  | some OscType.timetag ↦ swap_timetag big m
  | some OscType.int64 ↦ lo_otoh64 big m
  | some OscType.double ↦ lo_otoh64 big m
  | some OscType.string ↦ m
  | some OscType.symbol ↦ m
  | some OscType.midi ↦ m
  | some OscType.true_ ↦ m
  | some OscType.false_ ↦ m
  | some OscType.nil ↦ m
  | some OscType.infinitum ↦ m
]
