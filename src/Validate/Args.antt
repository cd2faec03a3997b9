-- ===== src/Validate/Args.antt =====
-- lo_validate_arg: the `switch` on the type of one argument in network order.
use liblo.Base.{
  ℕ, Bool, none, some, Bytes, length, leb, if◌then◌else◌, Result, ok, err, esize, einvalidtype,
}
use liblo.Osc.{OscType, to_type}
use liblo.Validate.Strings.{lo_validate_string}
use liblo.Validate.Blobs.{lo_validate_blob}

unfoldable pub lo_validate_arg : Bool → ℕ → Bytes → Result ℕ
lo_validate_arg big c m = elim (to_type c) [
  | none ↦ err einvalidtype
  | some OscType.true_ ↦ ok 0
  | some OscType.false_ ↦ ok 0
  | some OscType.nil ↦ ok 0
  | some OscType.infinitum ↦ ok 0
  | some OscType.int32 ↦ if leb 4 (length m) then ok 4 else err esize
  | some OscType.float ↦ if leb 4 (length m) then ok 4 else err esize
  | some OscType.midi ↦ if leb 4 (length m) then ok 4 else err esize
  | some OscType.char ↦ if leb 4 (length m) then ok 4 else err esize
  | some OscType.int64 ↦ if leb 8 (length m) then ok 8 else err esize
  | some OscType.timetag ↦ if leb 8 (length m) then ok 8 else err esize
  | some OscType.double ↦ if leb 8 (length m) then ok 8 else err esize
  | some OscType.string ↦ lo_validate_string m
  | some OscType.symbol ↦ lo_validate_string m
  | some OscType.blob ↦ lo_validate_blob big m
]
