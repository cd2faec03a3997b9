-- ===== src/Validate.antt =====
-- The validators of src/message.c that read raw OSC data: lo_validate_string,
-- lo_validate_blob, lo_validate_bundle and lo_validate_arg.
--
-- `m` is the memory from `data` on and `size` is its length, so that the sizes are never
-- negative and the guards `size < 0` of the C code have nothing to catch. A length that is
-- returned is `ok n`, a negated code is `err e`.
mod Strings
mod Blobs
mod Bundles
mod Layout
mod Args
unfoldable pub use Strings.{find_nul, all_zero, check_pad, lo_validate_string}
pub use Strings.{lo_validate_string-padded, lo_validate_string_inv, lo_validate_string_no_fault}
unfoldable pub use Blobs.{lo_validate_blob, read_word, pads_loop, check_blob, padded_blob}
pub use Blobs.{lo_validate_blob_padded, lo_validate_blob_inv, lo_validate_blob_fault_iff}
unfoldable pub use Bundles.{lo_validate_bundle, frames, elements_loop, check_bundle}
pub use Layout.{layout→valid, bundle-IsText, lo_validate_bundle_iff, IsBundle}
pub use Bundles.{AllBytes, AllShort, store32-be32}
unfoldable pub use Args.{lo_validate_arg}
