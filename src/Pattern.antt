-- ===== src/Pattern.antt =====
-- lo_pattern_match of src/pattern_match.c.
mod Match
pub mod Fuel
pub mod Stars
pub mod Wild
pub mod Braces
pub use Match.{Verdict}
unfoldable pub use Match.{lo_pattern_match}
