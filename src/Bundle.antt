-- ===== src/Bundle.antt =====
-- Bundles (src/bundle.c): construction with the test for cycles, access, and length.
pub mod State
pub mod Serialise
pub mod Packet
pub mod Sizes
mod Rounds
pub mod Wire
mod Arrays
pub mod Cycles
pub mod Loops
pub mod Ends
pub mod Accepts
pub mod Free
pub mod Counts
pub mod Releases
pub mod Frees
unfoldable pub use State.*
