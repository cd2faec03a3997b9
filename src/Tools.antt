-- ===== src/Tools.antt =====
-- The programs of src/tools that send.
pub mod Oscsend
pub mod Reads
pub mod Words
mod Program
