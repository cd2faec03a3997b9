-- ===== src/Send.antt =====
-- Sending (src/send.c).
pub mod Slip
pub mod Data
pub mod Keeps
pub mod Stream
pub mod Calls
