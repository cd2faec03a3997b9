-- ===== src/Address.antt =====
-- Addresses (src/address.c): the structure, and the parts of a URL.
pub mod Scan
pub mod State
pub mod Url
pub mod Formats
pub mod Ports
