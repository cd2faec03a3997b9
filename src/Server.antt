-- ===== src/Server.antt =====
-- The server of src/server.c: the table of methods, the queue of messages for later, the coercion of
-- arguments, the dispatch of a message to its methods, and the table of sockets.
pub mod Coerce
pub mod Methods
pub mod Queue
pub mod Dispatch
pub mod Hires
pub mod Sockets
pub mod Calls
mod Fits
pub mod Places
pub mod Enumerate
pub mod Delivery
mod Parts
pub mod Bundles
pub mod Loop
pub mod Thread
pub mod Joins
