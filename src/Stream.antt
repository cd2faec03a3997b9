-- ===== src/Stream.antt =====
-- The stream sockets of src/server.c: the decoder of SLIP packets (slip_decode), the test that
-- tells the two framings apart (detect_slip), and the buffer of messages behind their lengths.
pub mod Slip
mod Within
pub mod Buffer
pub mod Receive
pub mod Growth
pub mod Conserve
