-- ===== src/Osc.antt =====
-- The OSC types of lo/lo_osc_types.h, byte order (lo/lo_endian.h.in), blobs (src/blob.c) and
-- the sizes of arguments (lo_strsize and lo_arg_size of src/message.c).
--
-- Memory is a list of bytes. `big` is LO_BIGENDIAN, the byte order of the host.
mod Endian
mod Types
pub mod Padding
pub mod Blob
unfoldable pub use Endian.{store32, load32, lo_otoh32, lo_otoh64}
pub use Endian.{be32, load32-lo_otoh32, load32-store32, length-store32, lo_otoh32_twice}
pub use Endian.{length-lo_otoh32, length-lo_otoh64, lo_otoh64_twice}
pub use Types.{OscType, to_type-typechar}
unfoldable pub use Types.{typechar, to_type, strlen, c_string, lo_strsize, lo_blobsize, lo_arg_size}
