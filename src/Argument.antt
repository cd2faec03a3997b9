-- ===== src/Argument.antt =====
-- One argument of a message: the conversions of src/message.c between host and network order
-- (lo_arg_host_endian, lo_arg_network_endian), and an abstract argument with the bytes that
-- stand for it in memory and on the wire.
mod Order
mod Value
mod Laws
unfoldable pub use Order.{lo_arg_host_endian, lo_arg_network_endian}
pub use Value.{Arg, IsArg}
unfoldable pub use Value.{type_of, host_bytes, wire_bytes, store64, blob_pad}
pub use Laws.{lo_arg_size-host, lo_arg_network_endian-host, lo_arg_host_endian-wire}
pub use Laws.{
  length-store64, lo_blobsize_small, length-blob_bytes, lo_validate_arg-wire, length-wire_bytes,
}
