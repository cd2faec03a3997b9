-- ===== src/Message.antt =====
-- lo_message of src/message.c: the structure, its construction (lo_message_new,
-- lo_message_clone and the lo_message_add functions), its access, and the buffers behind it.
mod State
mod Build
mod Fills
mod Serialise
pub mod Wire
pub mod RoundTrip
pub mod Values
pub mod Argv
pub mod Varargs
pub mod Rooms
pub mod Portable
pub mod Sizes
pub use State.{Platform, Message}
unfoldable pub use State.{lo_pow2_over, lo_message_new, lo_message_clone}
unfoldable pub use State.{
  lo_message_add_data, lo_message_add_typechar, lo_message_incref, lo_message_free,
}
unfoldable pub use Build.{add_arg, add_flag}
unfoldable pub use Build.{lo_message_add_int32, lo_message_add_float, lo_message_add_string}
unfoldable pub use Build.{lo_message_add_blob, lo_message_add_int64, lo_message_add_timetag}
unfoldable pub use Build.{lo_message_add_double, lo_message_add_symbol, lo_message_add_char}
unfoldable pub use Build.{lo_message_add_midi, lo_message_add_true, lo_message_add_false}
unfoldable pub use Build.{lo_message_add_nil, lo_message_add_infinitum}
unfoldable pub use Argv.{lo_message_get_argc, lo_message_get_types, lo_message_get_argv}
unfoldable pub use Serialise.{lo_message_length, lo_message_serialise, lo_message_deserialise}
