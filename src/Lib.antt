-- ===== src/Lib.antt =====
-- liblo, the Open Sound Control library, modelled from its C sources.
--
-- A message is a string of typechars and a buffer of arguments (src/message.c). It is built
-- argument by argument, serialised to bytes behind its path, sent, and on the other side
-- validated, deserialised and dispatched to the methods whose path matches (src/server.c,
-- src/pattern_match.c), at once or from a queue in the order of time. Streams carry messages in
-- SLIP packets or behind their lengths.
--
-- Files:
--   Base             tests on numbers and strings, lists, memory, results
--   Osc              lo_type, lo_strsize, lo_blobsize, lo_arg_size (lo/lo_osc_types.h,
--                    src/message.c, src/blob.c), byte order (lo/lo_endian.h.in);
--                    lo_blob_new and its accessors (src/blob.c)
--   Validate         lo_validate_string, lo_validate_blob, lo_validate_bundle, lo_validate_arg
--   Argument         lo_arg_host_endian, lo_arg_network_endian, and arguments as values
--   Timetag          time tags, and the tests on lo_timetag_diff (src/timetag.c)
--   Message          struct _lo_message, lo_message_new, the lo_message_add functions,
--                    lo_message_add_varargs_internal, lo_message_serialise,
--                    lo_message_deserialise, lo_message_get_argv
--   Stream           slip_decode, detect_slip, the buffer of a stream, and
--                    lo_server_recv_raw_stream_socket (src/server.c)
--   Pattern          lo_pattern_match (src/pattern_match.c)
--   Server           the table of methods, the coercion of arguments (lo_coerce of src/message.c),
--                    queue_data, dispatch_queued, dispatch_data, dispatch_method with the block for
--                    coerced arguments, and the table of sockets
--   Server/Loop      lo_server_recv, lo_server_wait, lo_server_recv_noblock, lo_server_recv_raw,
--                    lo_server_recv_raw_stream, lo_server_next_event_delay and
--                    lo_server_enable_queue (src/server.c), in the build that uses poll
--   Server/Thread    lo_server_thread_start, lo_server_thread_stop with a pthread_join that may fail,
--                    and the loop of the thread around lo_server_recv_noblock (src/server_thread.c),
--                    as steps that interleave
--   Bundle           bundles: construction with the test for cycles, length, lo_bundle_serialise
--                    (src/bundle.c), and the tree of packets that a bundle stands for;
--                    lo_bundle_free_recursive, with the reference counts
--   Address          struct _lo_address, its setters, lo_address_new_from_url, the lo_url_get
--                    functions, lo_address_get_url (src/address.c), and sscanf for their formats
--   Send             slip_encode, send_data, lo_send_message_from, lo_send_bundle_from, lo_send,
--                    lo_send_timestamped, lo_send_from (src/send.c)
--   Tools            create_message and main of src/tools/oscsend.c
--   Examples         the theorems at concrete inputs
--
-- Functions keep their C names. Memory is a list of bytes, a pointer the list from there on. A
-- function that changes a structure returns the new one. A read that C leaves undefined is the
-- result `fault`, or the verdict `over_read` of the matcher. The byte order of the host, the
-- result of `log` and of `realloc`, the contents of new memory and the addresses of arguments are
-- parameters (`Platform`). Writes into the buffers of a message are kept apart from their sizes: a
-- length above the size is a write outside the buffer.
--
-- Bounds: sizes are below 2 ^ 31, so that the int variables of the C code hold them; `char` is
-- signed in the order of characters; lo_message_deserialise takes the allocation of the structure
-- itself to succeed. Fuel: the matcher runs on one more than the length of the pattern, and the
-- loop of lo_validate_bundle on one more than the length of the data; both are enough, as listed
-- below. Walks over nested bundles run on a given fuel, and say so when it ends; the number of
-- bundles and one is enough for the test for cycles. The loop that doubles the size of a stream's
-- buffer has fuel for eleven rounds, from 64 bytes to the largest size and one more.
--
-- The system: sending runs against a network that answers each call as it likes (`Network`), also
-- by taking a part of the bytes; where a theorem needs that a call of send that does not fail takes
-- them all, as on a socket that blocks, it says so. sscanf is that of the C standard, which
-- returns EOF when the text ends before the first conversion, skipped ones not counted, as glibc
-- and musl do. The handlers of the methods return what they like, and the conversions of numbers
-- through long double are a parameter (`Conversions`). A URL of a UNIX socket keeps its path as
-- the port.
--
-- A waiting server runs against a system that answers each call of poll, accept, recv, recvfrom
-- and of the clock as it likes (`System`); the time for which poll is asked to wait changes no
-- answer, and is left out. Its rounds run on fuel: a result `waiting` says that it ends, and the
-- fuel that is enough for a queue is listed below. The tests on delays are exact in the units of
-- the time tags, as doubles decide them.
--
-- Not modelled: the build that uses select instead of poll, the creation of sockets with their
-- options, name resolution and network interfaces, printing, the other tools and the C++ wrapper.
pub mod Base
pub mod Osc
pub mod Validate
pub mod Argument
pub mod Timetag
pub mod Tools
pub mod Message
pub mod Stream
pub mod Address
pub mod Send
pub mod Pattern
pub mod Server
pub mod Bundle
pub mod Examples
