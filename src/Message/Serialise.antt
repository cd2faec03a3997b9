-- ===== src/Message/Serialise.antt =====
-- lo_message_length, lo_message_serialise and lo_message_deserialise.
use liblo.Base.{
  ℕ, ◌+◌, ◌-◌, ◌*◌, Bool, true, not, Option, none, some, List, [], ◌∷◌, ◌++◌, Bytes, length, take,
  drop, replicate, overwrite, blit, ◌==◌, if◌then◌else◌, Result, ok, err, report, ◌>>=◌, ◌>>◌,
  require, enotype, ealloc, einvalidpath, einvalidtype, ebadtype, esize, einvalidarg,
}
use liblo.Osc.{lo_strsize, lo_arg_size, c_string}
use liblo.Osc.Padding.{zeros4}
use liblo.Timetag.{immediate}
use liblo.Argument.{lo_arg_host_endian, lo_arg_network_endian}
use liblo.Validate.{lo_validate_string, lo_validate_arg}
use liblo.Message.State.{Platform, Message}

unfoldable pub lo_message_length : Message → Bytes → ℕ
lo_message_length m path = lo_strsize path + lo_strsize m.types + m.datalen

-- The loop that brings each argument to network order. Its size is read before the change.
unfoldable pub network_loop : Bool → Bytes → Bytes → Bytes
network_loop big [] ptr = ptr
network_loop big (t ∷ types) ptr =
    let len = lo_arg_size big t ptr in
    let ptr' = lo_arg_network_endian big t ptr in
    take len ptr' ++ network_loop big types (drop len ptr')

-- The two strings with their pad bytes and the data, put into the buffer `to`, whatever it holds.
unfoldable pub fill_buffer : Message → Bytes → Bytes → Bytes
fill_buffer m path to =
    let path_size = lo_strsize path in
    let types_size = lo_strsize m.types in
    let with_path = overwrite (blit (path_size - 4) to zeros4) (path ++ 0 ∷ []) in
    let cleared = blit (path_size + types_size - 4) with_path zeros4 in
    let with_types = blit path_size cleared (m.types ++ 0 ∷ []) in
    blit (path_size + types_size) with_types (take m.datalen m.data_bytes)

unfoldable pub serialise_into : Bool → Message → Bytes → Bytes → Bytes
serialise_into big m path to =
    let start = lo_strsize path + lo_strsize m.types in
    let filled = fill_buffer m path to in
    take start filled
    ++ network_loop big (take (m.typelen - 1) (drop 1 m.types)) (drop start filled)

-- `to` is the buffer of the caller; without one the memory comes from `calloc`.
unfoldable pub lo_message_serialise : Bool → Message → Bytes → Option Bytes → Bytes
lo_message_serialise big m path (some to) = serialise_into big m path to
lo_message_serialise big m path none =
    serialise_into big m path (replicate (lo_message_length m path) 0)

-- The loop over the arguments: the data in host order, and the array of pointers into them.
-- `ptr` is what remains of the data, and `off` the offset at which it begins.
unfoldable pub args_loop : Bool → Bytes → Bytes → ℕ → Result (Bytes × List (Option ℕ))
args_loop big [] ptr off = if length ptr == 0 then ok ([], []) else err esize
args_loop big (t ∷ types) ptr off = do
  len ← report einvalidarg (lo_validate_arg big t ptr)
  let ptr' = lo_arg_host_endian big t ptr
  (rest, argv) ← args_loop big types (drop len ptr') (off + len)
  ok (take len ptr' ++ rest, (if len == 0 then none else some off) ∷ argv)

abbrev pub first_byte : Bytes → ℕ
first_byte [] = 0
first_byte (c ∷ _) = c

-- The message that is built from the two strings and the arguments in `body`.
unfoldable pub read_args : Platform → Bytes → ℕ → Bytes → Result Message
read_args p types typesize body = do
  require (p.realloc typesize) ealloc
  require (p.realloc (length body)) ealloc
  require (if length types - 1 == 0 then true else p.realloc (8 * (length types - 1))) ealloc
  (host, argv) ← args_loop p.big (drop 1 types) body 0
  ok (record {
    types = types;
    typelen = length types;
    typesize = typesize;
    data_bytes = host;
    datalen = length body;
    datasize = length body;
    argv = if length types - 1 == 0 then none else some argv;
    ts = immediate;
    refcount = 0;
  })

-- From the data `d`, whose length is `size`. (The allocation of the structure itself is taken to
-- succeed.)
unfoldable pub lo_message_deserialise : Platform → Bytes → Result Message
lo_message_deserialise p d = do
  require (not (length d == 0)) esize
  len ← report einvalidpath (lo_validate_string d)
  let rest = drop len d
  require (not (length rest == 0)) enotype
  types_len ← report einvalidtype (lo_validate_string rest)
  require (first_byte rest == b',') ebadtype
  read_args p (c_string rest) types_len (drop types_len rest)
