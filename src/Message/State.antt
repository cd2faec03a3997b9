-- ===== src/Message/State.antt =====
-- The structure, and the growth of its two buffers.
--
-- `types` holds the first `typelen` bytes of the buffer of typechars, the comma included, and
-- `data` the first `datalen` bytes of the data; `typesize` and `datasize` are the allocated
-- sizes. Sizes stay below 2 ^ 31, so that the C code's int variables hold them.
-- A message whose `datalen` is above its `datasize`, or whose `typelen` is not below its `typesize`,
-- is one for which the C code has written outside a buffer, which has no defined outcome: what is
-- said of its contents is then empty.
use liblo.Base.{
  ℕ, ◌+◌, ◌-◌, ◌*◌, ◌^◌, Bool, Option, none, some, List, [], ◌∷◌, ◌++◌, Bytes, ltb, leb, ◌==◌,
  if◌then◌else◌, fresh,
}
use liblo.Timetag.{Timetag, immediate}

-- What the library does not decide: the byte order of the host, the value of
-- `(int) (log((double) b / (double) a) / 0.69315)` in its mathematical library, whether
-- `realloc` to a size succeeds, the contents of new memory, and where the bytes are that a pointer in
-- an argument list points to.
pub record Platform : Type 0 where
  pub big : Bool
  pub log_ratio : ℕ → ℕ → ℕ
  pub realloc : ℕ → Bool
  pub junk : ℕ → ℕ
  pub pointer : Bytes → ℕ

pub record Message : Type 0 where
  pub types : Bytes
  pub typelen : ℕ
  pub typesize : ℕ
  pub data_bytes : Bytes
  pub datalen : ℕ
  pub datasize : ℕ
  -- The cached array of lo_message_get_argv: an offset into the data, or `none` for NULL.
  pub argv : Option (List (Option ℕ))
  pub ts : Timetag
  pub refcount : ℕ

abbrev pub lo_def_type_size : ℕ
lo_def_type_size = 8

abbrev pub lo_def_data_size : ℕ
lo_def_data_size = 8

unfoldable pub lo_message_new : Message
lo_message_new = record {
  types = b',' ∷ [];
  typelen = 1;
  typesize = lo_def_type_size;
  data_bytes = [];
  datalen = 0;
  datasize = 0;
  argv = none;
  ts = immediate;
  refcount = 0;
}

unfoldable pub lo_message_clone : Message → Message
lo_message_clone m = record m { argv = none; ts = immediate; refcount = 0 }

unfoldable pub lo_message_incref : Message → Message
lo_message_incref m = record m { refcount = m.refcount + 1 }

-- `none` means that the memory is released. A count of 0 would go to -1, which releases too.
unfoldable pub lo_message_free : Message → Option Message
lo_message_free m =
    if leb (m.refcount - 1) 0 then none else some (record m { refcount = m.refcount - 1 })

module _ (p : Platform) where
  -- The macro: `a << ((int) (log(b / a) / 0.69315) + 1)` if `a` is too small.
  unfoldable pub lo_pow2_over : ℕ → ℕ → ℕ
  lo_pow2_over a b = if ltb a b then a * 2 ^ (p.log_ratio b a + 1) else a

  -- The size that lo_message_add_data asks for.
  unfoldable pub grown_datasize : Message → ℕ → ℕ
  unfolding lo_pow2_over
  grown_datasize m s =
      lo_pow2_over (if m.datasize == 0 then lo_def_data_size else m.datasize) (m.datalen + s)

  -- Room for `s` more bytes, whose contents are left as they come; `none` is a null pointer.
  unfoldable pub lo_message_add_data : Message → ℕ → Option Message
  lo_message_add_data m s =
      if p.realloc (grown_datasize m s)
      then some (record m {
        data_bytes = m.data_bytes ++ fresh p.junk s;
        datalen = m.datalen + s;
        datasize = grown_datasize m s;
        argv = none;
      })
      else none

  unfoldable pub grown_typesize : Message → ℕ
  grown_typesize m =
      if leb m.typesize (m.typelen + 1)
      then (if m.typesize * 2 == 0 then lo_def_type_size else m.typesize * 2)
      else m.typesize

  -- `none` is the result -1.
  unfoldable pub lo_message_add_typechar : Message → ℕ → Option Message
  lo_message_add_typechar m t =
      let m' : Message = record m {
        types = m.types ++ t ∷ [];
        typelen = m.typelen + 1;
        typesize = grown_typesize m;
        argv = none;
      } in
      if leb m.typesize (m.typelen + 1)
      then (if p.realloc (grown_typesize m) then some m' else none)
      else some m'
