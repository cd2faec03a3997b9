-- ===== src/Argument/Laws.antt =====
-- What the routines on one argument do to the bytes that stand for an abstract argument.
use liblo.Base.{
  ℕ, ◌-◌, ◌+◌, ◌*◌, ◌/◌, ◌%◌, ◌^◌, ◌<◌, ◌≤◌, ◌≡◌, ◌∙◌, refl, ap, sym, Bool, true, false, ◌++◌,
  arith, Bytes, length, ok, length-append, length-replicate, append_assoc,
}
use liblo.Osc.{
  typechar, to_type, store32, load32, lo_otoh32, lo_otoh64, lo_arg_size, lo_strsize, lo_blobsize,
  load32-store32,
}
use liblo.Osc.Padding.{strlen-padded, length-padded}
use liblo.Validate.{
  lo_validate_arg, lo_validate_string-padded, lo_validate_blob_padded, lo_validate_blob,
  padded_blob,
}
use liblo.Argument.Order.{swap_timetag, lo_arg_host_endian, lo_arg_network_endian}
use liblo.Argument.Value.{Arg, IsArg, type_of, store64, blob_pad, host_bytes, wire_bytes}

pub length-store64 : (big : Bool) (n : ℕ) → length (store64 big n) ≡ 8
unfolding store64 store32
length-store64 true n = refl
length-store64 false n = refl

pub length-blob_bytes :
    (big : Bool) (bs : Bytes)
    → length (store32 big (length bs) ++ (bs ++ blob_pad bs)) ≡ 4 * ((4 + length bs + 3) / 4)
unfolding store32 blob_pad
length-blob_bytes true bs =
    omega
      (arith, length-append bs (blob_pad bs), length-replicate {A = ℕ} (3 - (length bs + 3) % 4) 0)
length-blob_bytes false bs =
    omega
      (arith, length-append bs (blob_pad bs), length-replicate {A = ℕ} (3 - (length bs + 3) % 4) 0)

load32-blob_size :
    (big : Bool) (n : ℕ) (r m : Bytes) → n < 2 ^ 32 → load32 big ((store32 big n ++ r) ++ m) ≡ n
load32-blob_size big n r m h =
    ap (load32 big) (append_assoc (store32 big n) r m) ∙ load32-store32 big n (r ++ m) h

pub lo_blobsize_small : (n : ℕ) → n ≤ 32768 → lo_blobsize n ≡ 4 * ((4 + n + 3) / 4)
unfolding lo_blobsize
lo_blobsize_small n h = omega arith

-- The size that the code reads off an argument in memory is that of its bytes.
pub lo_arg_size-host :
    (big : Bool) (a : Arg) (m : Bytes)
    → IsArg a
    → lo_arg_size big (typechar (type_of a)) (host_bytes big a ++ m) ≡ length (host_bytes big a)
unfolding lo_arg_size typechar to_type type_of host_bytes lo_strsize
lo_arg_size-host big (Arg.string s) m h = rw (strlen-padded s m h) (sym (length-padded s))
lo_arg_size-host big (Arg.symbol s) m h = rw (strlen-padded s m h) (sym (length-padded s))
lo_arg_size-host big (Arg.blob bs) m h =
    ap lo_blobsize (load32-blob_size big (length bs) (bs ++ blob_pad bs) m (omega arith))
    ∙ lo_blobsize_small (length bs) h
    ∙ sym (length-blob_bytes big bs)
lo_arg_size-host true _ m h = unfold store64 store32 in refl
lo_arg_size-host false _ m h = unfold store64 store32 in refl

-- To network order: the bytes in memory become those on the wire.
pub lo_arg_network_endian-host :
    (big : Bool) (a : Arg) (m : Bytes)
    → lo_arg_network_endian big (typechar (type_of a)) (host_bytes big a ++ m)
      ≡ wire_bytes big a ++ m
unfolding lo_arg_network_endian typechar to_type type_of host_bytes wire_bytes store64 store32
    lo_otoh32 lo_otoh64 swap_timetag
lo_arg_network_endian-host true (Arg.int32 n) m = refl
lo_arg_network_endian-host true _ m = refl
lo_arg_network_endian-host false (Arg.int32 n) m = refl
lo_arg_network_endian-host false _ m = refl

-- To host order: the bytes on the wire become those in memory.
pub lo_arg_host_endian-wire :
    (big : Bool) (a : Arg) (m : Bytes)
    → lo_arg_host_endian big (typechar (type_of a)) (wire_bytes big a ++ m) ≡ host_bytes big a ++ m
unfolding lo_arg_host_endian typechar to_type type_of host_bytes wire_bytes store64 store32
    lo_otoh32 lo_otoh64 swap_timetag
lo_arg_host_endian-wire true (Arg.int32 n) m = refl
lo_arg_host_endian-wire true _ m = refl
lo_arg_host_endian-wire false (Arg.int32 n) m = refl
lo_arg_host_endian-wire false _ m = refl

pub length-wire_bytes :
    (big : Bool) (a : Arg) → length (wire_bytes big a) ≡ length (host_bytes big a)
unfolding host_bytes wire_bytes store64 store32
length-wire_bytes true (Arg.int32 n) = refl
length-wire_bytes true _ = refl
length-wire_bytes false (Arg.int32 n) = refl
length-wire_bytes false _ = refl

lo_validate_blob_wire :
    (big : Bool) (bs m : Bytes)
    → length bs ≤ 32768
    → lo_validate_blob big ((store32 true (length bs) ++ (bs ++ blob_pad bs)) ++ m)
      ≡ ok (length (store32 true (length bs) ++ (bs ++ blob_pad bs)))
unfolding store32 blob_pad padded_blob
lo_validate_blob_wire big bs m h =
    lo_validate_blob_padded big bs m h ∙ ap ok (sym (length-blob_bytes true bs))

-- What is sent is accepted, whatever follows it, with the length that it has in memory.
pub lo_validate_arg-wire :
    (big : Bool) (a : Arg) (m : Bytes)
    → IsArg a
    → lo_validate_arg big (typechar (type_of a)) (wire_bytes big a ++ m)
      ≡ ok (length (host_bytes big a))
unfolding lo_validate_arg typechar to_type type_of host_bytes wire_bytes store64 store32
lo_validate_arg-wire true (Arg.string s) m h =
    lo_validate_string-padded s m h ∙ ap ok (sym (length-padded s))
lo_validate_arg-wire true (Arg.symbol s) m h =
    lo_validate_string-padded s m h ∙ ap ok (sym (length-padded s))
lo_validate_arg-wire true (Arg.blob bs) m h = lo_validate_blob_wire true bs m h
lo_validate_arg-wire true _ m h = ground arith
lo_validate_arg-wire false (Arg.string s) m h =
    lo_validate_string-padded s m h ∙ ap ok (sym (length-padded s))
lo_validate_arg-wire false (Arg.symbol s) m h =
    lo_validate_string-padded s m h ∙ ap ok (sym (length-padded s))
lo_validate_arg-wire false (Arg.blob bs) m h = lo_validate_blob_wire false bs m h
lo_validate_arg-wire false _ m h = ground arith
