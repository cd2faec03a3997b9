-- ===== src/Stream/Buffer.antt =====
-- lo_server_buffer_contains_msg and lo_server_buffer_copy_for_dispatch of src/server.c: the
-- buffer in which a stream socket collects messages behind their lengths.
use liblo.Base.{
  ℕ, suc, ◌+◌, ◌/◌, ◌-◌, ◌%◌, ◌^◌, ◌<◌, ◌≡◌, refl, ap, ap₂, ◌∙◌, Bool, true, false, Option, none,
  some, ◌++◌, Bytes, length, take, drop, leb, ltb, ◌==◌, if◌then◌else◌, arith, length-append,
  take-append_self, drop-append_self,
}
use liblo.Osc.{load32, lo_otoh32, store32, be32, load32-lo_otoh32}

-- What has been received (buffer_read_offset bytes), and where the message under way begins.
pub record SocketContext : Type 0 where
  pub buffer : Bytes
  pub buffer_msg_offset : ℕ

-- The length of the message at the start, if it is whole, or 0. The sum is a size_t.
unfoldable pub lo_server_buffer_contains_msg : Bool → SocketContext → ℕ
lo_server_buffer_contains_msg big sc =
    let msg_len = load32 big (lo_otoh32 big sc.buffer) in
    if ltb 4 (length sc.buffer)
    then (if leb (msg_len + 4) (length sc.buffer) then msg_len else 0)
    else 0

-- The message is copied, and the data behind it move to the start; `none` is a null pointer. The
-- two offsets are unsigned int.
unfoldable pub lo_server_buffer_copy_for_dispatch :
    Bool → SocketContext → Option (Bytes × SocketContext)
lo_server_buffer_copy_for_dispatch big sc =
    let msg_len = lo_server_buffer_contains_msg big sc in
    if msg_len == 0
    then none
    else some (
      take msg_len (drop 4 sc.buffer),
      record {
        buffer = drop (msg_len + 4) sc.buffer;
        buffer_msg_offset = (sc.buffer_msg_offset + 2 ^ 32 - (msg_len + 4)) % 2 ^ 32;
      },
    )

be32_bytes :
    (n : ℕ)
    → n < 2 ^ 32
    → be32 (n / 2 ^ 24 % 256) (n / 2 ^ 16 % 256) (n / 2 ^ 8 % 256) (n % 256) ≡ n
be32_bytes n h = omega arith

contains_whole :
    (big : Bool) (a rest : Bytes) (o : ℕ)
    → 0 < length a
    → length a < 2 ^ 32
    → lo_server_buffer_contains_msg big
        (record { buffer = store32 true (length a) ++ (a ++ rest); buffer_msg_offset = o })
      ≡ length a
unfolding lo_server_buffer_contains_msg store32
contains_whole big a rest o some_data short =
    let n = length a in
    let size = length-append a rest in
    rw
      (
        load32-lo_otoh32 big (n / 2 ^ 24 % 256) (n / 2 ^ 16 % 256) (n / 2 ^ 8 % 256) (n % 256)
            (a ++ rest),
        be32_bytes n short,
      )
      (ground arith)

drop_behind : (a rest : Bytes) → drop (length a + 4) (store32 true (length a) ++ (a ++ rest)) ≡ rest
unfolding store32
drop_behind a rest =
    let four : length a + 4 ≡ suc (suc (suc (suc (length a)))) = omega arith in
    ap (λ k. drop k (store32 true (length a) ++ (a ++ rest))) four ∙ drop-append_self a rest

copy_by_length :
    (big : Bool) (sc : SocketContext) (n : ℕ)
    → lo_server_buffer_contains_msg big sc ≡ n
    → (n == 0) ≡ false
    → lo_server_buffer_copy_for_dispatch big sc
      ≡ some (
        take n (drop 4 sc.buffer),
        record {
          buffer = drop (n + 4) sc.buffer;
          buffer_msg_offset = (sc.buffer_msg_offset + 2 ^ 32 - (n + 4)) % 2 ^ 32;
        },
      )
unfolding lo_server_buffer_copy_for_dispatch
copy_by_length big sc n h some_size = rw (lo_server_buffer_copy_for_dispatch, h, some_size) refl

-- A message behind its length, most significant byte first, and then other data: the message is
-- handed out, if it is not empty, and the other data are left at the start of the buffer.
pub buffer_copy_whole :
    (big : Bool) (a rest : Bytes) (o : ℕ)
    → 0 < length a
    → length a < 2 ^ 32
    → lo_server_buffer_copy_for_dispatch big
        (record { buffer = store32 true (length a) ++ (a ++ rest); buffer_msg_offset = o })
      ≡ some
          (a, record { buffer = rest; buffer_msg_offset = (o + 2 ^ 32 - (length a + 4)) % 2 ^ 32 })
buffer_copy_whole big a rest o some_data short =
    let sc : SocketContext = record {
      buffer = store32 true (length a) ++ (a ++ rest);
      buffer_msg_offset = o;
    } in
    let some_size : (length a == 0) ≡ false = ground arith in
    let handed : take (length a) (drop 4 sc.buffer) ≡ a =
      unfold store32 in take-append_self a rest in
    copy_by_length big sc (length a) (contains_whole big a rest o some_data short) some_size
    ∙ ap₂
        (λ x y.
          some
            (x, record { buffer = y; buffer_msg_offset = (o + 2 ^ 32 - (length a + 4)) % 2 ^ 32 }))
        handed (drop_behind a rest)

-- A message whose length or data are not yet whole stays in the buffer.
buffer_copy_part :
    (big : Bool) (n : ℕ) (a : Bytes) (o : ℕ)
    → length a < n
    → n < 2 ^ 32
    → lo_server_buffer_copy_for_dispatch big
        (record { buffer = store32 true n ++ a; buffer_msg_offset = o })
      ≡ none
unfolding lo_server_buffer_copy_for_dispatch lo_server_buffer_contains_msg store32
buffer_copy_part big n a o part short =
    rw
      (
        load32-lo_otoh32 big (n / 2 ^ 24 % 256) (n / 2 ^ 16 % 256) (n / 2 ^ 8 % 256) (n % 256) a,
        be32_bytes n short,
      )
      (ground arith)
