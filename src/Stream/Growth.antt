-- ===== src/Stream/Growth.antt =====
-- When the loop of lo_server_recv_raw_stream_socket (src/server.c) that doubles the size ends.
use liblo.Base.{
  ℕ, zero, suc, ◌+◌, ◌*◌, ◌-◌, ◌<◌, ◌≤◌, ◌≡◌, ◌≢◌, ◌↔◌, ◌⊎◌, inl, inr, refl, none, ltb,
  if◌then◌else◌, arith,
}
use liblo.Stream.Receive.{read_loop, read_size}

-- With more than half of the largest size in the buffer, the loop goes on.
read_loop_stuck :
    (fuel left size offset : ℕ)
    → 64 ≤ size
    → size ≤ 32768
    → left ≤ size - offset
    → 16384 < offset
    → read_loop fuel left size offset ≡ none
unfolding read_loop
read_loop_stuck zero left size offset large small room behind = refl
read_loop_stuck (suc fuel) left size offset large small room behind = ground (
  arith,
  read_loop_stuck fuel (size * 2 - offset) (size * 2) offset,
  read_loop_stuck fuel (32768 - offset) 32768 offset,
)

-- `size` doubled `k` times.
doubled_by : ℕ → ℕ → ℕ
doubled_by zero size = size
doubled_by (suc k) size = doubled_by k (size * 2)

doubled_by_grows : (k size : ℕ) → size ≤ doubled_by k size
unfolding doubled_by
doubled_by_grows zero size = omega arith
doubled_by_grows (suc k) size = omega (arith, doubled_by_grows k (size * 2))

read_loop_ends :
    (k fuel left size offset : ℕ)
    → k + 2 ≤ fuel
    → 64 ≤ size
    → size ≤ 32768
    → 32768 ≤ doubled_by k size
    → offset ≤ 16384
    → read_loop fuel left size offset ≢ none
unfolding read_loop doubled_by
read_loop_ends k zero left size offset enough large small reach behind = absurd (omega arith)
read_loop_ends k (suc zero) left size offset enough large small reach behind = absurd (omega arith)
read_loop_ends zero (suc (suc fuel)) left size offset enough large small reach behind =
    λ e. absurd (ground arith)
read_loop_ends (suc k) (suc (suc fuel)) left size offset enough large small reach behind = λ e.
    absurd (
      ground (
        arith,
        read_loop_ends k (suc fuel) (size * 2 - offset) (size * 2) offset,
        read_loop_ends k (suc fuel) (32768 - offset) 32768 offset,
        doubled_by_grows k 32768,
      ))

size_ends :
    (fuel buffer_size offset : ℕ)
    → 11 ≤ fuel
    → buffer_size ≤ 32768
    → offset ≤ 16384
    → read_size fuel buffer_size offset ≢ none
unfolding read_size doubled_by
size_ends fuel buffer_size offset enough small behind =
    let size = if ltb buffer_size 64 then 64 else buffer_size in
    read_loop_ends 9 fuel (buffer_size - offset) size offset enough (ground arith) (ground arith)
      (ground arith) behind

size_stuck :
    (fuel buffer_size offset : ℕ)
    → buffer_size ≤ 32768
    → offset ≤ buffer_size
    → 16384 < offset
    → read_size fuel buffer_size offset ≡ none
unfolding read_size
size_stuck fuel buffer_size offset small within behind =
    let size = if ltb buffer_size 64 then 64 else buffer_size in
    read_loop_stuck fuel (buffer_size - offset) size offset (ground arith) (ground arith)
      (ground arith) behind

-- With at most 32768 bytes of memory, and no more bytes in it than that, the loop that looks for a
-- size to read into ends within eleven rounds if at most 16384 bytes are in the buffer, and
-- otherwise in no number of rounds.
pub read_size-none_iff :
    (fuel buffer_size offset : ℕ)
    → 11 ≤ fuel
    → buffer_size ≤ 32768
    → offset ≤ buffer_size
    → (read_size fuel buffer_size offset ≡ none) ↔ (16384 < offset)
read_size-none_iff fuel buffer_size offset enough small within = (
  λ e. elim (lt_or_le offset) [
    | inl behind ↦ behind
    | inr ahead ↦ absurd (size_ends fuel buffer_size offset enough small ahead e)
  ],
  λ behind. size_stuck fuel buffer_size offset small within behind,
)
  where
    lt_or_le : (n : ℕ) → (16384 < n) ⊎ (n ≤ 16384)
    lt_or_le n = omega arith
