-- ===== src/Message/Rooms.antt =====
-- The memory of a message behind the lo_message_add functions of src/message.c: what they write stays
-- within the two buffers.
use liblo.Base.{ℕ, ◌+◌, ◌*◌, ◌^◌, ◌<◌, ◌≤◌, arith}
use liblo.Message.State.{Platform, Message, lo_message_new}

-- `(int) (log(b / a) / 0.69315) + 1` doublings of `a` reach `b`, for sizes that a message can be
-- sent with. The constant is above the logarithm of 2, so that for larger sizes they may not.
abbrev pub IsLog : Platform → Type 0
IsLog p = (a b : ℕ) → 0 < a → a < b → b ≤ 32768 → b ≤ a * 2 ^ (p.log_ratio b a + 1)

-- The data are within their buffer, and the typechars and the NUL behind them within theirs.
pub record IsRoomy (m : Message) : Type 0 where
  pub data_room : m.datalen ≤ m.datasize
  pub type_room : m.typelen < m.typesize

pub lo_message_new-IsRoomy : IsRoomy lo_message_new
unfolding lo_message_new
lo_message_new-IsRoomy = record { data_room = omega arith; type_room = omega arith }
