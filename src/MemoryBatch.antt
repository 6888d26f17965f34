-- ===== src/MemoryBatch.antt =====
-- core/message/MemoryBatch.hpp: messages that are built one behind another in a big buffer.
pub mod Built
pub mod Places
pub mod Inside
pub mod Regions
pub mod Tests
use dstreamon.Base.{
  ℕ, suc, ◌+◌, ◌*◌, ◌%◌, ◌^◌, List, [], ◌∷◌, Option, none, some, ltb, if◌then◌else◌,
}

-- A buffer is known by the number of its allocation.
pub record MemoryBatch : Type 0 where
  pub buff : ℕ
  pub size : ℕ
  pub curr : ℕ

-- `new MemoryBatch(size)`
abbrev pub create : ℕ → ℕ → MemoryBatch
create buff size = record { buff = buff; size = size; curr = 0 }

-- The memory of a message: its buffer, where it starts there, and how long it is.
pub record Region : Type 0 where
  pub buff : ℕ
  pub start : ℕ
  pub len : ℕ

-- A null pointer is `none`. The sum is a `size_t`.
unfoldable pub reserve : ℕ → MemoryBatch → Option Region × MemoryBatch
reserve n b = if ltb b.size ((b.curr + n) % 2 ^ 64) then (none, b) else (
  some (record { buff = b.buff; start = b.curr; len = n }),
  record b { curr = (b.curr + n) % 2 ^ 64 },
)

abbrev pub batch_size : ℕ
batch_size = 4096 * 256

-- `alloc_msg_from_buffer`, for a message that needs `n` bytes with its additional space: where they do
-- not fit, the batch is left to its messages, and a new one takes its place.
unfoldable pub alloc_msg_from_buffer : ℕ → MemoryBatch → Option Region × MemoryBatch
unfolding reserve
alloc_msg_from_buffer n b = elim ((reserve n b).0) [
  | some r ↦ (some r, (reserve n b).1)
  | none ↦ reserve n (create (suc b.buff) batch_size)
]

-- One message after another.
unfoldable pub alloc_each : List ℕ → MemoryBatch → List (Option Region)
unfolding alloc_msg_from_buffer
alloc_each [] b = []
alloc_each (n ∷ ns) b = (alloc_msg_from_buffer n b).0 ∷ alloc_each ns (alloc_msg_from_buffer n b).1
