-- ===== src/MemoryBatch/Tests.antt =====
-- core/message/MemoryBatch.hpp: three messages, the last in a new batch.
use dstreamon.Base.{ℕ, ◌≡◌, refl, List, [], ◌∷◌, none, some, arith}
use dstreamon.MemoryBatch.{
  MemoryBatch, create, reserve, batch_size, alloc_msg_from_buffer, alloc_each,
}
use dstreamon.MemoryBatch.Built.{AllBuilt}
use dstreamon.MemoryBatch.Places.{AllApart}
use dstreamon.MemoryBatch.Inside.{AllInside}
use dstreamon.MemoryBatch.Regions.{alloc_each_lem, alloc_msg_from_buffer_null}

abbrev small_batch : MemoryBatch
small_batch = create 5 16

abbrev messages : List ℕ
messages = 10 ∷ (4 ∷ (8 ∷ []))

runs :
    alloc_each messages small_batch
    ≡ some (record { buff = 5; start = 0; len = 10 })
      ∷ (some (record { buff = 5; start = 10; len = 4 })
          ∷ (some (record { buff = 6; start = 0; len = 8 }) ∷ []))
unfolding alloc_each alloc_msg_from_buffer reserve
runs = refl

alloc_each_lem_example :
    AllBuilt messages (alloc_each messages small_batch)
    × AllApart (alloc_each messages small_batch)
    × AllInside small_batch (alloc_each messages small_batch)
alloc_each_lem_example =
    alloc_each_lem messages small_batch (omega arith, (omega arith, (omega arith, tt)))
      (omega arith, omega arith)

alloc_msg_from_buffer_null_example :
    alloc_msg_from_buffer 1048577 small_batch ≡ (none, create 6 batch_size)
alloc_msg_from_buffer_null_example =
    alloc_msg_from_buffer_null 1048577 small_batch (omega arith) (omega arith, omega arith)
      (omega arith) (omega arith)
