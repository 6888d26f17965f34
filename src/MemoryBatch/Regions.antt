-- ===== src/MemoryBatch/Regions.antt =====
-- core/message/MemoryBatch.hpp: the memory of the messages.
use dstreamon.Base.{ℕ, suc, ◌+◌, ◌%◌, ◌^◌, ◌<◌, ◌≡◌, refl, true, List, [], ◌∷◌, none, arith, ltb}
use dstreamon.MemoryBatch.{
  MemoryBatch, create, reserve, batch_size, alloc_msg_from_buffer, alloc_each,
}
use dstreamon.MemoryBatch.Built.{AllAtMost, AllBuilt, AllBuilt-alloc_each}
use dstreamon.MemoryBatch.Places.{Fits, AllSmall, AllApart, AllApart-alloc_each}
use dstreamon.MemoryBatch.Inside.{AllInside, AllInside-alloc_each}

AllAtMost-AllSmall : (ns : List ℕ) → AllAtMost batch_size ns → AllSmall ns
AllAtMost-AllSmall [] small = tt
AllAtMost-AllSmall (n ∷ ns) small = (omega (arith, small.0), AllAtMost-AllSmall ns small.1)

-- Messages of at most 2 ^ 20 bytes each, the size of a new batch, that are built one after another,
-- from a batch of less than 2 ^ 63 bytes that has given away no more than it has: each of them gets
-- memory of its length, none a null pointer; they share no byte, whichever batch each of them is
-- in, and each lies within its batch, which has its own size if it is the first and 2 ^ 20 bytes
-- otherwise.
pub alloc_each_lem :
    (ns : List ℕ) (b : MemoryBatch)
    → AllAtMost batch_size ns
    → Fits b
    → AllBuilt ns (alloc_each ns b) × AllApart (alloc_each ns b) × AllInside b (alloc_each ns b)
alloc_each_lem ns b small fits =
    let short = AllAtMost-AllSmall ns small in
    (
      AllBuilt-alloc_each ns b small,
      AllApart-alloc_each ns b short fits,
      AllInside-alloc_each b ns b short fits (λ buff le. refl),
    )

-- A message of less than 2 ^ 63 bytes that fits neither its batch, which has less than 2 ^ 63 bytes
-- and has given away no more, nor a new one is built at a null pointer, and the batch is given up
-- for an empty one.
pub alloc_msg_from_buffer_null :
    (n : ℕ) (b : MemoryBatch)
    → n < 2 ^ 63
    → Fits b
    → batch_size < n
    → b.size < b.curr + n
    → alloc_msg_from_buffer n b ≡ (none, create (suc b.buff) batch_size)
unfolding alloc_msg_from_buffer reserve
alloc_msg_from_buffer_null n b small fits large no_room =
    let full : ltb b.size ((b.curr + n) % 2 ^ 64) ≡ true = ground (arith, no_room, small, fits) in
    let too_large : ltb batch_size ((0 + n) % 2 ^ 64) ≡ true = ground (arith, large, small) in
    rw (full, alloc_msg_from_buffer) (rw too_large refl)
