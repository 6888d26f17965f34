-- ===== src/MemoryBatch/Built.antt =====
-- core/message/MemoryBatch.hpp: messages that get memory.
use dstreamon.Base.{
  ℕ, suc, ◌+◌, ◌%◌, ◌^◌, ◌≤◌, ◌≡◌, refl, false, List, [], ◌∷◌, Option, some, arith, ltb, inl, inr,
  Bool-cases, Option-cases,
}
use dstreamon.MemoryBatch.{
  MemoryBatch, Region, create, reserve, batch_size, alloc_msg_from_buffer, alloc_each,
}

-- No message is longer than a bound.
abbrev pub AllAtMost : ℕ → List ℕ → Type 0
AllAtMost m [] = Unit
AllAtMost m (n ∷ ns) = (n ≤ m) × AllAtMost m ns

-- Each message has memory of the length that was asked for.
abbrev pub AllBuilt : List ℕ → List (Option Region) → Type 0
AllBuilt [] [] = Unit
AllBuilt [] (o ∷ os) = ⊥
AllBuilt (n ∷ ns) [] = ⊥
AllBuilt (n ∷ ns) (o ∷ os) = ((r : Region) × (o ≡ some r) × (r.len ≡ n)) × AllBuilt ns os

reserve_empty :
    (n buff : ℕ)
    → n ≤ batch_size
    → (r : Region) × ((reserve n (create buff batch_size)).0 ≡ some r) × (r.len ≡ n)
unfolding reserve
reserve_empty n buff le =
    let room : ltb batch_size ((0 + n) % 2 ^ 64) ≡ false = ground (arith, le) in
    rw room (record { buff = buff; start = 0; len = n }, refl, refl)

reserve_len : (n : ℕ) (b : MemoryBatch) (r : Region) → (reserve n b).0 ≡ some r → r.len ≡ n
unfolding reserve
reserve_len n b r e = elim (Bool-cases (ltb b.size ((b.curr + n) % 2 ^ 64))) [
  | inl full ↦ absurd (ground (arith, e, full))
  | inr room ↦ ground (arith, e, room)
]

alloc_msg_from_buffer-some :
    (n : ℕ) (b : MemoryBatch)
    → n ≤ batch_size
    → (r : Region) × ((alloc_msg_from_buffer n b).0 ≡ some r) × (r.len ≡ n)
unfolding alloc_msg_from_buffer
alloc_msg_from_buffer-some n b le = elim (Option-cases ((reserve n b).0)) [
  | inl full ↦ rw (full, alloc_msg_from_buffer) (reserve_empty n (suc b.buff) le)
  | inr (r, there) ↦ rw (there, alloc_msg_from_buffer) (r, refl, reserve_len n b r there)
]

pub AllBuilt-alloc_each :
    (ns : List ℕ) (b : MemoryBatch) → AllAtMost batch_size ns → AllBuilt ns (alloc_each ns b)
unfolding alloc_each
AllBuilt-alloc_each [] b small = tt
AllBuilt-alloc_each (n ∷ ns) b small = (
  alloc_msg_from_buffer-some n b small.0,
  AllBuilt-alloc_each ns (alloc_msg_from_buffer n b).1 small.1,
)
