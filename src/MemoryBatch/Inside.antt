-- ===== src/MemoryBatch/Inside.antt =====
-- core/message/MemoryBatch.hpp: messages lie within their buffers.
use dstreamon.Base.{
  ℕ, suc, ◌+◌, ◌%◌, ◌^◌, ◌≤◌, ◌≡◌, refl, false, List, [], ◌∷◌, Option, none, some, arith, ltb,
  if◌then◌else◌, inl, inr, Bool-cases, Option-cases, ap, ap₂, ◌∙◌, sym, ◌==◌,
}
use dstreamon.MemoryBatch.{
  MemoryBatch, Region, create, reserve, batch_size, alloc_msg_from_buffer, alloc_each,
}
use dstreamon.MemoryBatch.Places.{Fits, AllSmall, Placed, Placed-alloc_msg_from_buffer, Placed-Fits}

-- The size of each buffer, from a batch on: its own, and that of the new ones.
abbrev pub sizes : MemoryBatch → ℕ → ℕ
sizes b buff = if buff == b.buff then b.size else batch_size

abbrev pub AllInside : MemoryBatch → List (Option Region) → Type 0
AllInside b [] = Unit
AllInside b (none ∷ rs) = AllInside b rs
AllInside b (some r ∷ rs) = (r.start + r.len ≤ sizes b r.buff) × AllInside b rs

reserve_same :
    (n : ℕ) (b : MemoryBatch) → ((reserve n b).1.buff ≡ b.buff) × ((reserve n b).1.size ≡ b.size)
unfolding reserve
reserve_same n b = elim (Bool-cases (ltb b.size ((b.curr + n) % 2 ^ 64))) [
  | inl full ↦ rw full (refl, refl)
  | inr room ↦ rw room (refl, refl)
]

sizes-alloc_msg_from_buffer :
    (n : ℕ) (b : MemoryBatch) (buff : ℕ)
    → (alloc_msg_from_buffer n b).1.buff ≤ buff
    → sizes (alloc_msg_from_buffer n b).1 buff ≡ sizes b buff
unfolding alloc_msg_from_buffer
sizes-alloc_msg_from_buffer n b buff le = elim (Option-cases ((reserve n b).0)) [
  | inr (r, there) ↦
      let (same, size) = reserve_same n b in
      let e : (alloc_msg_from_buffer n b).1 ≡ (reserve n b).1 =
        rw (there, alloc_msg_from_buffer) refl in
      ap (λ c. sizes c buff) e ∙ ap₂ (λ i k. if buff == i then k else batch_size) same size
  | inl full ↦
      let fresh = create (suc b.buff) batch_size in
      let (same, size) = reserve_same n fresh in
      let e : (alloc_msg_from_buffer n b).1 ≡ (reserve n fresh).1 =
        rw (full, alloc_msg_from_buffer) refl in
      let later : (buff == b.buff) ≡ false = ground (arith, le, ap (λ c. c.buff) e, same) in
      ap (λ c. sizes c buff) e
      ∙ (ap₂ (λ i k. if buff == i then k else batch_size) same size ∙ rw later (ground arith))
]

Placed-le :
    (n : ℕ) (b : MemoryBatch) (r : Option Region × MemoryBatch) → Placed n b r → b.buff ≤ r.1.buff
unfolding Placed
Placed-le n b (none, b') placed = placed.0
Placed-le n b (some r, b') placed = placed.3

pub AllInside-alloc_each :
    (first : MemoryBatch) (ns : List ℕ) (b : MemoryBatch)
    → AllSmall ns
    → Fits b
    → ((buff : ℕ) → b.buff ≤ buff → sizes b buff ≡ sizes first buff)
    → AllInside first (alloc_each ns b)
unfolding alloc_each Placed
AllInside-alloc_each first [] b small fits same = tt
AllInside-alloc_each first (n ∷ ns) b small fits same =
    let placed = Placed-alloc_msg_from_buffer n b small.0 fits in
    let r = alloc_msg_from_buffer n b in
    let same' : (buff : ℕ) → r.1.buff ≤ buff → sizes r.1 buff ≡ sizes first buff = λ buff le.
      sizes-alloc_msg_from_buffer n b buff le
      ∙ same buff (omega (arith, le, Placed-le n b r placed)) in
    from_first first n b r (alloc_each ns r.1) placed same'
      (AllInside-alloc_each first ns r.1 small.1 (Placed-Fits n b r placed) same')
  where
    from_first :
        (first : MemoryBatch) (n : ℕ) (b : MemoryBatch) (r : Option Region × MemoryBatch)
        (rs : List (Option Region))
        → Placed n b r
        → ((buff : ℕ) → r.1.buff ≤ buff → sizes r.1 buff ≡ sizes first buff)
        → AllInside first rs
        → AllInside first (r.0 ∷ rs)
    from_first first n b (none, b') rs placed same rest = rest
    from_first first n b (some r, b') rs placed same rest =
        let at : sizes first r.buff ≡ b'.size =
          ap (sizes first) placed.2 ∙ (sym (same b'.buff (omega arith)) ∙ ground arith) in
        let inside : b'.curr ≤ b'.size = placed.5.0 in (omega (arith, at, placed.1, inside), rest)
