-- ===== src/MemoryBatch/Places.antt =====
-- core/message/MemoryBatch.hpp: messages lie behind each other.
use dstreamon.Base.{
  ℕ, suc, ◌+◌, ◌%◌, ◌^◌, ◌≤◌, ◌<◌, ◌≡◌, ◌≢◌, ◌⊎◌, refl, List, [], ◌∷◌, Option, none, some, arith,
  ltb, inl, inr, Bool-cases, Option-cases, ap, subst, ◌==◌, ==_iff,
}
use dstreamon.MemoryBatch.{
  MemoryBatch, Region, create, reserve, batch_size, alloc_msg_from_buffer, alloc_each,
}

-- The bytes in use are in the buffer, and a buffer has less than 2 ^ 63 bytes.
abbrev pub Fits : MemoryBatch → Type 0
Fits b = (b.curr ≤ b.size) × (b.size < 2 ^ 63)

-- Two messages share no byte.
abbrev pub Apart : Region → Region → Type 0
Apart r s = (r.buff ≢ s.buff) ⊎ (r.start + r.len ≤ s.start) ⊎ (s.start + s.len ≤ r.start)

abbrev pub ApartFrom : Region → List (Option Region) → Type 0
ApartFrom r [] = Unit
ApartFrom r (none ∷ rs) = ApartFrom r rs
ApartFrom r (some s ∷ rs) = Apart r s × ApartFrom r rs

abbrev pub AllApart : List (Option Region) → Type 0
AllApart [] = Unit
AllApart (none ∷ rs) = AllApart rs
AllApart (some r ∷ rs) = ApartFrom r rs × AllApart rs

abbrev pub AllSmall : List ℕ → Type 0
AllSmall [] = Unit
AllSmall (n ∷ ns) = (n < 2 ^ 63) × AllSmall ns

-- Messages of a batch lie behind what it has given away.
Behind : Region → MemoryBatch → Type 0
Behind r b = (r.buff < b.buff) ⊎ ((r.buff ≡ b.buff) × (r.start + r.len ≤ b.curr))

-- What one allocation does: nothing, or a message behind the earlier ones.
unfoldable pub Placed : ℕ → MemoryBatch → Option Region × MemoryBatch → Type 0
Placed n b (none, b') = (b.buff ≤ b'.buff) × ((b'.buff ≡ b.buff) → b.curr ≤ b'.curr) × Fits b'
Placed n b (some r, b') =
    (r.len ≡ n)
    × (r.start + r.len ≤ b'.curr)
    × (r.buff ≡ b'.buff)
    × (b.buff ≤ b'.buff)
    × ((b'.buff ≡ b.buff) → b.curr ≤ r.start)
    × Fits b'

reserve-Placed : (n : ℕ) (b : MemoryBatch) → n < 2 ^ 63 → Fits b → Placed n b (reserve n b)
unfolding reserve Placed
reserve-Placed n b small fits = elim (Bool-cases (ltb b.size ((b.curr + n) % 2 ^ 64))) [
  | inl full ↦ rw full (omega arith, λ e. omega arith, fits)
  | inr room ↦
      let sum : (b.curr + n) % 2 ^ 64 ≡ b.curr + n = omega (arith, small, fits.0, fits.1) in
      let within : b.curr + n ≤ b.size = ground (arith, room, sum) in
      rw room (
        refl,
        omega (arith, sum),
        refl,
        omega arith,
        λ e. omega arith,
        (omega (arith, sum, within), fits.1),
      )
]

-- A reservation in a new buffer is behind everything in the old one.
Placed-create :
    (n : ℕ) (b : MemoryBatch) (r : Option Region × MemoryBatch)
    → Placed n (create (suc b.buff) batch_size) r
    → Placed n b r
unfolding Placed
Placed-create n b (none, b') placed =
    (omega (arith, placed.0), λ e. absurd (omega (arith, e, placed.0)), placed.2)
Placed-create n b (some r, b') placed = (
  placed.0,
  placed.1,
  placed.2,
  omega (arith, placed.3),
  λ e. absurd (omega (arith, e, placed.3)),
  placed.5,
)

pair_eq :
    (n : ℕ) (b : MemoryBatch) (o : Option Region)
    → (reserve n b).0 ≡ o
    → reserve n b ≡ (o, (reserve n b).1)
pair_eq n b o e = ap (λ p. (p, (reserve n b).1)) e

pub Placed-alloc_msg_from_buffer :
    (n : ℕ) (b : MemoryBatch) → n < 2 ^ 63 → Fits b → Placed n b (alloc_msg_from_buffer n b)
unfolding alloc_msg_from_buffer
Placed-alloc_msg_from_buffer n b small fits = elim (Option-cases ((reserve n b).0)) [
  | inl full ↦
      rw (full, alloc_msg_from_buffer)
        (Placed-create n b (reserve n (create (suc b.buff) batch_size))
          (reserve-Placed n (create (suc b.buff) batch_size) small (omega arith, omega arith)))
  | inr (r, there) ↦
      rw (there, alloc_msg_from_buffer)
        (subst (Placed n b) (pair_eq n b (some r) there) (reserve-Placed n b small fits))
]

pub Placed-Fits :
    (n : ℕ) (b : MemoryBatch) (r : Option Region × MemoryBatch) → Placed n b r → Fits r.1
unfolding Placed
Placed-Fits n b (none, b') placed = placed.2
Placed-Fits n b (some r, b') placed = placed.5

Behind-Placed :
    (s : Region) (n : ℕ) (b : MemoryBatch) (r : Option Region × MemoryBatch)
    → Behind s b
    → Placed n b r
    → Behind s r.1
unfolding Behind Placed
Behind-Placed s n b (none, b') behind placed = elim (Bool-cases (b'.buff == b.buff)) [
  | inl same ↦ let e = (==_iff b'.buff b.buff).0 same in ground (arith, behind, placed.1 e, e)
  | inr other ↦ ground (arith, behind, placed.0, other)
]
Behind-Placed s n b (some r, b') behind placed = elim (Bool-cases (b'.buff == b.buff)) [
  | inl same ↦
      let e = (==_iff b'.buff b.buff).0 same in ground (arith, behind, placed.4 e, placed.1, e)
  | inr other ↦ ground (arith, behind, placed.3, other)
]

Apart-Placed :
    (s : Region) (n : ℕ) (b : MemoryBatch) (r : Region) (b' : MemoryBatch)
    → Behind s b
    → Placed n b (some r, b')
    → Apart s r
unfolding Behind Placed
Apart-Placed s n b r b' behind placed = elim (Bool-cases (b'.buff == b.buff)) [
  | inl same ↦
      let e = (==_iff b'.buff b.buff).0 same in
      elim behind [
        | inl older ↦ inl (λ e'. omega (arith, older, e', e, placed.2))
        | inr (_, before) ↦ inr (inl (omega (arith, before, placed.4 e)))
      ]
  | inr other ↦ inl (λ e'. elim behind [
    | inl older ↦ omega (arith, older, e', placed.2, placed.3)
    | inr (same, _) ↦ ground (arith, other, same, e', placed.2)
  ])
]

own_batch :
    (n : ℕ) (b : MemoryBatch) (r : Region) (b' : MemoryBatch)
    → Placed n b (some r, b')
    → Behind r b'
unfolding Behind Placed
own_batch n b r b' placed = inr (placed.2, placed.1)

ApartFrom-alloc_each :
    (s : Region) (ns : List ℕ) (b : MemoryBatch)
    → AllSmall ns
    → Fits b
    → Behind s b
    → ApartFrom s (alloc_each ns b)
unfolding alloc_each
ApartFrom-alloc_each s [] b small fits behind = tt
ApartFrom-alloc_each s (n ∷ ns) b small fits behind =
    let placed = Placed-alloc_msg_from_buffer n b small.0 fits in
    let r = alloc_msg_from_buffer n b in
    let rest =
      ApartFrom-alloc_each s ns r.1 small.1 (Placed-Fits n b r placed)
        (Behind-Placed s n b r behind placed) in
    from_first s n b r (alloc_each ns r.1) behind placed rest
  where
    from_first :
        (s : Region) (n : ℕ) (b : MemoryBatch) (r : Option Region × MemoryBatch)
        (rs : List (Option Region))
        → Behind s b
        → Placed n b r
        → ApartFrom s rs
        → ApartFrom s (r.0 ∷ rs)
    from_first s n b (none, b') rs behind placed rest = rest
    from_first s n b (some r, b') rs behind placed rest =
        (Apart-Placed s n b r b' behind placed, rest)

pub AllApart-alloc_each :
    (ns : List ℕ) (b : MemoryBatch) → AllSmall ns → Fits b → AllApart (alloc_each ns b)
unfolding alloc_each
AllApart-alloc_each [] b small fits = tt
AllApart-alloc_each (n ∷ ns) b small fits =
    let placed = Placed-alloc_msg_from_buffer n b small.0 fits in
    let r = alloc_msg_from_buffer n b in
    let fits' = Placed-Fits n b r placed in
    from_first n b r ns small.1 fits' placed (AllApart-alloc_each ns r.1 small.1 fits')
  where
    from_first :
        (n : ℕ) (b : MemoryBatch) (r : Option Region × MemoryBatch) (ns : List ℕ)
        → AllSmall ns
        → Fits r.1
        → Placed n b r
        → AllApart (alloc_each ns r.1)
        → AllApart (r.0 ∷ alloc_each ns r.1)
    from_first n b (none, b') ns small fits placed rest = rest
    from_first n b (some r, b') ns small fits placed rest =
        (ApartFrom-alloc_each r ns b' small fits (own_batch n b r b' placed), rest)
