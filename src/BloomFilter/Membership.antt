-- ===== src/BloomFilter/Membership.antt =====
-- lib/lib_botstream/bloomfilter.cpp: what the filter answers after insertions.
use dstreamon.Base.{
  ℕ, zero, suc, ◌<◌, ◌≡◌, refl, ◌∙◌, Bool, true, false, ◌||◌, List, [], ◌∷◌, ok, arith, length, ltb,
  ◌==◌, get_or, set, length-set, inl, inr, Bool-cases,
}
use dstreamon.BloomFilter.{Bloom, set_each, all_set, positions, insert, is_present}

abbrev pub AllWithin : ℕ → List ℕ → Type 0
AllWithin n [] = Unit
AllWithin n (p ∷ ps) = (p < n) × AllWithin n ps

abbrev pub bit_at : List Bool → ℕ → Bool
bit_at bits p = get_or bits p false

abbrev pub AllSet : List ℕ → List Bool → Type 0
AllSet [] bits = Unit
AllSet (p ∷ ps) bits = (bit_at bits p ≡ true) × AllSet ps bits

bit_at-set :
    (bits : List Bool) (p j : ℕ)
    → p < length bits
    → bit_at (set bits p true) j ≡ (p == j || bit_at bits j)
bit_at-set [] p j lt = absurd (omega arith)
bit_at-set (b ∷ bits) zero zero lt = ground arith
bit_at-set (b ∷ bits) zero (suc j) lt = ground arith
bit_at-set (b ∷ bits) (suc p) zero lt = ground arith
bit_at-set (b ∷ bits) (suc p) (suc j) lt = bit_at-set bits p j (omega arith) ∙ ground arith

-- Setting positions within the bits works, clears no bit, and sets those positions.
pub set_each_lem :
    (ps : List ℕ) (bits : List Bool)
    → AllWithin (length bits) ps
    → (bits' : List Bool) × (set_each ps bits ≡ ok bits')
      × (length bits' ≡ length bits)
      × ((j : ℕ) → bit_at bits' j ≡ (bit_at bits j || bit_at bits' j))
      × AllSet ps bits'
unfolding set_each
set_each_lem [] bits h = (bits, refl, refl, λ j. ground arith, tt)
set_each_lem (p ∷ ps) bits h =
    let within : ltb p (length bits) ≡ true = ground (arith, h.0) in
    let (bits', run, len, keeps, sets) =
      set_each_lem ps (set bits p true) (rw (length-set bits p true) h.1) in
    (
      bits',
      rw (within, set_each) run,
      len ∙ length-set bits p true,
      λ j. ground (arith, keeps j, bit_at-set bits p j h.0),
      (ground (arith, keeps p, bit_at-set bits p p h.0), sets),
    )

-- All positions set is the answer true, and only that.
pub all_set_holds :
    (ps : List ℕ) (bits : List Bool)
    → AllWithin (length bits) ps
    → AllSet ps bits
    → all_set ps bits ≡ ok true
unfolding all_set
all_set_holds [] bits h sets = refl
all_set_holds (p ∷ ps) bits h sets =
    let within : ltb p (length bits) ≡ true = ground (arith, h.0) in
    rw (within, all_set) (rw sets.0 (all_set_holds ps bits h.1 sets.1))

pub all_set_total :
    (ps : List ℕ) (bits : List Bool)
    → AllWithin (length bits) ps
    → (b : Bool) × (all_set ps bits ≡ ok b)
unfolding all_set
all_set_total [] bits h = (true, refl)
all_set_total (p ∷ ps) bits h =
    let within : ltb p (length bits) ≡ true = ground (arith, h.0) in
    let (b, e) = all_set_total ps bits h.1 in
    elim (Bool-cases (bit_at bits p)) [
      | inl on ↦ (b, rw (within, all_set) (rw on e))
      | inr off ↦ (false, rw (within, all_set) (rw off))
    ]

pub all_set_needs : (ps : List ℕ) (bits : List Bool) → all_set ps bits ≡ ok true → AllSet ps bits
unfolding all_set
all_set_needs [] bits e = tt
all_set_needs (p ∷ ps) bits e = elim (Bool-cases (bit_at bits p)) [
  | inl on ↦ (on, all_set_needs ps bits (ground (arith, on)))
  | inr off ↦ absurd (ground (arith, off))
]

AllSet-mono :
    (ps : List ℕ) (bits bits' : List Bool)
    → ((j : ℕ) → bit_at bits' j ≡ (bit_at bits j || bit_at bits' j))
    → AllSet ps bits
    → AllSet ps bits'
AllSet-mono [] bits bits' keeps sets = tt
AllSet-mono (p ∷ ps) bits bits' keeps sets =
    (ground (arith, keeps p, sets.0), AllSet-mono ps bits bits' keeps sets.1)

module _ {Key : Type 0} (hash : Key → ℕ → ℕ) where
  -- Every position of every key is within the bits.
  abbrev pub InPlace : Bloom → Type 0
  InPlace s = (key : Key) → AllWithin (length s.bitset) (positions hash s key)

  -- What an insertion leaves.
  inserted :
      (key : Key) (s : Bloom)
      → InPlace s
      → (bits : List Bool) × (insert hash key s ≡ ok (record s { bitset = bits }))
        × (length bits ≡ length s.bitset)
        × ((j : ℕ) → bit_at bits j ≡ (bit_at s.bitset j || bit_at bits j))
        × AllSet (positions hash s key) bits
  unfolding insert
  inserted key s h =
      let (bits, run, len, keeps, sets) = set_each_lem (positions hash s key) s.bitset (h key) in
      (bits, rw (run, insert), len, keeps, sets)

  -- An insertion into a filter whose hash values are all in place passes its assertions. The key is
  -- then present, the filter has its size, and the hash values are still in place.
  pub insert_lem :
      (key : Key) (s : Bloom)
      → InPlace s
      → (s' : Bloom) × (insert hash key s ≡ ok s')
        × (is_present hash key s' ≡ ok true)
        × InPlace s'
        × (length s'.bitset ≡ length s.bitset)
  unfolding is_present
  insert_lem key s h =
      let (bits, run, len, keeps, sets) = inserted key s h in
      (
        record s { bitset = bits },
        run,
        all_set_holds (positions hash s key) bits (rw len (h key)) sets,
        λ k. rw len (h k),
        len,
      )

  pub insert_bits :
      (key : Key) (s : Bloom)
      → InPlace s
      → (bits : List Bool) × (insert hash key s ≡ ok (record s { bitset = bits }))
        × (length bits ≡ length s.bitset)
        × (is_present hash key (record s { bitset = bits }) ≡ ok true)
  unfolding is_present
  insert_bits key s h =
      let (bits, run, len, keeps, sets) = inserted key s h in
      (bits, run, len, all_set_holds (positions hash s key) bits (rw len (h key)) sets)

  -- A key that is present stays present when another is inserted.
  pub insert_keeps :
      (key other : Key) (s s' : Bloom)
      → InPlace s
      → insert hash key s ≡ ok s'
      → is_present hash other s ≡ ok true
      → is_present hash other s' ≡ ok true
  unfolding is_present
  insert_keeps key other s s' h e present =
      let (bits, run, len, keeps, sets) = inserted key s h in
      let same : s' ≡ record s { bitset = bits } = ground (arith, e, run) in
      rw same (
        all_set_holds (positions hash s other) bits (rw len (h other)) (
          AllSet-mono (positions hash s other) s.bitset bits keeps
            (all_set_needs (positions hash s other) s.bitset present)))
