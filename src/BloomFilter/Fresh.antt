-- ===== src/BloomFilter/Fresh.antt =====
-- lib/lib_botstream/swapbf.cpp: a new pair of filters.
use dstreamon.Base.{
  ℕ, zero, suc, ◌<◌, ◌+◌, ◌*◌, ◌/◌, ◌%◌, ◌^◌, ◌≤◌, ◌≡◌, refl, sym, ap, ◌∙◌, false, List, ok, arith,
  length, ◌==◌, ==_iff, inl, inr, Bool-cases, Result-cases, replicate, length-replicate,
}
use native.Mathlib.Nat.{mul-pos}
use dstreamon.Log2.{log2, fits, fits_exact}
use dstreamon.Khash
use dstreamon.Khash.{Khash}
use dstreamon.BloomFilter.{Bloom, create, stats_sbf, zeros}
use dstreamon.BloomFilter.Swap.{Filter, SwapBf, create_filter, create_swap}
use dstreamon.BloomFilter.Order.{IsInOrder}
use dstreamon.BloomFilter.Turns.{IsReady}

-- A hash object whose values need no more bits than a digest has is made for one digest.
create_one :
    (nhash shash : ℕ) (h : Khash)
    → nhash * shash ≤ 160
    → Khash.create 20 nhash shash false ≡ ok h
    → (h.hashtodo ≡ 1) × (h.hashdiglen ≡ 20) × (h.nhash ≡ nhash) × (h.shash ≡ shash)
unfolding Khash.create
create_one nhash shash h le e =
    let small : nhash * shash % 2 ^ 32 ≡ nhash * shash = omega (arith, le) in
    elim (Bool-cases (nhash * shash == 160)) [
      | inl full ↦
          let n : nhash * shash ≡ 160 = (==_iff (nhash * shash) 160).0 full in
          let e' = rw n at e in
          (ground (arith, e'), ground (arith, e'), ground (arith, e'), ground (arith, e'))
      | inr room ↦
          let todo : nhash * shash % 2 ^ 32 / 160 ≡ 0 = ground (arith, small, room, le) in
          let e' = rw todo at e in
          (ground (arith, e'), ground (arith, e'), ground (arith, e'), ground (arith, e'))
    ]

create_lem :
    (size nhash : ℕ) (s : Bloom)
    → create size nhash false ≡ ok s
    → (s.nhash ≡ nhash)
      × (s.hashsize ≡ log2 size)
      × (s.div ≡ false)
      × (s.bitset ≡ replicate size false)
      × (size ≡ 2 ^ log2 size)
      × (0 < size)
unfolding create
create_lem size nhash s e = elim (Bool-cases (fits size)) [
  | inr bad ↦ absurd (ground (arith, bad))
  | inl good ↦ (
    ground arith,
    ground arith,
    ground arith,
    ground arith,
    fits_exact size (ground arith) good,
    ground arith,
  )
]

zeros-replicate : (n : ℕ) → zeros (replicate n false) ≡ n
unfolding zeros
zeros-replicate zero = refl
zeros-replicate (suc n) = omega (arith, zeros-replicate n)

stats_sbf-replicate :
    (n : ℕ) (s : Bloom) → s.bitset ≡ replicate n false → 0 < n → stats_sbf s ≡ false
unfolding stats_sbf
stats_sbf-replicate n s e some_bit =
    let square : 0 < n * n = mul-pos some_bit some_bit in
    rw (e, stats_sbf) (rw (zeros-replicate n, length-replicate n false) (ground (arith, square)))

module _ (sha : List ℕ → List ℕ) (sized : (key : List ℕ) → length (sha key) ≡ 20) where
  create_filter-IsInOrder :
      (size nhash : ℕ) (f : Filter)
      → nhash * log2 size ≤ 160
      → create_filter size nhash ≡ ok f
      → IsInOrder sha f × (stats_sbf f.bloom ≡ false)
  unfolding create_filter
  create_filter-IsInOrder size nhash f le e = elim (Result-cases (create size nhash false)) [
    | inl (x, bad) ↦ absurd (ground (arith, bad))
    | inr (s, made) ↦ elim (Result-cases (Khash.create 20 nhash s.hashsize false)) [
      | inl (x, bad) ↦ absurd (ground (arith, made, bad))
      | inr (h, hashed) ↦
          let (hashes, bits, whole, clear, exact, some_bit) = create_lem size nhash s made in
          let (one, diglen, n, w) = create_one nhash s.hashsize h (rw bits le) hashed in
          let f' : Filter = record {
            bloom = s;
            khash = h;
            msgdig = replicate (h.hashtodo * h.hashdiglen + 4) 0;
          } in
          let same : f ≡ f' = ground (arith, e, made, hashed) in
          rw same (
            record {
              one = record {
                one = one;
                sized = λ k. sized k ∙ sym diglen;
                room =
                    rw (length-replicate {A = ℕ} (h.hashtodo * h.hashdiglen + 4) 0, one, diglen)
                      (omega arith);
              };
              hashes = n ∙ sym hashes;
              size = w;
              whole = whole;
              bits =
                  ap length clear
                  ∙ (length-replicate size false ∙ (exact ∙ ap (λ k. 2 ^ k) (sym bits)));
            },
            stats_sbf-replicate size s clear some_bit,
          )
    ]
  ]

  -- A new pair of filters is ready, where the digests have 20 bytes and as many hash values as the
  -- pair asks for need no more bits than one digest has: both filters are in order, the first is
  -- active and the second is not full.
  pub IsReady-create_swap :
      (size nhash : ℕ) (s : SwapBf)
      → nhash * log2 size ≤ 160
      → create_swap size nhash ≡ ok s
      → IsReady sha s × (s.active_bf ≡ 1)
  unfolding create_swap
  IsReady-create_swap size nhash s le e = elim (Result-cases (create_filter size nhash)) [
    | inl (x, bad) ↦ absurd (ground (arith, bad))
    | inr (f, made) ↦
        let (order, room) = create_filter-IsInOrder size nhash f le made in
        let same : s ≡ record { sbf1 = f; sbf2 = f; active_bf = 1 } = ground (arith, e, made) in
        rw same (record { order1 = order; order2 = order; side = inl (refl, room) }, refl)
  ]
