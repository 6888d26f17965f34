-- ===== src/BloomFilter/Order.antt =====
-- lib/lib_botstream/swapbf.cpp, bloomfilter.cpp: a filter with its hash object, call after call.
use dstreamon.Base.{
  ℕ, zero, suc, ◌*◌, ◌^◌, ◌<◌, ◌≡◌, refl, sym, ap, ◌∙◌, Bool, true, false, List, [], ◌∷◌, ok, arith,
  length, subst,
}
use native.Mathlib.Nat.{mul-pos, one-le-pow}
use dstreamon.Khash.{compute}
use dstreamon.Khash.Values.{cut_each_bound}
use dstreamon.Khash.Digests.{digest, value, HasOneDigest, HasOneDigest-digest, value-digest}
use dstreamon.BloomFilter.{
  Bloom, reset, stats_sbf, is_present, clear_all, zeros, positions, positions_from,
}
use dstreamon.BloomFilter.Membership.{AllWithin, InPlace, insert_bits, all_set_total}
use dstreamon.BloomFilter.Swap.{
  Filter, hash_of, computed, filter_present, filter_insert, filter_reset,
}

length-clear_all : (bits : List Bool) → length (clear_all bits) ≡ length bits
unfolding clear_all
length-clear_all [] = refl
length-clear_all (b ∷ bits) = ap suc (length-clear_all bits)

zeros-clear_all : (bits : List Bool) → zeros (clear_all bits) ≡ length bits
unfolding clear_all zeros
zeros-clear_all [] = refl
zeros-clear_all (b ∷ bits) = omega (arith, zeros-clear_all bits)

-- A filter that was reset is not full.
pub stats_sbf-reset : (s : Bloom) → 0 < length s.bitset → stats_sbf (reset s) ≡ false
unfolding stats_sbf reset
stats_sbf-reset s some_bit =
    let n = length s.bitset in
    let square : 0 < n * n = mul-pos some_bit some_bit in
    rw (zeros-clear_all s.bitset, length-clear_all s.bitset) (ground (arith, square))

module _ (sha : List ℕ → List ℕ) where
  -- One digest has all the bits that the hash values need, the hash object has what the constructor of
  -- the filter gives it, and the filter does not divide its bits and has one for each hash value.
  pub record IsInOrder (f : Filter) : Type 0 where
    pub one : HasOneDigest sha f.khash f.msgdig
    pub hashes : f.khash.nhash ≡ f.bloom.nhash
    pub size : f.khash.shash ≡ f.bloom.hashsize
    pub whole : f.bloom.div ≡ false
    pub bits : length f.bloom.bitset ≡ 2 ^ f.bloom.hashsize

  AllWithin-positions_from :
      (hash : List ℕ → ℕ → ℕ) (size n i hashsize : ℕ) (key : List ℕ)
      → ((j : ℕ) → hash key j < size)
      → AllWithin size (positions_from hash n i false hashsize key)
  AllWithin-positions_from hash size zero i hashsize key lt = tt
  AllWithin-positions_from hash size (suc n) i hashsize key lt =
      (lt i, AllWithin-positions_from hash size n (suc i) hashsize key lt)

  InPlace-hash_of : (f : Filter) → IsInOrder f → InPlace (hash_of sha f) f.bloom
  unfolding value compute
  InPlace-hash_of f good key =
      let size : 2 ^ f.khash.shash ≡ length f.bloom.bitset =
        ap (λ w. 2 ^ w) good.size ∙ sym good.bits in
      rw good.whole (
        AllWithin-positions_from (hash_of sha f) (length f.bloom.bitset) f.bloom.nhash 0
          f.bloom.hashsize key
          (λ j.
            subst (λ n. hash_of sha f key j < n) size
              (cut_each_bound f.khash.nhash f.khash.shash (digest sha f.khash key f.msgdig) 0 j)))

  pub some_bit : (f : Filter) → IsInOrder f → 0 < length f.bloom.bitset
  some_bit f good = rw good.bits (one-le-pow f.bloom.hashsize 2 (omega arith))

  pub IsInOrder-computed :
      (key : List ℕ) (f : Filter) → IsInOrder f → IsInOrder (computed sha key f)
  IsInOrder-computed key f good = record {
    one = HasOneDigest-digest sha f.khash key f.msgdig good.one;
    hashes = good.hashes;
    size = good.size;
    whole = good.whole;
    bits = good.bits;
  }

  pub IsInOrder-filter_reset : (f : Filter) → IsInOrder f → IsInOrder (filter_reset f)
  unfolding reset
  IsInOrder-filter_reset f good = record {
    one = good.one;
    hashes = good.hashes;
    size = good.size;
    whole = good.whole;
    bits = length-clear_all f.bloom.bitset ∙ good.bits;
  }

  -- A filter in order answers, and is in order afterwards.
  pub filter_present_total :
      (key : List ℕ) (f : Filter)
      → IsInOrder f
      → (b : Bool) × (is_present (hash_of sha f) key f.bloom ≡ ok b)
        × (filter_present sha key f ≡ ok (b, computed sha key f))
  unfolding is_present filter_present
  filter_present_total key f good =
      let (b, e) =
        all_set_total (positions (hash_of sha f) f.bloom key) f.bloom.bitset
          (InPlace-hash_of f good key) in
      (b, e, rw (e, filter_present))

  -- The key is present in a filter, whichever call asks next.
  abbrev pub Has : List ℕ → Filter → Type 0
  Has key f = is_present (hash_of sha f) key f.bloom ≡ ok true

  pub Has-computed :
      (key k : List ℕ) (f : Filter) → IsInOrder f → Has key f → Has key (computed sha k f)
  Has-computed key k f good there =
      ap (λ h. is_present h key f.bloom) (value-digest sha f.khash k f.msgdig good.one) ∙ there

  pub filter_insert_lem :
      (key : List ℕ) (f : Filter)
      → IsInOrder f
      → (f' : Filter) × (filter_insert sha key f ≡ ok f') × Has key f' × IsInOrder f'
  unfolding filter_insert
  filter_insert_lem key f good =
      let hash = hash_of sha f in
      let (bits, run, len, there) = insert_bits hash key f.bloom (InPlace-hash_of f good) in
      let f' : Filter = record (computed sha key f) { bloom = record f.bloom { bitset = bits } } in
      (
        f',
        rw (run, filter_insert),
        ap (λ h. is_present h key f'.bloom) (value-digest sha f.khash key f.msgdig good.one)
            ∙ there,
        record {
          one = HasOneDigest-digest sha f.khash key f.msgdig good.one;
          hashes = good.hashes;
          size = good.size;
          whole = good.whole;
          bits = len ∙ good.bits;
        },
      )
