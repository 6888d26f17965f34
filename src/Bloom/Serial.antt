-- ===== src/Bloom/Serial.antt =====
-- lib/bloom/bloom.cpp: `deserialize` after `serialize`.
use dstreamon.Base.{
  ℕ, ◌+◌, ◌-◌, ◌^◌, ◌≤◌, ◌<◌, ◌≡◌, refl, sym, ap, ap₂, ◌∙◌, true, false, not, ◌&&◌, ◌||◌, List, [],
  ◌∷◌, ◌++◌, some, ok, arith, ltb, leb, length, take, drop, replicate, length-replicate,
}
use dstreamon.MultiHash
use dstreamon.MultiHash.{Hasher}
use dstreamon.Bloom.{
  Bloom, clean, create, int_bytes, int_at, mmax, mmax_arr, memory_size, copy_to, serialize,
  deserialize, read_filter,
}
use dstreamon.Bloom.Insertion.{InOrder, mmax-mmax_arr}

take_all : (m : List ℕ) → take (length m) m ≡ m
take_all [] = refl
take_all (b ∷ m) = ap (λ t. b ∷ t) (take_all m)

drop_all : (m : List ℕ) → drop (length m) m ≡ []
drop_all [] = refl
drop_all (b ∷ m) = drop_all m

append_nil : (m : List ℕ) → m ++ [] ≡ m
append_nil [] = refl
append_nil (b ∷ m) = ap (λ t. b ∷ t) (append_nil m)

copy_whole : (k : ℕ) (m : List ℕ) → length m ≡ k → copy_to m (replicate k 0) ≡ m
copy_whole k m len =
    ap (λ j. m ++ drop j (replicate k 0)) (len ∙ sym (length-replicate k (the_zero)))
    ∙ (ap (λ t. m ++ t) (drop_all (replicate k 0)) ∙ append_nil m)
  where
    the_zero : ℕ
    the_zero = 0

abbrev buffer_of : ℕ → ℕ → List ℕ → List ℕ
buffer_of nhash shash m = int_bytes nhash ++ (int_bytes shash ++ m)

memory_size-mmax_arr : (shash : ℕ) → 3 ≤ shash → shash < 31 → memory_size shash ≡ mmax_arr shash
memory_size-mmax_arr shash large small = ground (arith, mmax-mmax_arr shash large)

read_filter-buffer_of :
    (nhash shash : ℕ) (m res : List ℕ)
    → 1 ≤ nhash
    → nhash ≤ 2 ^ shash
    → nhash < 2 ^ 31
    → 3 ≤ shash
    → shash < 31
    → length m ≡ mmax_arr shash
    → read_filter nhash shash (buffer_of nhash shash m) res
      ≡ ok (
          some
            (record (clean (record { nhash = nhash; shash = shash; norep = true }) res) { m = m }))
unfolding read_filter create MultiHash.create
read_filter-buffer_of nhash shash m res some_hash few word large small len =
    let size = memory_size-mmax_arr shash large small in
    let in_range : (leb (2 ^ 31) nhash || leb 32 shash) ≡ false = ground (arith, word, small) in
    let enough : ltb (length (buffer_of nhash shash m) - 8) (memory_size shash) ≡ false =
      ground (arith, len, size) in
    let made : (leb 1 nhash
          && (leb 1 shash && (ltb shash 32 && (not true || leb nhash (2 ^ shash)))))
        ≡ true =
      ground (arith, some_hash, large, small, few) in
    let bits : copy_to (take (memory_size shash) m) (replicate (mmax_arr shash) 0) ≡ m =
      ap (λ k. copy_to (take k m) (replicate (mmax_arr shash) 0)) (size ∙ sym len)
      ∙ (ap (λ b. copy_to b (replicate (mmax_arr shash) 0)) (take_all m)
          ∙ copy_whole (mmax_arr shash) m len) in
    rw (in_range, read_filter)
      (rw enough (
        rw made (
          ap
            (λ b. ok (
              some (record (clean (record { nhash = nhash; shash = shash; norep = true }) res) {
                m = b;
              })))
            bits)))

deserialize-buffer_of :
    (nhash shash : ℕ) (m res : List ℕ)
    → nhash < 2 ^ 31
    → shash < 31
    → deserialize (buffer_of nhash shash m) res
      ≡ read_filter nhash shash (buffer_of nhash shash m) res
unfolding deserialize
deserialize-buffer_of nhash shash m res word small =
    let first : int_at (buffer_of nhash shash m) 0 ≡ nhash = omega (arith, word) in
    let second : int_at (buffer_of nhash shash m) 4 ≡ shash = omega (arith, small) in
    let enough : ltb (length (buffer_of nhash shash m)) 8 ≡ false = ground arith in
    rw enough (ap₂ (λ n k. read_filter n k (buffer_of nhash shash m) res) first second)

-- What `serialize` writes of a filter in order, of eight bits to 2 ^ 30, into a buffer with room
-- for it, `deserialize` reads as a filter with the same sizes and bits, if there are hash
-- functions, fewer than 2 ^ 31 and not more than bits. But the new filter repeats no hash value,
-- whatever the first did, and its count of zeros is that of an empty filter.
pub deserialize-serialize :
    (s : Bloom) (max_len : ℕ) (res : List ℕ)
    → InOrder s
    → s.hasher.shash < 31
    → 1 ≤ s.hasher.nhash
    → s.hasher.nhash < 2 ^ 31
    → s.hasher.nhash ≤ 2 ^ s.hasher.shash
    → mmax_arr s.hasher.shash + 8 ≤ max_len
    → (buffer : List ℕ) × (serialize max_len s ≡ some buffer)
      × (deserialize buffer res
          ≡ ok (
              some (record {
                hasher = record s.hasher { norep = true };
                res = res;
                m = s.m;
                num_zeros = mmax s.hasher.shash;
              })))
unfolding serialize
deserialize-serialize s max_len res good small some_hash word few room =
    let h = s.hasher in
    let whole : take (mmax_arr h.shash) s.m ≡ s.m =
      ap (λ k. take k s.m) (sym good.sized) ∙ take_all s.m in
    let enough : ltb max_len (mmax_arr h.shash + 8) ≡ false = ground (arith, room) in
    (
      buffer_of h.nhash h.shash s.m,
      rw enough (ap (λ m. some (buffer_of h.nhash h.shash m)) whole),
      deserialize-buffer_of h.nhash h.shash s.m res word small
          ∙ read_filter-buffer_of h.nhash h.shash s.m res some_hash few word good.large small
              good.sized,
    )
