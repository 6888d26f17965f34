-- ===== src/Khash/Values.antt =====
-- lib/hash/khash.cpp: the range of the hash values.
use native.Mathlib.Nat.{mod-lt, one-le-pow}
use dstreamon.Base.{ℕ, zero, suc, ◌+◌, ◌^◌, ◌<◌, ◌≡◌, refl, List, ok, arith, length, get_or}
use dstreamon.Khash.{Khash, cut_each, compute, hash_value}

length-cut_each :
    (n shash : ℕ) (digest : List ℕ) (start : ℕ) → length (cut_each n shash digest start) ≡ n
unfolding cut_each
length-cut_each zero shash digest start = refl
length-cut_each (suc n) shash digest start =
    omega (arith, length-cut_each n shash digest (start + shash))

pub cut_each_bound :
    (n shash : ℕ) (digest : List ℕ) (start k : ℕ)
    → get_or (cut_each n shash digest start) k 0 < 2 ^ shash
unfolding cut_each
cut_each_bound zero shash digest start k = one-le-pow shash 2 (omega arith)
cut_each_bound (suc n) shash digest start zero = mod-lt _ (one-le-pow shash 2 (omega arith))
cut_each_bound (suc n) shash digest start (suc k) = cut_each_bound n shash digest (start + shash) k

-- Every hash value that `H` returns is below two to the size of a hash: a place of a filter of that
-- many counters or bits.
pub hash_value_bound :
    (h : Khash) (digest : List ℕ) (k : ℕ) (v : ℕ)
    → hash_value h (compute h digest) k ≡ ok v
    → v < 2 ^ h.shash
unfolding hash_value compute
hash_value_bound h digest k v e = ground (arith, cut_each_bound h.nhash h.shash digest 0 k)
