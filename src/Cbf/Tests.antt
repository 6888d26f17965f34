-- ===== src/Cbf/Tests.antt =====
-- lib/lib_botstream/cbf.cpp: a filter of four counters with two hash functions.
use dstreamon.Base.{
  ℕ, ◌+◌, ◌%◌, ◌≤◌, ◌≡◌, refl, ap, Bool, true, false, List, [], ◌∷◌, ok, get_or, arith, min,
  if◌then◌else◌, ltb, ==_iff, ◌==◌, replicate,
}
use dstreamon.Cbf.{
  Cbf, uint_max, get_count, decrement, decrement_by_one, decrement_each, add_normal, add_amount,
  bump_each, add_each, reset,
}
use dstreamon.Cbf.History.{add_all, occurrences, get_count-add_all}
use dstreamon.Khash.{Khash, compute, cut_each}
use dstreamon.Khash.Digests.{value, digest, rehash_each, put_at, overwrite}

abbrev hash : ℕ → ℕ → ℕ
hash key i = if ltb (key + i) 4 then key + i else 0

abbrev four : Cbf
four = record { countset = 0 ∷ (3 ∷ (1 ∷ (0 ∷ []))); nhash = 2; hashsize = 2; counters = 4 }

-- A toy hash function with digests of one byte, from which two values of two bits are cut.
abbrev toy_sha : List ℕ → List ℕ
toy_sha key = (9 + get_or key 0 0) % 256 ∷ []

abbrev toy_hash : Khash
toy_hash = record { hashdiglen = 1; nhash = 2; shash = 2; norep = false; hashtodo = 1 }

abbrev same_byte : List ℕ → List ℕ → Bool
same_byte (a ∷ []) (b ∷ []) = a == b
same_byte k key = false

same_byte_iff : (k : List ℕ) → same_byte k (1 ∷ []) ≡ true → k ≡ 1 ∷ []
same_byte_iff [] e = absurd (ground (arith, e))
same_byte_iff (a ∷ []) e = ap (λ n. n ∷ []) ((==_iff a 1).0 e)
same_byte_iff (a ∷ (b ∷ k)) e = absurd (ground (arith, e))

abbrev toy_keys : List (List ℕ)
toy_keys = (1 ∷ []) ∷ ((2 ∷ []) ∷ ((1 ∷ []) ∷ []))

abbrev memory : List ℕ
memory = 0 ∷ (0 ∷ (0 ∷ (0 ∷ (0 ∷ []))))

get_count-add_all_example :
    let (m', s') = add_all toy_sha toy_hash toy_keys memory four in
    min uint_max (
      get_count (value toy_sha toy_hash memory) (1 ∷ []) four
      + occurrences toy_sha toy_hash same_byte (1 ∷ []) toy_keys)
    ≤ get_count (value toy_sha toy_hash m') (1 ∷ []) s'
get_count-add_all_example =
    get_count-add_all toy_sha toy_hash same_byte (1 ∷ []) toy_keys memory four same_byte_iff
      (record { one = refl; sized = λ k. refl; room = omega arith })
      (record { hashes = refl; size = refl; counters = refl })

-- Where the hash values need two digests, the second is made of as many bytes as the key has: a key that
-- is longer than a digest gets other values, by what a call for another key left behind.
abbrev two_digests : Khash
two_digests = record { hashdiglen = 1; nhash = 2; shash = 8; norep = false; hashtodo = 2 }

abbrev sums : List ℕ → List ℕ
sums [] = 0 ∷ []
sums (b ∷ []) = b ∷ []
sums (b ∷ (c ∷ bs)) = (b + c) % 256 ∷ []

value_changes :
    (value sums two_digests (0 ∷ memory) (1 ∷ (2 ∷ [])) 1 ≡ 3)
    × (digest sums two_digests (7 ∷ []) (0 ∷ memory) ≡ 7 ∷ (7 ∷ (0 ∷ (0 ∷ (0 ∷ (0 ∷ []))))))
    × (value sums two_digests (7 ∷ (7 ∷ (0 ∷ (0 ∷ (0 ∷ (0 ∷ [])))))) (1 ∷ (2 ∷ [])) 1 ≡ 10)
unfolding value digest rehash_each put_at overwrite compute cut_each
value_changes = (refl, refl, refl)

-- The other updates, on the counters.
updates :
    ((add_normal hash 1 four).0 ≡ ok 2)
    × ((add_normal hash 1 four).1.countset ≡ 0 ∷ (4 ∷ (2 ∷ (0 ∷ []))))
    × ((add_amount hash 1 7 four).0 ≡ ok 8)
    × (decrement 1 four ≡ ok (record four { countset = 0 ∷ (2 ∷ (0 ∷ (0 ∷ []))) }))
    × (decrement 2 four ≡ ok (record four { countset = 0 ∷ (1 ∷ (0 ∷ (0 ∷ []))) }))
    × (reset four ≡ record four { countset = replicate 4 0 })
unfolding add_normal add_amount bump_each add_each decrement decrement_by_one decrement_each reset
updates = (refl, refl, refl, refl, refl, refl)
