-- ===== src/MultiHash.antt =====
-- lib/bloom/khash.cpp: the hash values of a key, cut out of digests of six words. What the hash
-- function makes of a key and the words before is a parameter.
pub mod Fields
pub mod Distinct
pub mod Runs
pub mod Stream
pub mod Tests
use dstreamon.Base.{
  ℕ, zero, suc, ◌+◌, ◌-◌, ◌*◌, ◌/◌, ◌%◌, ◌^◌, Bool, true, false, not, ◌&&◌, ◌||◌, List, [], ◌∷◌,
  Option, none, some, Result, ok, err, ltb, leb, ◌==◌, if◌then◌else◌, get_elem?, get_or, set,
}

-- `read_outside`: the words end before the bits that are read.
pub data Fault : Type 0 where
  assertion_failed read_outside no_fuel : Fault

pub record Hasher : Type 0 where
  pub nhash : ℕ
  pub shash : ℕ
  pub norep : Bool

-- The constructor, with its assertions.
unfoldable pub create : ℕ → ℕ → Bool → Result Fault Hasher
create nhash shash norep =
    if leb 1 nhash && (leb 1 shash && (ltb shash 32 && (not norep || leb nhash (2 ^ shash))))
    then ok (record { nhash = nhash; shash = shash; norep = norep })
    else err assertion_failed

abbrev pub hash_bits : ℕ
hash_bits = 192

-- The low part of a value, in the word where it starts, and the part that lies in the next word.
-- They share no bit, so that `|` is a sum.
abbrev pub low_part : ℕ → ℕ → ℕ → ℕ
low_part shash ptr w = w / 2 ^ (ptr % 32) % 2 ^ shash

abbrev pub high_part : ℕ → ℕ → ℕ → ℕ
high_part shash ptr w = w % 2 ^ (ptr % 32 + shash - 32) * 2 ^ (shash - (ptr % 32 + shash - 32))

-- The value at the bit `ptr`.
unfoldable pub cut : ℕ → List ℕ → ℕ → Option ℕ
cut shash msgdig ptr = elim (get_elem? msgdig (ptr / 32)) [
  | none ↦ none
  | some low ↦
      if ltb 32 (ptr % 32 + shash)
      then elim (get_elem? msgdig (ptr / 32 + 1)) [
        | none ↦ none
        | some high ↦ some (low_part shash ptr low + high_part shash ptr high)
      ]
      else some (low_part shash ptr low)
]

-- `for (int i=1; i<k; i++) if (res[i]==res[k]) k--;`
unfoldable pub retract : ℕ → ℕ → ℕ → List ℕ → ℕ
retract zero i k res = k
retract (suc n) i k res =
    let rest = retract n (suc i) (if get_or res i 0 == get_or res k 0 then k - 1 else k) res in
    if ltb i k then rest else k

-- The index that the next round fills.
abbrev pub next_index : Hasher → ℕ → List ℕ → ℕ
next_index h k res = suc (if h.norep then retract k 1 k res else k)

-- The loop of `split`, from the bit `ptr` and the index `k` on.
unfoldable pub split_from : ℕ → Hasher → List ℕ → ℕ → ℕ → List ℕ → Result Fault (List ℕ)
unfolding cut retract
split_from zero h msgdig ptr k res = err no_fuel
split_from (suc fuel) h msgdig ptr k res = elim (leb k h.nhash) [
  | false ↦ ok res
  | true ↦ elim (cut h.shash msgdig ptr) [
    | none ↦ err read_outside
    | some v ↦ elim (leb (ptr + h.shash) hash_bits) [
      | false ↦ err assertion_failed
      | true ↦ split_from fuel h msgdig (ptr + h.shash) (next_index h k (set res k v)) (set res k v)
    ]
  ]
]

-- Each round moves on by a bit at least, and the assertion ends the loop behind the last bit.
unfoldable pub split : Hasher → List ℕ → List ℕ → Result Fault (List ℕ)
unfolding split_from
split h msgdig res = split_from 193 h msgdig 0 1 res

-- `H`, with its assertion.
unfoldable pub hash_value : Hasher → List ℕ → ℕ → Result Fault ℕ
hash_value h res k = if leb 1 k && leb k h.nhash then ok (get_or res k 0) else err assertion_failed

-- What one round of `compute` does: the value, the words after it, and the bit where the next starts.
-- At the end of the last word the words are hashed anew, before the part that is left is read.
module _ {Key : Type 0} (rehash : Key → List ℕ → List ℕ) where
  unfoldable pub draw : ℕ → Key → List ℕ → ℕ → Option (ℕ × List ℕ × ℕ)
  draw shash key msgdig ptr = elim (get_elem? msgdig (ptr / 32)) [
    | none ↦ none
    | some low ↦
        if leb 32 (ptr % 32 + shash) && (ptr / 32 == 5)
        then (let fresh = rehash key msgdig in
            if ltb 32 (ptr % 32 + shash)
            then elim (get_elem? fresh 0) [
              | none ↦ none
              | some high ↦ some (
                low_part shash ptr low + high_part shash ptr high,
                fresh,
                ptr + shash - hash_bits,
              )
            ]
            else some (low_part shash ptr low, fresh, ptr + shash - hash_bits))
        else elim (cut shash msgdig ptr) [ none ↦ none | some v ↦ some (v, msgdig, ptr + shash) ]
  ]

  unfoldable pub compute_from : ℕ → Hasher → Key → List ℕ → ℕ → ℕ → List ℕ → Result Fault (List ℕ)
  unfolding draw
  compute_from zero h key msgdig ptr k res = err no_fuel
  compute_from (suc fuel) h key msgdig ptr k res = elim (leb k h.nhash) [
    | false ↦ ok res
    | true ↦ elim (draw h.shash key msgdig ptr) [
      | none ↦ err read_outside
      | some (v, msgdig', ptr') ↦ elim (leb ptr' hash_bits) [
        | false ↦ err assertion_failed
        | true ↦ compute_from fuel h key msgdig' ptr' (next_index h k (set res k v)) (set res k v)
      ]
    ]
  ]

  -- `compute(in, len)`, with its assertion on the length of the key. The fuel bounds the rounds of a
  -- hasher that draws repeated values again.
  unfoldable pub compute : ℕ → Hasher → Key → ℕ → List ℕ → Result Fault (List ℕ)
  unfolding compute_from
  compute fuel h key len res =
      if ltb 0 len
      then compute_from fuel h key (rehash key (1 ∷ (2 ∷ (3 ∷ (4 ∷ (5 ∷ (6 ∷ []))))))) 0 1 res
      else err assertion_failed
