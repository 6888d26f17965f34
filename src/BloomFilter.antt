-- ===== src/BloomFilter.antt =====
-- lib/lib_botstream/bloomfilter.cpp: a Bloom filter. Each operation hashes its key once, and takes the
-- hash values as a parameter: `hash key i` is `khash->H(i)` after `khash->compute` of the key, which
-- is `value` of Khash.Digests at what `msgdig` holds before the call. BloomFilter.Swap keeps what
-- each call leaves there for the next. A failed assertion is an error.
pub mod Membership
pub mod Swap
pub mod Order
pub mod Turns
pub mod Fresh
pub mod Tests
use dstreamon.Base.{
  ℕ, zero, suc, ◌+◌, ◌-◌, ◌*◌, ◌%◌, ◌^◌, Bool, true, false, not, ◌&&◌, List, [], ◌∷◌, Result, ok,
  err, ◌>>=◌, ◌>>◌, guard, length, ltb, leb, if◌then◌else◌, get_or, set, replicate,
}
use dstreamon.Log2.{log2, fits}

pub data Fault : Type 0 where
  assertion_failed : Fault

pub record Bloom : Type 0 where
  pub bitset : List Bool
  pub nhash : ℕ
  pub hashsize : ℕ
  pub div : Bool

-- The constructor with three parameters; the one with two has `divide` false. `hashsize -= j` wraps.
unfoldable pub create : ℕ → ℕ → Bool → Result Fault Bloom
create size nhash divide =
    let j = log2 nhash in
    let whole : Bloom = record {
      bitset = replicate size false;
      nhash = nhash;
      hashsize = log2 size;
      div = divide;
    } in
    if ltb 0 size && (ltb 0 nhash && fits size)
    then (if divide
        then (if fits nhash
            then ok (record whole { hashsize = (log2 size + 2 ^ 32 - j) % 2 ^ 32 })
            else err assertion_failed)
        else ok whole)
    else err assertion_failed

-- `set`, `clear` and `isSet`, with their assertions.
abbrev pub set_bit : ℕ → List Bool → Result Fault (List Bool)
set_bit pos bits = if ltb pos (length bits) then ok (set bits pos true) else err assertion_failed

abbrev pub is_set : ℕ → List Bool → Result Fault Bool
is_set pos bits = if ltb pos (length bits) then ok (get_or bits pos false) else err assertion_failed

-- `reset` clears each element.
unfoldable pub clear_all : List Bool → List Bool
clear_all [] = []
clear_all (b ∷ bits) = false ∷ clear_all bits

unfoldable pub reset : Bloom → Bloom
unfolding clear_all
reset s = record s { bitset = clear_all s.bitset }

-- The loops of `insert` and of `isPresent`, over the positions.
unfoldable pub set_each : List ℕ → List Bool → Result Fault (List Bool)
set_each [] bits = ok bits
set_each (p ∷ ps) bits = elim (set_bit p bits) [ err e ↦ err e | ok bits' ↦ set_each ps bits' ]

unfoldable pub all_set : List ℕ → List Bool → Result Fault Bool
all_set [] bits = ok true
all_set (p ∷ ps) bits =
    let rest = all_set ps bits in
    elim (is_set p bits) [ err e ↦ err e | ok b ↦ if b then rest else ok false ]

-- How many bits are clear.
unfoldable pub zeros : List Bool → ℕ
zeros [] = 0
zeros (b ∷ bits) = (if b then 0 else 1) + zeros bits

-- `zeros <= bitset.size() / sqrt(2)`, for positive reals squared on both sides; rounding is not
-- modelled.
unfoldable pub stats_sbf : Bloom → Bool
unfolding zeros
stats_sbf s = leb (2 * (zeros s.bitset * zeros s.bitset)) (length s.bitset * length s.bitset)

module _ {Key : Type 0} (hash : Key → ℕ → ℕ) where
  -- The position for hash function `i`, as an `unsigned int`.
  abbrev pub position : Bool → ℕ → Key → ℕ → ℕ
  position div hashsize key i = if div then (i * 2 ^ hashsize + hash key i) % 2 ^ 32 else hash key i

  -- The positions for `n` hash functions from `i` on.
  abbrev pub positions_from : ℕ → ℕ → Bool → ℕ → Key → List ℕ
  positions_from zero i div hashsize key = []
  positions_from (suc n) i div hashsize key =
      position div hashsize key i ∷ positions_from n (suc i) div hashsize key

  abbrev pub positions : Bloom → Key → List ℕ
  positions s key = positions_from s.nhash 0 s.div s.hashsize key

  unfoldable pub insert : Key → Bloom → Result Fault Bloom
  unfolding set_each
  insert key s = elim (set_each (positions s key) s.bitset) [
    | err e ↦ err e
    | ok bits ↦ ok (record s { bitset = bits })
  ]

  unfoldable pub is_present : Key → Bloom → Result Fault Bool
  unfolding all_set
  is_present key s = all_set (positions s key) s.bitset
