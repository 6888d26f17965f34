-- ===== src/Bloom/Tests.antt =====
-- lib/bloom/bloom.cpp: a filter of sixteen bits with two hash functions.

use dstreamon.Base.{ℕ, ◌<◌, ◌≡◌, refl, Bool, true, false, not, List, [], ◌∷◌, ok, none, some, arith}
use dstreamon.MultiHash
use dstreamon.MultiHash.{Hasher, split, split_from, cut, retract, compute, compute_from, draw}
use dstreamon.Bloom.{
  Bloom, mmax, create, clear, set_bits, check_bits, insert, check, insert_values, check_values,
  mark_each, mark_one, check_each, serialize, deserialize, read_filter,
}
use dstreamon.Bloom.Marks.{ones}
use dstreamon.Bloom.Insertion.{InOrder, SixWords, check_bits-set_bits}
use dstreamon.Bloom.Serial.{deserialize-serialize}

abbrev bits : ℕ → List ℕ
bits w = w ∷ (0 ∷ (0 ∷ (0 ∷ (0 ∷ (0 ∷ [])))))

abbrev key : ℕ → List ℕ → List ℕ
key k ws = bits k

-- The filter holds the values 1 and 2.
abbrev two_bits : Bloom
two_bits = record {
  hasher = record { nhash = 2; shash = 4; norep = false };
  res = 0 ∷ (1 ∷ (2 ∷ []));
  m = 6 ∷ (0 ∷ []);
  num_zeros = 14;
}

two_bits-InOrder : InOrder two_bits
unfolding ones
two_bits-InOrder = record {
  large = omega arith;
  small = omega arith;
  res_sized = refl;
  sized = refl;
  bytes = (omega arith, (omega arith, tt));
  zeros = refl;
}

bits_SixWords : (w : ℕ) → w < 4294967296 → SixWords (bits w)
bits_SixWords w lt =
    ((lt, (omega arith, (omega arith, (omega arith, (omega arith, (omega arith, tt)))))), refl)

runs :
    (check_bits (bits 0x21) two_bits ≡ ok true)
    × (check_bits (bits 0x31) two_bits ≡ ok false)
    × (set_bits (bits 0xf1) two_bits
        ≡ ok (
          true,
          record two_bits { res = 0 ∷ (1 ∷ (15 ∷ [])); m = 6 ∷ (128 ∷ []); num_zeros = 13 },
        ))
    × (insert key 9 0x21 1 two_bits ≡ ok (false, two_bits))
    × (check key 9 0x31 1 two_bits ≡ ok false)
    × (create 2 4 false (0 ∷ (1 ∷ (2 ∷ []))) ≡ ok (clear two_bits))
    × (serialize 9 two_bits ≡ none)
    × (serialize 10 two_bits ≡ some (2 ∷ (0 ∷ (0 ∷ (0 ∷ (4 ∷ (0 ∷ (0 ∷ (0 ∷ (6 ∷ (0 ∷ [])))))))))))
    × (deserialize (2 ∷ (0 ∷ (0 ∷ (0 ∷ (4 ∷ (0 ∷ (0 ∷ (0 ∷ (6 ∷ []))))))))) [] ≡ ok none)
unfolding set_bits check_bits insert check insert_values check_values mark_each mark_one check_each
    split split_from cut retract compute compute_from draw create clear MultiHash.create serialize
    deserialize read_filter
runs = (refl, refl, refl, refl, refl, refl, refl, refl, refl)

check_bits-set_bits_example :
    (new : Bool) × (s' : Bloom) × (set_bits (bits 0xf1) two_bits ≡ ok (new, s'))
    × (check_bits (bits 0xf1) two_bits ≡ ok (not new))
    × (check_bits (bits 0xf1) s' ≡ ok true)
    × InOrder s'
unfolding split split_from cut retract
check_bits-set_bits_example =
    check_bits-set_bits two_bits (bits 0xf1) (0 ∷ (1 ∷ (15 ∷ []))) two_bits-InOrder
      (bits_SixWords 0xf1 (omega arith)) refl

deserialize-serialize_example :
    (buffer : List ℕ) × (serialize 10 two_bits ≡ some buffer)
    × (deserialize buffer (0 ∷ (0 ∷ (0 ∷ [])))
        ≡ ok (
            some (record {
              hasher = record { nhash = 2; shash = 4; norep = true };
              res = 0 ∷ (0 ∷ (0 ∷ []));
              m = 6 ∷ (0 ∷ []);
              num_zeros = mmax 4;
            })))
deserialize-serialize_example =
    deserialize-serialize two_bits 10 (0 ∷ (0 ∷ (0 ∷ []))) two_bits-InOrder (omega arith)
      (omega arith) (omega arith) (omega arith) (omega arith)
