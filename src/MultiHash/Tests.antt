-- ===== src/MultiHash/Tests.antt =====
-- lib/bloom/khash.cpp: two values of four bits, with and without repetition.
use dstreamon.Base.{
  ℕ, suc, ◌+◌, ◌%◌, ◌^◌, replicate, ◌*◌, ◌≡◌, ◌≢◌, ◌⊎◌, refl, true, false, List, [], ◌∷◌, some, ok,
  err, arith, get_or,
}
use dstreamon.BitFields.{number}
use dstreamon.MultiHash.{
  Hasher, assertion_failed, read_outside, create, cut, retract, split, split_from, draw, compute,
  compute_from, hash_value,
}
use dstreamon.MultiHash.Distinct.{split_distinct}
use dstreamon.MultiHash.Stream.{GivesWords, stream_value, digest_at, compute-stream_value}

-- The values in the first word are 1, 1 and 2.
abbrev words : List ℕ
words = 0x211 ∷ (0 ∷ (0 ∷ (0 ∷ (0 ∷ (0 ∷ [])))))

abbrev repeating : Hasher
repeating = record { nhash = 2; shash = 4; norep = false }

abbrev distinct : Hasher
distinct = record { nhash = 2; shash = 4; norep = true }

abbrev unset : List ℕ
unset = 9 ∷ (9 ∷ (9 ∷ []))

-- The words that a key makes of the words before.
abbrev next_words : ℕ → List ℕ → List ℕ
next_words key ws = key ∷ (get_or ws 0 0 ∷ (0 ∷ (0 ∷ (0 ∷ (0xf0000000 ∷ [])))))

runs :
    (create 2 4 true ≡ ok distinct)
    × (create 17 4 true ≡ err assertion_failed)
    × (split repeating words unset ≡ ok (9 ∷ (1 ∷ (1 ∷ []))))
    × (split distinct words unset ≡ ok (9 ∷ (1 ∷ (2 ∷ []))))
    × (hash_value distinct (9 ∷ (1 ∷ (2 ∷ []))) 2 ≡ ok 2)
    × (hash_value distinct (9 ∷ (1 ∷ (2 ∷ []))) 3 ≡ err assertion_failed)
    × (draw next_words 8 7 (next_words 7 words) 188
        ≡ some (0x7f, next_words 7 (next_words 7 words), 4))
    × (compute next_words 9 distinct 0x65 1 unset ≡ ok (9 ∷ (5 ∷ (6 ∷ []))))
unfolding create split split_from cut retract hash_value draw compute compute_from
runs = (refl, refl, refl, refl, refl, refl, refl, refl)

split_distinct_example :
    (split distinct words unset ≡ err assertion_failed)
    ⊎ (split distinct words unset ≡ err read_outside)
    ⊎ ((res' : List ℕ) × (split distinct words unset ≡ ok res')
        × (get_or res' 1 0 ≢ get_or res' 2 0))
split_distinct_example =
    split_distinct distinct words unset 1 2 refl (omega arith) (omega arith) (omega arith)
      (omega arith)

-- A hash of the key and the first word before, and seven values of 31 bits: the last lies in two digests.
abbrev mixed : ℕ → List ℕ → List ℕ
mixed key ws =
    (key * 7 + get_or ws 0 0) % 2 ^ 32 ∷ (1 ∷ (2 ∷ (3 ∷ (4 ∷ (key * 0x1000000 % 2 ^ 32 ∷ [])))))

mixed-GivesWords : GivesWords mixed
mixed-GivesWords key ws = (
  (omega arith, (omega arith, (omega arith, (omega arith, (omega arith, (omega arith, tt)))))),
  refl,
)

abbrev wide : Hasher
wide = record { nhash = 7; shash = 31; norep = false }

last_value : stream_value mixed 31 0xab (6 * 31) ≡ 0xab * 14 * 64 % 2 ^ 31 + 64 + 42
unfolding digest_at number
last_value = refl

compute-stream_value_example :
    (res' : List ℕ) × (compute mixed 8 wide 0xab 1 (replicate 8 0) ≡ ok res')
    × (get_or res' (suc 6) 0 ≡ stream_value mixed 31 0xab (6 * 31))
compute-stream_value_example =
    compute-stream_value mixed wide 0xab 1 (replicate 8 0) 8 6 mixed-GivesWords (omega arith) refl
      (omega arith) (omega arith) refl (omega arith) (omega arith)
