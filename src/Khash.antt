-- ===== src/Khash.antt =====
-- lib/hash/khash.cpp: several hash values cut out of digests. `compute` here is the part of the method
-- that cuts them out of what `msgdig` then holds, with the four bytes behind the digests;
-- Khash.Digests has the part that fills `msgdig`.
pub mod Digests
pub mod Values
use dstreamon.Base.{
  ℕ, zero, suc, ◌+◌, ◌-◌, ◌*◌, ◌/◌, ◌%◌, ◌^◌, Bool, true, false, not, ◌&&◌, ◌||◌, List, [], ◌∷◌,
  Result, ok, err, ltb, leb, ◌==◌, if◌then◌else◌, get_or, length,
}

pub data Fault : Type 0 where
  assertion_failed : Fault

pub record Khash : Type 0 where
  pub hashdiglen : ℕ
  pub nhash : ℕ
  pub shash : ℕ
  pub norep : Bool
  pub hashtodo : ℕ

-- The constructor, with its assertions. Products wrap; `1 << 32`, which C++ leaves open, is 1.
unfoldable pub create : ℕ → ℕ → ℕ → Bool → Result Fault Khash
create hashdiglen nhash shash norep =
    let needed = nhash * shash % 2 ^ 32 in
    let todo = needed / (hashdiglen * 8) in
    if leb shash 32 && (leb shash (hashdiglen * 8) && not (shash == 0))
    then (if norep && ltb (2 ^ (shash % 32)) nhash
        then err assertion_failed
        else ok (record {
          hashdiglen = hashdiglen;
          nhash = nhash;
          shash = shash;
          norep = norep;
          hashtodo = if todo * needed % 2 ^ 32 == hashdiglen * 8 then todo else todo + 1;
        }))
    else err assertion_failed

-- A byte of the digest, and the `unsigned int` that starts there, least byte first.
abbrev pub byte_at : List ℕ → ℕ → ℕ
byte_at digest i = get_or digest i 0

abbrev pub word_at : List ℕ → ℕ → ℕ
word_at digest i =
    byte_at digest i
    + (byte_at digest (i + 1) * 2 ^ 8
        + (byte_at digest (i + 2) * 2 ^ 16 + byte_at digest (i + 3) * 2 ^ 24))

-- One step of the loop, at the bit `start`. The bits of the last byte lie above those of the word, so
-- that `|` is a sum; the shift drops what does not fit in an `unsigned int`.
abbrev pub cut : ℕ → List ℕ → ℕ → ℕ
cut shash digest start =
    let stop : ℕ = start + shash in
    let low : ℕ = word_at digest (start / 8) / 2 ^ (start % 8) in
    let high : ℕ = byte_at digest (stop / 8) * 2 ^ (shash - stop % 8) % 2 ^ 32 in
    (if ltb 32 (shash + start % 8) then low + high else low) % 2 ^ shash

-- The loop, from the bit `start` on.
unfoldable pub cut_each : ℕ → ℕ → List ℕ → ℕ → List ℕ
cut_each zero shash digest start = []
cut_each (suc n) shash digest start =
    cut shash digest start ∷ cut_each n shash digest (start + shash)

unfoldable pub compute : Khash → List ℕ → List ℕ
unfolding cut_each
compute h digest = cut_each h.nhash h.shash digest 0

-- `H`, with its assertion.
unfoldable pub hash_value : Khash → List ℕ → ℕ → Result Fault ℕ
hash_value h res k = if ltb k h.nhash then ok (get_or res k 0) else err assertion_failed
