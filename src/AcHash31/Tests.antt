-- ===== src/AcHash31/Tests.antt =====
-- lib/hash/ACHash31.cpp: a hash with small factors.
use dstreamon.Base.{◌+◌, ◌*◌, ◌/◌, ◌%◌, ◌^◌, ◌<◌, ◌≡◌, refl, [], ◌∷◌, ◌++◌}
use dstreamon.AcHash31.{
  AcHash31, ull, compute, compute_with, add_bytes, key_from, compute_bytes, compute_code,
}
use dstreamon.AcHash31.Masks.{compute_masked}
use dstreamon.AcHash31.Codes.{compute_code-compute_bytes}

abbrev identity : AcHash31
identity = record { smod_a = 1; smod_b = 0 }

runs :
    (compute identity 0x10000000 ≡ 0)
    × (compute identity 0x20000005 ≡ 0x20000005)
    × (compute (record { smod_a = 0x7fffffff; smod_b = 3 }) 2 ≡ 3)
    × (key_from 0 (1 ∷ (2 ∷ (0 ∷ (0 ∷ (4 ∷ []))))) ≡ 0x205)
    × (compute_bytes identity (1 ∷ (2 ∷ [])) ≡ 1 ∷ (2 ∷ (0 ∷ (0 ∷ []))))
unfolding compute compute_with key_from add_bytes compute_bytes
runs = (refl, refl, refl, refl, refl)

compute_masked_example :
    let s = (ull (1 * 0x10000000) + 0) % 2 ^ 64 in
    let r = (s / 2 ^ 31 + s) % 2 ^ 64 in
    (compute identity 0x10000000 ≡ r / 2 ^ 29 % 2 * 2 ^ 29 + r % 2 ^ 28)
    × (compute identity 0x10000000 / 2 ^ 28 % 2 ≡ 0)
    × (compute identity 0x10000000 < 2 ^ 30)
compute_masked_example = compute_masked identity 0x10000000

compute_code-compute_bytes_example :
    compute_code identity (1 ∷ (2 ∷ (3 ∷ (4 ∷ [])))) (5 ∷ (6 ∷ []))
    ≡ compute_bytes identity ((1 ∷ (2 ∷ (3 ∷ (4 ∷ [])))) ++ (5 ∷ (6 ∷ [])))
compute_code-compute_bytes_example =
    compute_code-compute_bytes identity (1 ∷ (2 ∷ (3 ∷ (4 ∷ [])))) (5 ∷ (6 ∷ [])) refl
