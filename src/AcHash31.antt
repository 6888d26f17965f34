-- ===== src/AcHash31.antt =====
-- lib/hash/ACHash31.cpp: a hash a * key + b, folded and masked, on the words of a key.
pub mod Masks
pub mod Codes
pub mod Tests
use Prim.Native.Nat.{bit_and}
use dstreamon.Base.{ℕ, zero, suc, ◌+◌, ◌*◌, ◌/◌, ◌%◌, ◌^◌, List, [], ◌∷◌, ◌==◌, if◌then◌else◌}

pub record AcHash31 : Type 0 where
  pub smod_a : ℕ
  pub smod_b : ℕ

-- `SMOD_MOD`
abbrev pub smod_mod : ℕ
smod_mod = 0x2FFFFFFF

abbrev pub uint : ℕ → ℕ
uint n = n % 2 ^ 32

abbrev pub ull : ℕ → ℕ
ull n = n % 2 ^ 64

unfoldable pub compute_with : ℕ → ℕ → ℕ → ℕ
compute_with key a b =
    let result = ull (ull (a * key) + b) in uint (bit_and (ull (result / 2 ^ 31 + result)) smod_mod)

unfoldable pub compute : AcHash31 → ℕ → ℕ
unfolding compute_with
compute h key = compute_with key h.smod_a h.smod_b

-- The loop over the bytes from number `i` on, with `key_int` and `key_int_temp`.
unfoldable pub add_bytes : ℕ → List ℕ → ℕ → ℕ → ℕ × ℕ
add_bytes i [] key_int temp = (key_int, temp)
add_bytes i (b ∷ bytes) key_int temp =
    add_bytes (suc i) bytes (if i % 4 == 0 then uint (key_int + temp) else key_int)
      (uint ((if i % 4 == 0 then 0 else temp) + b * 2 ^ (8 * (i % 4))))

-- A loop and the sum behind it, from a `key_int` on.
unfoldable pub key_from : ℕ → List ℕ → ℕ
unfolding add_bytes
key_from key_int bytes = let (k, temp) = add_bytes 0 bytes key_int 0 in uint (k + temp)

-- The loop that writes the four bytes of the digest.
abbrev pub output : ℕ → List ℕ
output out = out % 256 ∷ (out / 256 % 256 ∷ (out / 65536 % 256 ∷ (out / 16777216 % 256 ∷ [])))

unfoldable pub compute_bytes : AcHash31 → List ℕ → List ℕ
unfolding key_from compute
compute_bytes h key = output (compute h (key_from 0 key))

-- The authentication code of a message.
unfoldable pub compute_code : AcHash31 → List ℕ → List ℕ → List ℕ
unfolding key_from compute
compute_code h key input = output (compute h (key_from (key_from 0 key) input))
