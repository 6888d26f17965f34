-- ===== src/DLeft/Fnv.antt =====
-- lib/streamon/DLeft.cpp: the fingerprint of a key.
use Prim.Native.Nat.{bit_xor}
use dstreamon.Base.{ℕ, ◌+◌, ◌*◌, ◌/◌, ◌%◌, ◌^◌, List, [], ◌∷◌}

-- A `uint` wraps.
abbrev pub uint : ℕ → ℕ
uint n = n % 2 ^ 32

unfoldable pub fnv_loop : List ℕ → ℕ → ℕ
fnv_loop [] hash = hash
fnv_loop (b ∷ bytes) hash = fnv_loop bytes (uint (bit_xor hash b * 16777619))

-- `hash += hash << k` and `hash ^= hash >> k`.
abbrev pub add_shifted : ℕ → ℕ → ℕ
add_shifted k hash = uint (hash + uint (hash * 2 ^ k))

abbrev pub xor_shifted : ℕ → ℕ → ℕ
xor_shifted k hash = bit_xor hash (hash / 2 ^ k)

unfoldable pub fnv_modified_hash : List ℕ → ℕ
unfolding fnv_loop
fnv_modified_hash bytes =
    add_shifted 5
      (xor_shifted 17 (add_shifted 3 (xor_shifted 7 (add_shifted 13 (fnv_loop bytes 2166136261)))))
