-- ===== src/AcHash31/Codes.antt =====
-- lib/hash/ACHash31.cpp: authentication codes.
use dstreamon.Base.{
  ℕ, suc, ◌+◌, ◌*◌, ◌%◌, ◌^◌, ◌≡◌, refl, sym, ap, ◌∙◌, List, [], ◌∷◌, ◌++◌, arith, length, ◌==◌,
  if◌then◌else◌,
}
use dstreamon.AcHash31.{
  AcHash31, uint, add_bytes, key_from, compute, compute_bytes, compute_code, output,
}

-- Only the place in a word counts.
add_bytes_period :
    (i j : ℕ) (bytes : List ℕ) (k t : ℕ)
    → i % 4 ≡ j % 4
    → add_bytes i bytes k t ≡ add_bytes j bytes k t
unfolding add_bytes
add_bytes_period i j [] k t e = refl
add_bytes_period i j (b ∷ bytes) k t e =
    ap
      (λ (p : ℕ).
        add_bytes (suc i) bytes (if p == 0 then uint (k + t) else k)
          (uint ((if p == 0 then 0 else t) + b * 2 ^ (8 * p))))
      e
    ∙ add_bytes_period (suc i) (suc j) bytes _ _ (omega (arith, e))

add_bytes-append :
    (i : ℕ) (xs ys : List ℕ) (k t : ℕ)
    → add_bytes i (xs ++ ys) k t
      ≡ add_bytes (i + length xs) ys (add_bytes i xs k t).0 (add_bytes i xs k t).1
unfolding add_bytes
add_bytes-append i [] ys k t = let i0 : i ≡ i + 0 = omega arith in ap (λ j. add_bytes j ys k t) i0
add_bytes-append i (b ∷ xs) ys k t =
    let shift : suc i + length xs ≡ i + suc (length xs) = omega arith in
    add_bytes-append (suc i) xs ys _ _
    ∙ ap (λ j. add_bytes j ys (add_bytes i (b ∷ xs) k t).0 (add_bytes i (b ∷ xs) k t).1) shift

-- At the start of a word the sum so far may be taken at once.
add_bytes-start :
    (ys : List ℕ) (k t : ℕ)
    → let (a, b) = add_bytes 0 ys k t in
      let (a', b') = add_bytes 0 ys (uint (k + t)) 0 in uint (a + b) ≡ uint (a' + b')
unfolding add_bytes
add_bytes-start [] k t = omega arith
add_bytes-start (y ∷ ys) k t =
    let same : uint (uint (k + t) + 0) ≡ uint (k + t) = omega arith in
    ap
      (λ s.
        uint (
          (add_bytes 1 ys s (uint (0 + y * 2 ^ 0))).0
          + (add_bytes 1 ys s (uint (0 + y * 2 ^ 0))).1))
      (sym same)

-- The code of a message under a key of whole words is the digest of the key and the message, one
-- behind the other.
pub compute_code-compute_bytes :
    (h : AcHash31) (key input : List ℕ)
    → length key % 4 ≡ 0
    → compute_code h key input ≡ compute_bytes h (key ++ input)
unfolding compute_code compute_bytes key_from
compute_code-compute_bytes h key input whole =
    let r = add_bytes 0 key 0 0 in
    let both =
      add_bytes-append 0 key input 0 0
      ∙ add_bytes_period (0 + length key) 0 input r.0 r.1 (omega (arith, whole)) in
    ap (λ k. output (compute h k))
      (sym (ap (λ p. uint (p.0 + p.1)) both ∙ add_bytes-start input r.0 r.1))
