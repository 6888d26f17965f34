-- ===== src/Log2.antt =====
-- lib/lib_botstream/cbf.cpp and bloomfilter.cpp: `log2`, and the sizes that the filters accept.
use native.Mathlib.Omega.{pow_step}
use native.Mathlib.Nat.{lt-mul-div-succ, one-le-pow}
use dstreamon.Base.{
  ℕ, zero, suc, ◌+◌, ◌*◌, ◌/◌, ◌%◌, ◌^◌, ◌<◌, ◌≡◌, ◌≢◌, ap, ◌∙◌, ◌||◌, arith, ◌==◌, if◌then◌else◌,
  true, Bool, inl, inr, Bool-cases, ==_iff,
}

-- The loop shifts until the lowest bit is set or nothing is left: at most 32 times.
unfoldable pub log2_from : ℕ → ℕ → ℕ
log2_from zero n = 0
log2_from (suc fuel) n =
    let rest = log2_from fuel (n / 2) in if n % 2 == 1 || n == 0 then 0 else suc rest

unfoldable pub log2 : ℕ → ℕ
unfolding log2_from
log2 n = log2_from 32 n

-- The assertion that nothing is left above the bit that `log2` found.
abbrev pub fits : ℕ → Bool
fits n = n / 2 ^ (log2 n + 1) == 0

pow_suc : (k : ℕ) → 2 ^ suc k ≡ 2 ^ k + 2 ^ k
pow_suc k = pow_step 2 k ∙ omega arith

log2_from_exact : (fuel n : ℕ) → n ≢ 0 → n < 2 ^ (log2_from fuel n + 1) → n ≡ 2 ^ log2_from fuel n
unfolding log2_from
log2_from_exact zero n some_bit lt = omega arith
log2_from_exact (suc fuel) n some_bit lt = elim (Bool-cases (n % 2 == 1 || n == 0)) [
  | inl odd ↦ let lt' : n < 2 = rw odd at lt in rw odd (omega (arith, lt', some_bit))
  | inr even ↦
      let l = log2_from fuel (n / 2) in
      let lt' : n < 2 ^ (suc l + 1) = rw even at lt in
      let half : n % 2 ≡ 0 = ground arith in
      let next : suc l + 1 ≡ suc (l + 1) = omega arith in
      let step : 2 ^ (suc l + 1) ≡ 2 ^ (l + 1) + 2 ^ (l + 1) =
        ap (λ k. 2 ^ k) next ∙ pow_suc (l + 1) in
      let rest : n / 2 ≡ 2 ^ l =
        log2_from_exact fuel (n / 2) (ground arith) (omega (arith, lt', step)) in
      rw even (omega (arith, half, rest, pow_suc l))
]

-- A size that passes the assertions is a power of two.
pub fits_exact : (n : ℕ) → n ≢ 0 → fits n ≡ true → n ≡ 2 ^ log2 n
unfolding log2
fits_exact n some_bit e =
    let top = 2 ^ (log2 n + 1) in
    let whole : n / top ≡ 0 = (==_iff (n / top) 0).0 e in
    let below : n < top * (n / top + 1) =
      lt-mul-div-succ n (one-le-pow (log2 n + 1) 2 (omega arith)) in
    let below_top : n < top * 1 = rw whole at below in
    log2_from_exact 32 n some_bit (omega (arith, below_top))
