-- ===== src/AcHash31/Masks.antt =====
-- lib/hash/ACHash31.cpp: which values the mask leaves.
use Prim.Native.Nat.{bit_and, digits, bit_and-bitwise, min}
use native.Mathlib.Nat.{le_refl, one-le-pow, div-div-eq-div-mul}
use native.Mathlib.Omega.{pow_step}
use dstreamon.Base.{
  ℕ, zero, suc, ◌+◌, ◌-◌, ◌*◌, ◌/◌, ◌%◌, ◌^◌, ◌≤◌, ◌<◌, ◌≡◌, refl, sym, ap, ap₂, ◌∙◌, arith,
}
use dstreamon.BitFields.{mod_product}
use dstreamon.AcHash31.{AcHash31, compute, compute_with, smod_mod, ull}

-- More fuel than the number has digits makes no difference.
enough_digits :
    (k l x y : ℕ) → x ≤ k → x ≤ l → digits (λ w. 0) min k x y ≡ digits (λ w. 0) min l x y
enough_digits zero zero x y h h' = refl
enough_digits zero (suc l) zero y h h' = refl
enough_digits zero (suc l) (suc x) y h h' = absurd (omega arith)
enough_digits (suc k) zero zero y h h' = refl
enough_digits (suc k) zero (suc x) y h h' = absurd (omega arith)
enough_digits (suc k) (suc l) zero y h h' = refl
enough_digits (suc k) (suc l) (suc x) y h h' =
    ap (λ d. d * 2 + min (suc x % 2) (y % 2))
      (enough_digits k l (suc x / 2) (y / 2) (omega arith) (omega arith))

-- The lowest digit of `&`, and the others.
bit_and-halves : (x y : ℕ) → bit_and x y ≡ bit_and (x / 2) (y / 2) * 2 + min (x % 2) (y % 2)
bit_and-halves zero y = simp bit_and-bitwise (omega arith)
bit_and-halves (suc x) y = simp bit_and-bitwise (
    ap (λ d. d * 2 + min (suc x % 2) (y % 2))
      (enough_digits x (suc x / 2) (suc x / 2) (y / 2) (omega arith) (le_refl (suc x / 2))))

bit_and_zero : (x : ℕ) → bit_and x 0 ≡ 0
bit_and_zero x = zero_below x x (omega arith)
  where
    zero_below : (n y : ℕ) → y ≤ n → bit_and y 0 ≡ 0
    zero_below zero zero h = simp bit_and-bitwise refl
    zero_below zero (suc y) h = absurd (omega arith)
    zero_below (suc n) y h = omega (arith, bit_and-halves y 0, zero_below n (y / 2) (omega arith))

pow_double : (k : ℕ) → 2 ^ suc k ≡ 2 * 2 ^ k
pow_double k = pow_step 2 k

-- Below `k` digits that are all ones, `&` keeps the digits.
bit_and_low :
    (k x c : ℕ) → bit_and x (c * 2 ^ k + (2 ^ k - 1)) ≡ bit_and (x / 2 ^ k) c * 2 ^ k + x % 2 ^ k
bit_and_low zero x c =
    let mask : c * 2 ^ 0 + (2 ^ 0 - 1) ≡ c = omega arith in
    let number : x ≡ x / 2 ^ 0 = omega arith in ap₂ bit_and number mask ∙ omega arith
bit_and_low (suc k) x c =
    let p = 2 ^ k in
    let mask = c * 2 ^ suc k + (2 ^ suc k - 1) in
    let double = pow_double k in
    let some_ones : 1 ≤ p = one-le-pow k 2 (omega arith) in
    let product : c * 2 ^ suc k ≡ 2 * (c * p) = ap (λ (t : ℕ). c * t) double ∙ grind arith in
    let half : mask / 2 ≡ c * p + (p - 1) = omega (arith, product, double, some_ones) in
    let last : mask % 2 ≡ 1 = omega (arith, product, double, some_ones) in
    let rest : bit_and (x / 2) (mask / 2) ≡ bit_and (x / 2 / p) c * p + x / 2 % p =
      ap (bit_and (x / 2)) half ∙ bit_and_low k (x / 2) c in
    let quotient : x / 2 / p ≡ x / 2 ^ suc k =
      div-div-eq-div-mul x 2 p ∙ ap (λ t. x / t) (sym double) in
    let parts : x ≡ x % 2 + 2 * (x / 2) = omega arith in
    let remainder : x % 2 ^ suc k ≡ x % 2 + 2 * (x / 2 % p) =
      ap₂ (λ a b. a % b) parts double ∙ mod_product (x % 2) 2 (x / 2) p (omega arith) some_ones in
    let high : bit_and (x / 2 / p) c * p * 2 ≡ bit_and (x / 2 ^ suc k) c * 2 ^ suc k =
      ap (λ q. bit_and q c * p * 2) quotient
      ∙ (grind arith ∙ ap (λ (t : ℕ). bit_and (x / 2 ^ suc k) c * t) (sym double)) in
    omega (arith, bit_and-halves x mask, rest, last, remainder, high)

bit_and_two : (x : ℕ) → bit_and x 2 ≡ x / 2 % 2 * 2
bit_and_two x =
    let none : bit_and (x / 2 / 2) 0 ≡ 0 = bit_and_zero (x / 2 / 2) in
    omega (arith, bit_and-halves x 2, bit_and-halves (x / 2) 1, none)

-- The mask keeps the bits 0 to 27 and the bit 29 of the folded sum: of the 2 ^ 31 - 1 values that a
-- hash by that prime can take, those with the bit 28 or the bit 30 never come.
pub compute_masked :
    (h : AcHash31) (key : ℕ)
    → let s = (ull (h.smod_a * key) + h.smod_b) % 2 ^ 64 in
      let r = (s / 2 ^ 31 + s) % 2 ^ 64 in
      (compute h key ≡ r / 2 ^ 29 % 2 * 2 ^ 29 + r % 2 ^ 28)
      × (compute h key / 2 ^ 28 % 2 ≡ 0)
      × (compute h key < 2 ^ 30)
unfolding compute compute_with
compute_masked h key =
    let s = ull (ull (h.smod_a * key) + h.smod_b) in
    let r = ull (s / 2 ^ 31 + s) in
    let low = bit_and_low 28 r 2 in
    let two = bit_and_two (r / 2 ^ 28) in
    let value : bit_and r smod_mod ≡ r / 2 ^ 29 % 2 * 2 ^ 29 + r % 2 ^ 28 =
      omega (arith, low, two) in
    (omega (arith, value), omega (arith, value), omega (arith, value))
