-- ===== src/BitFields.antt =====
-- Numbers made of 32-bit words, the first word lowest, and fields of their bits.
use native.Mathlib.Nat.{
  mod-lt, one-le-pow, mul_comm, mul-add, mul_assoc, pow-suc, add-mul-div_left, div-eq_of_lt,
  div-div-eq-div-mul, add-mul-mod_self_left, mod-eq_of_lt, div-add-mod, div-lt_iff_lt-mul,
  pow-le-pow_right,
}
use native.Mathlib.Omega.{pow_step}
use dstreamon.Base.{
  ℕ, zero, suc, ◌+◌, ◌-◌, ◌*◌, ◌/◌, ◌%◌, ◌^◌, ◌≤◌, ◌<◌, ◌≡◌, sym, ap, ◌∙◌, List, [], ◌∷◌, some,
  arith, get_elem?, drop,
}

-- The number that the words stand for.
unfoldable pub number : List ℕ → ℕ
number [] = 0
number (w ∷ ws) = w + 2 ^ 32 * number ws

abbrev pub AllWords : List ℕ → Type 0
AllWords [] = Unit
AllWords (w ∷ ws) = (w < 2 ^ 32) × AllWords ws

-- The `size` bits from the bit `start` on.
abbrev pub field : ℕ → ℕ → ℕ → ℕ
field n start size = n / 2 ^ start % 2 ^ size

pub pow_add : (a b : ℕ) → 2 ^ (a + b) ≡ 2 ^ a * 2 ^ b
pow_add zero b =
    let same : 0 + b ≡ b = omega arith in
    let once : 2 ^ b ≡ 2 ^ 0 * 2 ^ b = omega arith in ap (λ k. 2 ^ k) same ∙ once
pow_add (suc a) b =
    let next : suc a + b ≡ suc (a + b) = omega arith in
    let both : 2 ^ suc (a + b) ≡ 2 * (2 ^ a * 2 ^ b) =
      pow_step 2 (a + b) ∙ ap (λ (t : ℕ). 2 * t) (pow_add a b) in
    ap (λ k. 2 ^ k) next
    ∙ (both ∙ (sym (mul_assoc 2 (2 ^ a) (2 ^ b)) ∙ ap (λ (t : ℕ). t * 2 ^ b) (sym (pow_step 2 a))))

pub pow_pos : (k : ℕ) → 0 < 2 ^ k
pow_pos k = one-le-pow k 2 (omega arith)

-- To shift by a word and more is to drop the word.
shift_word : (w n k : ℕ) → w < 2 ^ 32 → (w + 2 ^ 32 * n) / 2 ^ (32 + k) ≡ n / 2 ^ k
shift_word w n k lt =
    ap (λ t. (w + 2 ^ 32 * n) / t) (pow_add 32 k)
    ∙ (sym (div-div-eq-div-mul (w + 2 ^ 32 * n) (2 ^ 32) (2 ^ k))
        ∙ ap (λ t. t / 2 ^ k) (omega (arith, lt)))

pub number-drop :
    (b t : ℕ) (ws : List ℕ)
    → AllWords ws
    → number ws / 2 ^ (32 * b + t) ≡ number (drop b ws) / 2 ^ t
unfolding number
number-drop zero t ws h = ap (λ k. number ws / 2 ^ k) (omega arith)
number-drop (suc b) t [] h =
    ap (λ k. 0 / 2 ^ k) (omega arith)
    ∙ (native.Mathlib.Nat.zero-div (2 ^ (32 * suc b + t))
        ∙ sym (native.Mathlib.Nat.zero-div (2 ^ t)))
number-drop (suc b) t (w ∷ ws) h =
    let more : 32 * suc b + t ≡ 32 + (32 * b + t) = omega arith in
    ap (λ k. (w + 2 ^ 32 * number ws) / 2 ^ k) more
    ∙ (shift_word w (number ws) (32 * b + t) h.0 ∙ number-drop b t ws h.1)

pub number_from :
    (b : ℕ) (ws : List ℕ) (w : ℕ)
    → get_elem? ws b ≡ some w
    → number (drop b ws) ≡ w + 2 ^ 32 * number (drop (suc b) ws)
unfolding number
number_from b [] w e = absurd (ground (arith, e))
number_from zero (v ∷ ws) w e = ground (arith, e)
number_from (suc b) (v ∷ ws) w e = number_from b ws w e

pub word_bound : (b : ℕ) (ws : List ℕ) (w : ℕ) → AllWords ws → get_elem? ws b ≡ some w → w < 2 ^ 32
word_bound b [] w h e = absurd (ground (arith, e))
word_bound zero (v ∷ ws) w h e = ground (arith, e, h.0)
word_bound (suc b) (v ∷ ws) w h e = word_bound b ws w h.1 e

-- A multiple of `m` above a number below `m`, by a multiple of `m`.
pub mod_product : (a m r n : ℕ) → a < m → 0 < n → (a + m * r) % (m * n) ≡ a + m * (r % n)
mod_product a m r n lt some_n =
    let whole : m * r ≡ m * n * (r / n) + m * (r % n) =
      ap (λ (t : ℕ). m * t) (sym (div-add-mod r n))
      ∙ (mul-add m (n * (r / n)) (r % n)
          ∙ ap (λ (t : ℕ). t + m * (r % n)) (sym (mul_assoc m n (r / n)))) in
    let order : a + m * r ≡ a + m * (r % n) + m * n * (r / n) = omega (arith, whole) in
    let rest : r % n < n = mod-lt r some_n in
    let bound : a + m * (r % n) < m * n = grind (arith, lt, rest) in
    ap (λ t. t % (m * n)) order
    ∙ (add-mul-mod_self_left (a + m * (r % n)) (m * n) (r / n) ∙ mod-eq_of_lt bound)

-- A power that a smaller one divides.
pow_split : (a b : ℕ) → a ≤ b → 2 ^ b ≡ 2 ^ a * 2 ^ (b - a)
pow_split a b le = ap (λ k. 2 ^ k) (omega (arith, le)) ∙ pow_add a (b - a)

shift_low : (low r t : ℕ) → t ≤ 32 → (low + 2 ^ 32 * r) / 2 ^ t ≡ low / 2 ^ t + 2 ^ (32 - t) * r
shift_low low r t le =
    ap (λ (p : ℕ). (low + p * r) / 2 ^ t) (pow_split t 32 le)
    ∙ (ap (λ p. (low + p) / 2 ^ t) (mul_assoc (2 ^ t) (2 ^ (32 - t)) r)
        ∙ add-mul-div_left low (2 ^ (32 - t) * r) (pow_pos t))

-- A field within a word.
pub field_within :
    (low r t size : ℕ) → t + size ≤ 32 → field (low + 2 ^ 32 * r) t size ≡ field low t size
field_within low r t size le =
    let high : 2 ^ (32 - t) * r ≡ 2 ^ size * (2 ^ (32 - t - size) * r) =
      ap (λ (p : ℕ). p * r) (pow_split size (32 - t) (omega (arith, le)))
      ∙ mul_assoc (2 ^ size) (2 ^ (32 - t - size)) r in
    ap (λ p. p % 2 ^ size) (shift_low low r t (omega (arith, le)))
    ∙ (ap (λ p. (low / 2 ^ t + p) % 2 ^ size) high
        ∙ add-mul-mod_self_left (low / 2 ^ t) (2 ^ size) (2 ^ (32 - t - size) * r))

mod_word : (high r c : ℕ) → c ≤ 32 → (high + 2 ^ 32 * r) % 2 ^ c ≡ high % 2 ^ c
mod_word high r c le =
    ap (λ (p : ℕ). (high + p * r) % 2 ^ c) (pow_split c 32 le)
    ∙ (ap (λ p. (high + p) % 2 ^ c) (mul_assoc (2 ^ c) (2 ^ (32 - c)) r)
        ∙ add-mul-mod_self_left high (2 ^ c) (2 ^ (32 - c) * r))

-- A field that goes on in the next word.
pub field_across :
    (low high r t size : ℕ)
    → low < 2 ^ 32
    → t < 32
    → size < 32
    → 32 < t + size
    → field (low + 2 ^ 32 * (high + 2 ^ 32 * r)) t size
      ≡ low / 2 ^ t % 2 ^ size + high % 2 ^ (t + size - 32) * 2 ^ (size - (t + size - 32))
field_across low high r t size low_word le small cross =
    let c = t + size - 32 in
    let k = 32 - t in
    let both : 2 ^ size ≡ 2 ^ k * 2 ^ c =
      ap (λ e. 2 ^ e) (omega (arith, le, cross)) ∙ pow_add k c in
    let whole : 2 ^ 32 ≡ 2 ^ t * 2 ^ k = pow_split t 32 (omega (arith, le)) in
    let fits : low < 2 ^ k * 2 ^ t = omega (arith, low_word, whole, mul_comm (2 ^ k) (2 ^ t)) in
    let part : low / 2 ^ t < 2 ^ k = (div-lt_iff_lt-mul (pow_pos t)).1 fits in
    let wide : 2 ^ k ≤ 2 ^ size = pow-le-pow_right (omega arith) (omega (arith, le, cross)) in
    let alone : low / 2 ^ t % 2 ^ size ≡ low / 2 ^ t = mod-eq_of_lt (omega (arith, part, wide)) in
    let rest : (high + 2 ^ 32 * r) % 2 ^ c ≡ high % 2 ^ c =
      mod_word high r c (omega (arith, le, small)) in
    let width : 2 ^ (size - c) ≡ 2 ^ k = ap (λ e. 2 ^ e) (omega (arith, le, cross)) in
    ap (λ p. p % 2 ^ size) (shift_low low (high + 2 ^ 32 * r) t (omega (arith, le)))
    ∙ (ap (λ p. (low / 2 ^ t + 2 ^ k * (high + 2 ^ 32 * r)) % p) both
        ∙ (mod_product (low / 2 ^ t) (2 ^ k) (high + 2 ^ 32 * r) (2 ^ c) part (pow_pos c)
            ∙ rw (alone, rest, width) (omega (arith, mul_comm (2 ^ k) (high % 2 ^ c)))))

-- A field of the words is one of the number from the word where it starts.
pub field_at :
    (ws : List ℕ) (ptr size low : ℕ)
    → AllWords ws
    → get_elem? ws (ptr / 32) ≡ some low
    → field (number ws) ptr size
      ≡ field (low + 2 ^ 32 * number (drop (suc (ptr / 32)) ws)) (ptr % 32) size
field_at ws ptr size low words e =
    let place : ptr ≡ 32 * (ptr / 32) + ptr % 32 = omega arith in
    let start : number ws / 2 ^ ptr ≡ number (drop (ptr / 32) ws) / 2 ^ (ptr % 32) =
      ap (λ k. number ws / 2 ^ k) place ∙ number-drop (ptr / 32) (ptr % 32) ws words in
    ap (λ t. t % 2 ^ size) (start ∙ ap (λ t. t / 2 ^ (ptr % 32)) (number_from (ptr / 32) ws low e))
