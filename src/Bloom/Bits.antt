-- ===== src/Bloom/Bits.antt =====
-- lib/bloom/bloom.cpp: the bit operations on a byte, checked for each byte and each bit.
use Prim.Native.Nat.{bit_and, bit_or}
use dstreamon.Base.{
  ℕ, zero, suc, ◌+◌, ◌-◌, ◌/◌, ◌%◌, ◌^◌, ◌<◌, ◌≡◌, refl, Bool, true, ◌&&◌, arith, ltb, ltb→lt, ◌==◌,
  ==_iff, if◌then◌else◌, inl, inr, Bool-cases,
}

abbrev all_below : ℕ → (ℕ → Bool) → Bool
all_below zero f = true
all_below (suc n) f = f n && all_below n f

all_below_lem : (n i : ℕ) (f : ℕ → Bool) → all_below n f ≡ true → i < n → f i ≡ true
all_below_lem zero i f all lt = absurd (omega arith)
all_below_lem (suc n) i f all lt = elim (Bool-cases (i == n)) [
  | inl here ↦ let e = (==_iff i n).0 here in rw e (ground (arith, all))
  | inr below ↦ all_below_lem n i f (ground (arith, all)) (ground (arith, lt, below))
]

abbrev pub byte_bit : ℕ → ℕ → ℕ
byte_bit x t = x / 2 ^ t % 2

-- How many bits of a byte are set.
abbrev pub byte_ones : ℕ → ℕ
byte_ones x =
    byte_bit x 0
    + (byte_bit x 1
        + (byte_bit x 2
            + (byte_bit x 3 + (byte_bit x 4 + (byte_bit x 5 + (byte_bit x 6 + byte_bit x 7))))))

facts : ℕ → ℕ → Bool
facts x t =
    ((if bit_and x (2 ^ t) == 0 then 0 else 1) == byte_bit x t)
    && (ltb (bit_or x (2 ^ t)) 256
        && ((byte_ones (bit_or x (2 ^ t)) == byte_ones x + (1 - byte_bit x t))
            && all_below 8
                (λ u. byte_bit (bit_or x (2 ^ t)) u == (if u == t then 1 else byte_bit x u))))

all_facts : all_below 256 (λ x. all_below 8 (facts x)) ≡ true
unfolding facts
all_facts = refl

and_true : (a b : Bool) → (a && b) ≡ true → (a ≡ true) × (b ≡ true)
and_true a b e = (ground (arith, e), ground (arith, e))

-- The test of a bit, and what it is to set one.
pub byte_lem :
    (x t u : ℕ)
    → x < 256
    → t < 8
    → u < 8
    → ((if bit_and x (2 ^ t) == 0 then 0 else 1) ≡ byte_bit x t)
      × (bit_or x (2 ^ t) < 256)
      × (byte_ones (bit_or x (2 ^ t)) ≡ byte_ones x + (1 - byte_bit x t))
      × (byte_bit (bit_or x (2 ^ t)) u ≡ (if u == t then 1 else byte_bit x u))
unfolding facts
byte_lem x t u byte bit other =
    let row = all_below_lem 256 x (λ y. all_below 8 (facts y)) all_facts byte in
    let here : facts x t ≡ true = all_below_lem 8 t (facts x) row bit in
    let (test, rest) = and_true _ _ here in
    let (small, rest') = and_true _ _ rest in
    let (count, each) = and_true _ _ rest' in
    let there =
      all_below_lem 8 u (λ w. byte_bit (bit_or x (2 ^ t)) w == (if w == t then 1 else byte_bit x w))
        each other in
    ((==_iff _ _).0 test, ltb→lt _ _ small, (==_iff _ _).0 count, (==_iff _ _).0 there)
