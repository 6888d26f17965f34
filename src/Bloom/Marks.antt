-- ===== src/Bloom/Marks.antt =====
-- lib/bloom/bloom.cpp: what the loops do to the bits.
use dstreamon.Base.{
  ℕ, zero, suc, ◌+◌, ◌/◌, ◌%◌, ◌^◌, ◌<◌, ◌≡◌, refl, sym, ap, ◌∙◌, true, false, not, List, [], ◌∷◌,
  arith, ◌==◌, ==_iff, if◌then◌else◌, length, length-set, get_or, set, inl, inr, Bool-cases,
}
use dstreamon.Bloom.{byte_of, bit_of, is_clear, mark_one}
use dstreamon.Bloom.Bits.{byte_bit, byte_ones, byte_lem}
use Prim.Native.Nat.{bit_or}

abbrev pub AllBytes : List ℕ → Type 0
AllBytes [] = Unit
AllBytes (b ∷ m) = (b < 256) × AllBytes m

-- The bit of a hash value.
abbrev pub bit_at : List ℕ → ℕ → ℕ
bit_at m v = byte_bit (byte_of m v) (v % 8)

-- How many bits are set.
unfoldable pub ones : List ℕ → ℕ
ones [] = 0
ones (b ∷ m) = byte_ones b + ones m

byte_small : (m : List ℕ) (i : ℕ) → AllBytes m → get_or m i 0 < 256
byte_small [] i bytes = omega arith
byte_small (b ∷ m) zero bytes = bytes.0
byte_small (b ∷ m) (suc i) bytes = byte_small m i bytes.1

AllBytes-set : (m : List ℕ) (i b : ℕ) → b < 256 → AllBytes m → AllBytes (set m i b)
AllBytes-set [] i b small bytes = tt
AllBytes-set (c ∷ m) zero b small bytes = (small, bytes.1)
AllBytes-set (c ∷ m) (suc i) b small bytes = (bytes.0, AllBytes-set m i b small bytes.1)

get_or-set :
    (m : List ℕ) (i j b : ℕ)
    → i < length m
    → get_or (set m i b) j 0 ≡ (if j == i then b else get_or m j 0)
get_or-set [] i j b lt = absurd (omega arith)
get_or-set (c ∷ m) zero zero b lt = ground arith
get_or-set (c ∷ m) zero (suc j) b lt = ground arith
get_or-set (c ∷ m) (suc i) zero b lt = ground arith
get_or-set (c ∷ m) (suc i) (suc j) b lt = get_or-set m i j b (omega arith) ∙ ground arith

ones-set :
    (m : List ℕ) (i b : ℕ)
    → i < length m
    → ones (set m i b) + byte_ones (get_or m i 0) ≡ ones m + byte_ones b
unfolding ones
ones-set [] i b lt = absurd (omega arith)
ones-set (c ∷ m) zero b lt = omega arith
ones-set (c ∷ m) (suc i) b lt = omega (arith, ones-set m i b (omega arith))

-- The test of a bit.
pub is_clear_lem : (m : List ℕ) (v : ℕ) → AllBytes m → is_clear m v ≡ not (bit_at m v == 1)
is_clear_lem m v bytes =
    let (test, _, _, _) =
      byte_lem (byte_of m v) (v % 8) 0 (byte_small m (v / 8) bytes) (omega arith) (omega arith) in
    ground (arith, test)

pub bit_small : (m : List ℕ) (v : ℕ) → bit_at m v < 2
bit_small m v = omega arith

same_value : (u v : ℕ) → u / 8 ≡ v / 8 → u % 8 ≡ v % 8 → u ≡ v
same_value u v e e' = omega arith

-- Marking a value whose byte there is sets its bit, and no other.
pub bit_at-mark_one :
    (v u : ℕ) (m : List ℕ)
    → AllBytes m
    → v / 8 < length m
    → bit_at (mark_one v m) u ≡ (if u == v then 1 else bit_at m u)
unfolding mark_one
bit_at-mark_one v u m bytes lt =
    let x = byte_of m v in
    let t = v % 8 in
    let (_, _, _, each) =
      byte_lem x t (u % 8) (byte_small m (v / 8) bytes) (omega arith) (omega arith) in
    let at = get_or-set m (v / 8) (u / 8) (bit_or x (2 ^ t)) lt in
    elim (Bool-cases (is_clear m v)) [
      | inr marked ↦
          let on : bit_at m v ≡ 1 = ground (arith, marked, is_clear_lem m v bytes) in
          rw marked (elim (Bool-cases (u == v)) [
            | inl here ↦ let e = (==_iff u v).0 here in rw here (ap (bit_at m) e ∙ on)
            | inr away ↦ rw away refl
          ])
      | inl unset ↦ rw unset (elim (Bool-cases (u / 8 == v / 8)) [
        | inl byte ↦
            let e = (==_iff (u / 8) (v / 8)).0 byte in
            let there : get_or (set m (v / 8) (bit_or x (2 ^ t))) (u / 8) 0 ≡ bit_or x (2 ^ t) =
              at ∙ rw byte refl in
            let old : byte_of m u ≡ x = ap (λ i. get_or m i 0) e in
            ap (λ b. byte_bit b (u % 8)) there
            ∙ (each ∙ elim (Bool-cases (u % 8 == v % 8)) [
              | inl bit ↦
                  let both = same_value u v e ((==_iff (u % 8) (v % 8)).0 bit) in
                  let here : (u == v) ≡ true = (==_iff u v).1 both in rw (bit, here) refl
              | inr other ↦
                  let away : (u == v) ≡ false = ground (arith, other, ap (λ (w : ℕ). w % 8)) in
                  rw (other, away) (ap (λ b. byte_bit b (u % 8)) (sym old))
            ])
        | inr elsewhere ↦
            let away : (u == v) ≡ false = ground (arith, elsewhere) in
            let same : get_or (set m (v / 8) (bit_or x (2 ^ t))) (u / 8) 0 ≡ byte_of m u =
              at ∙ rw elsewhere refl in
            rw away (ap (λ b. byte_bit b (u % 8)) same)
      ])
    ]

pub AllBytes-mark_one : (v : ℕ) (m : List ℕ) → AllBytes m → AllBytes (mark_one v m)
unfolding mark_one
AllBytes-mark_one v m bytes =
    let (_, small, _, _) =
      byte_lem (byte_of m v) (v % 8) 0 (byte_small m (v / 8) bytes) (omega arith) (omega arith) in
    elim (Bool-cases (is_clear m v)) [
      | inr marked ↦ rw marked bytes
      | inl unset ↦ rw unset (AllBytes-set m (v / 8) (bit_or (byte_of m v) (bit_of v)) small bytes)
    ]

pub length-mark_one : (v : ℕ) (m : List ℕ) → length (mark_one v m) ≡ length m
unfolding mark_one
length-mark_one v m = elim (Bool-cases (is_clear m v)) [
  | inr marked ↦ rw marked refl
  | inl unset ↦ rw unset (length-set m (v / 8) (bit_or (byte_of m v) (bit_of v)))
]

-- One more bit is set exactly where the count goes up.
pub ones-mark_one :
    (v : ℕ) (m : List ℕ)
    → AllBytes m
    → v / 8 < length m
    → ones (mark_one v m) ≡ ones m + (if is_clear m v then 1 else 0)
unfolding mark_one
ones-mark_one v m bytes lt =
    let x = byte_of m v in
    let (test, _, count, _) =
      byte_lem x (v % 8) 0 (byte_small m (v / 8) bytes) (omega arith) (omega arith) in
    let total = ones-set m (v / 8) (bit_or x (bit_of v)) lt in
    elim (Bool-cases (is_clear m v)) [
      | inr marked ↦ rw marked (omega arith)
      | inl unset ↦
          let off : byte_bit x (v % 8) ≡ 0 = ground (arith, test, unset) in
          rw unset (omega (arith, total, count, off))
    ]
