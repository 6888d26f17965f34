-- ===== src/Bloom/Membership.antt =====
-- lib/bloom/bloom.cpp: what the filter answers after an insertion, and its count of zeros.
use dstreamon.Base.{
  ℕ, ◌+◌, ◌/◌, ◌≤◌, ◌<◌, ◌≡◌, refl, ap, ◌∙◌, true, false, List, [], ◌∷◌, ok, arith, ltb, ◌==◌,
  if◌then◌else◌, length, inl, inr, Bool-cases,
}
use dstreamon.Bloom.{is_clear, mark_one, mark_each, check_each}
use dstreamon.Bloom.Marks.{
  AllBytes, bit_at, bit_small, ones, is_clear_lem, bit_at-mark_one, AllBytes-mark_one,
  length-mark_one, ones-mark_one,
}

-- The bytes of all values are in the array.
abbrev pub AllIn : ℕ → List ℕ → Type 0
AllIn size [] = Unit
AllIn size (v ∷ vs) = (v / 8 < size) × AllIn size vs

abbrev pub AllMarked : List ℕ → List ℕ → Type 0
AllMarked [] m = Unit
AllMarked (v ∷ vs) m = (bit_at m v ≡ 1) × AllMarked vs m

pub AllMarked-mono :
    (vs m m' : List ℕ) → ((u : ℕ) → bit_at m u ≤ bit_at m' u) → AllMarked vs m → AllMarked vs m'
AllMarked-mono [] m m' more all = tt
AllMarked-mono (v ∷ vs) m m' more all =
    (omega (arith, all.0, more v, bit_small m' v), AllMarked-mono vs m m' more all.1)

-- What the loop leaves: the values are marked, no bit is cleared, and the count is that of new bits.
pub record Marked (vs m : List ℕ) (extra : ℕ) (r : List ℕ × ℕ) : Type 0 where
  pub sized : length r.0 ≡ length m
  pub bytes : AllBytes r.0
  pub marked : AllMarked vs r.0
  pub kept : (u : ℕ) → bit_at m u ≤ bit_at r.0 u
  pub counted : ones r.0 + extra ≡ ones m + r.1
  pub added : extra ≤ r.1

pub mark_each-Marked :
    (size : ℕ) (vs m : List ℕ) (extra : ℕ)
    → AllBytes m
    → length m ≡ size
    → AllIn size vs
    → (r : List ℕ × ℕ) × (mark_each size vs m extra ≡ ok r) × Marked vs m extra r
unfolding mark_each
mark_each-Marked size [] m extra bytes len all = (
  (m, extra),
  refl,
  record {
    sized = refl;
    bytes = bytes;
    marked = tt;
    kept = λ u. omega arith;
    counted = refl;
    added = omega arith;
  },
)
mark_each-Marked size (v ∷ vs) m extra bytes len all =
    let lt : v / 8 < length m = omega (arith, len, all.0) in
    let m1 = mark_one v m in
    let extra1 = if is_clear m v then extra + 1 else extra in
    let (r, run, next) =
      mark_each-Marked size vs m1 extra1 (AllBytes-mark_one v m bytes) (length-mark_one v m ∙ len)
        all.1 in
    let within : ltb (v / 8) size ≡ true = ground (arith, all.0) in
    let one = λ (u : ℕ). bit_at-mark_one v u m bytes lt in
    (
      r,
      rw within run,
      record {
        sized = next.sized ∙ length-mark_one v m;
        bytes = next.bytes;
        marked = ((ground (arith, next.kept v, one v, bit_small r.0 v)), next.marked);
        kept = λ u. ground (arith, next.kept u, one u, bit_small m u);
        counted = ground (arith, next.counted, ones-mark_one v m bytes lt);
        added = ground (arith, next.added);
      },
    )

pub check_each-AllMarked :
    (size : ℕ) (vs m : List ℕ)
    → AllBytes m
    → AllIn size vs
    → AllMarked vs m
    → check_each size vs m ≡ ok true
unfolding check_each
check_each-AllMarked size [] m bytes all marked = refl
check_each-AllMarked size (v ∷ vs) m bytes all marked =
    let within : ltb (v / 8) size ≡ true = ground (arith, all.0) in
    let set_ : is_clear m v ≡ false = ground (arith, is_clear_lem m v bytes, marked.0) in
    rw within (rw set_ (check_each-AllMarked size vs m bytes all.1 marked.1))

pub check_each_needs :
    (size : ℕ) (vs m : List ℕ) → AllBytes m → check_each size vs m ≡ ok true → AllMarked vs m
unfolding check_each
check_each_needs size [] m bytes e = tt
check_each_needs size (v ∷ vs) m bytes e = elim (Bool-cases (is_clear m v)) [
  | inl unset ↦ absurd (ground (arith, e, unset))
  | inr marked ↦ (
    ground (arith, is_clear_lem m v bytes, marked),
    check_each_needs size vs m bytes (ground (arith, e, marked)),
  )
]

-- The answer before the marks is whether they set no new bit.
pub check_each-mark_each :
    (size : ℕ) (vs m : List ℕ) (extra : ℕ) (r : List ℕ × ℕ)
    → AllBytes m
    → length m ≡ size
    → AllIn size vs
    → mark_each size vs m extra ≡ ok r
    → check_each size vs m ≡ ok (r.1 == extra)
unfolding mark_each check_each mark_one
check_each-mark_each size [] m extra r bytes len all e = ground (arith, e)
check_each-mark_each size (v ∷ vs) m extra r bytes len all e =
    let within : ltb (v / 8) size ≡ true = ground (arith, all.0) in
    elim (Bool-cases (is_clear m v)) [
      | inr marked ↦
          let rest : mark_each size vs m extra ≡ ok r = rw (within, marked) at e in
          rw within (rw marked (check_each-mark_each size vs m extra r bytes len all.1 rest))
      | inl unset ↦
          let rest : mark_each size vs (mark_one v m) (extra + 1) ≡ ok r =
            mark_each_first size v vs m extra r within unset e in
          let (r', run, next) =
            mark_each-Marked size vs (mark_one v m) (extra + 1) (AllBytes-mark_one v m bytes)
              (length-mark_one v m ∙ len) all.1 in
          let same : r.1 ≡ r'.1 = ground (arith, rest, run) in
          rw within (rw unset (ap ok (ground (arith, same, next.added))))
    ]
  where
    mark_each_first :
        (size v : ℕ) (vs m : List ℕ) (extra : ℕ) (r : List ℕ × ℕ)
        → ltb (v / 8) size ≡ true
        → is_clear m v ≡ true
        → mark_each size (v ∷ vs) m extra ≡ ok r
        → mark_each size vs (mark_one v m) (extra + 1) ≡ ok r
    mark_each_first size v vs m extra r within unset e = ground (arith, within, unset, e)
