-- ===== src/MultiHash/Runs.antt =====
-- lib/bloom/khash.cpp: `split` gives the same values whatever the array held before, each in range.
use native.Mathlib.Nat.{mod-lt}
use dstreamon.Base.{
  ℕ, zero, suc, ◌+◌, ◌-◌, ◌/◌, ◌^◌, ◌≤◌, ◌<◌, ◌≡◌, ◌≢◌, ◌⊎◌, refl, sym, ap, ap₂, ◌∙◌, List, Result,
  ok, err, arith, leb, ltb, ◌==◌, ==_iff, if◌then◌else◌, length, length-set, get_or, set, inl, inr,
  Bool-cases, Option-cases,
}
use dstreamon.BitFields.{AllWords, pow_pos}
use dstreamon.MultiHash.{Hasher, Fault, cut, retract, next_index, split, split_from}
use dstreamon.MultiHash.Fields.{get_or-set_ne, get_or-set_self, cut-field}

-- The arrays have the same values from 1 to before `k`.
abbrev pub Agree : ℕ → List ℕ → List ℕ → Type 0
Agree k a b = (i : ℕ) → 0 < i → i < k → get_or a i 0 ≡ get_or b i 0

abbrev pub Bounded : ℕ → ℕ → List ℕ → Type 0
Bounded size k a = (i : ℕ) → 0 < i → i < k → get_or a i 0 < size

retract-Agree :
    (n i k : ℕ) (a b : List ℕ) → 0 < i → Agree (suc k) a b → retract n i k a ≡ retract n i k b
unfolding retract
retract-Agree zero i k a b some_i same = refl
retract-Agree (suc n) i k a b some_i same = elim (Bool-cases (ltb i k)) [
  | inr done ↦ rw done refl
  | inl more ↦
      let less : i < k = ground (arith, more) in
      let test : (get_or a i 0 == get_or a k 0) ≡ (get_or b i 0 == get_or b k 0) =
        ap₂ ◌==◌ (same i some_i (omega (arith, less)))
          (same k (omega (arith, less)) (omega arith)) in
      rw more (
        rw test (elim (Bool-cases (get_or b i 0 == get_or b k 0)) [
          | inl hit ↦ rw hit (
              retract-Agree n (suc i) (k - 1) a b (omega arith)
                (λ j some_j lt. same j some_j (omega (arith, lt, less))))
          | inr miss ↦ rw miss (retract-Agree n (suc i) k a b (omega arith) same)
        ]))
]

retract-le : (n i k : ℕ) (a : List ℕ) → retract n i k a ≤ k
unfolding retract
retract-le zero i k a = omega arith
retract-le (suc n) i k a =
    ground (arith, retract-le n (suc i) (if get_or a i 0 == get_or a k 0 then k - 1 else k) a)

Agree-set :
    (a b : List ℕ) (k v : ℕ)
    → k < length a
    → k < length b
    → Agree k a b
    → Agree (suc k) (set a k v) (set b k v)
Agree-set a b k v lt lt' same i some_i within = elim (Bool-cases (i == k)) [
  | inl here ↦
      let e = (==_iff i k).0 here in
      ap (λ j. get_or (set a k v) j 0) e
      ∙ (get_or-set_self a k v lt
          ∙ (sym (get_or-set_self b k v lt') ∙ ap (λ j. get_or (set b k v) j 0) (sym e)))
  | inr before ↦
      let ne : k ≢ i = λ e. ground (arith, before, e) in
      get_or-set_ne a k i v ne
      ∙ (same i some_i (ground (arith, within, before)) ∙ sym (get_or-set_ne b k i v ne))
]

Bounded-set :
    (size : ℕ) (a : List ℕ) (k v : ℕ)
    → k < length a
    → v < size
    → Bounded size k a
    → Bounded size (suc k) (set a k v)
Bounded-set size a k v lt small all i some_i within = elim (Bool-cases (i == k)) [
  | inl here ↦
      let e = (==_iff i k).0 here in
      let at : get_or (set a k v) i 0 ≡ v =
        ap (λ j. get_or (set a k v) j 0) e ∙ get_or-set_self a k v lt in
      omega (arith, at, small)
  | inr before ↦
      let ne : k ≢ i = λ e. ground (arith, before, e) in
      let at = get_or-set_ne a k i v ne in
      omega (arith, at, all i some_i (ground (arith, within, before)))
]

-- Two runs fail alike, or give the same values, below the size.
abbrev pub Alike : Hasher → Result Fault (List ℕ) → Result Fault (List ℕ) → Type 0
Alike h r r' =
    ((e : Fault) × (r ≡ err e) × (r' ≡ err e))
    ⊎ ((a : List ℕ) × (b : List ℕ) × (r ≡ ok a)
        × (r' ≡ ok b)
        × Agree (suc h.nhash) a b
        × Bounded (2 ^ h.shash) (suc h.nhash) a
        × (length a ≡ suc h.nhash))

split_from-Alike :
    (fuel : ℕ) (h : Hasher) (msgdig : List ℕ) (ptr k : ℕ) (a b : List ℕ)
    → 0 < h.shash
    → h.shash < 32
    → AllWords msgdig
    → length msgdig ≡ 6
    → length a ≡ suc h.nhash
    → length b ≡ suc h.nhash
    → Agree k a b
    → Bounded (2 ^ h.shash) k a
    → Alike h (split_from fuel h msgdig ptr k a) (split_from fuel h msgdig ptr k b)
unfolding split_from
split_from-Alike zero h msgdig ptr k a b some_bit small words six len len' same all =
    inl (_, refl, refl)
split_from-Alike (suc fuel) h msgdig ptr k a b some_bit small words six len len' same all =
    elim (Bool-cases (leb k h.nhash)) [
      | inr over ↦
          let last : suc h.nhash ≤ k = ground (arith, over) in
          rw (over, split_from)
            (inr (
              a,
              b,
              refl,
              refl,
              λ i some_i lt. same i some_i (omega (arith, lt, last)),
              λ i some_i lt. all i some_i (omega (arith, lt, last)),
              len,
            ))
      | inl more ↦ elim (Option-cases (cut h.shash msgdig ptr)) [
        | inl no_word ↦ rw (more, split_from) (rw (no_word, split_from) (inl (_, refl, refl)))
        | inr (v, drawn) ↦ elim (Bool-cases (leb (ptr + h.shash) 192)) [
          | inr full ↦
              rw (more, split_from) (rw (drawn, split_from) (rw full (inl (_, refl, refl))))
          | inl fits ↦
              let field_ =
                cut-field h.shash msgdig ptr some_bit small words (ground (arith, fits, six)) in
              let bound : v < 2 ^ h.shash = ground (
                arith,
                drawn,
                field_,
                mod-lt (dstreamon.BitFields.number msgdig / 2 ^ ptr) (pow_pos h.shash),
              ) in
              let lt : k < length a = ground (arith, more, len) in
              let lt' : k < length b = ground (arith, more, len') in
              let same' = Agree-set a b k v lt lt' same in
              let all' = Bounded-set (2 ^ h.shash) a k v lt bound all in
              let index : next_index h k (set a k v) ≡ next_index h k (set b k v) =
                ap (λ j. suc (if h.norep then j else k))
                  (retract-Agree k 1 k (set a k v) (set b k v) (omega arith) same') in
              let upto : next_index h k (set b k v) ≤ suc k =
                ground (arith, retract-le k 1 k (set b k v)) in
              rw (more, split_from)
                (rw (drawn, split_from)
                  (rw fits (
                    rw index (
                      split_from-Alike fuel h msgdig (ptr + h.shash) (next_index h k (set b k v))
                        (set a k v) (set b k v) some_bit small words six (length-set a k v ∙ len)
                        (length-set b k v ∙ len')
                        (λ i some_i lt''. same' i some_i (omega (arith, lt'', upto)))
                        (λ i some_i lt''. all' i some_i (omega (arith, lt'', upto)))))))
        ]
      ]
    ]

pub split-Alike :
    (h : Hasher) (msgdig : List ℕ) (a b : List ℕ)
    → 0 < h.shash
    → h.shash < 32
    → AllWords msgdig
    → length msgdig ≡ 6
    → length a ≡ suc h.nhash
    → length b ≡ suc h.nhash
    → Alike h (split h msgdig a) (split h msgdig b)
unfolding split
split-Alike h msgdig a b some_bit small words six len len' =
    split_from-Alike 193 h msgdig 0 1 a b some_bit small words six len len'
      (λ i some_i lt. absurd (omega (arith, some_i, lt)))
      (λ i some_i lt. absurd (omega (arith, some_i, lt)))
