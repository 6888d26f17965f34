-- ===== src/MultiHash/Fields.antt =====
-- lib/bloom/khash.cpp: the values of `split`, where a value may be repeated.
use dstreamon.Base.{
  ℕ, zero, suc, ◌+◌, ◌*◌, ◌/◌, ◌%◌, ◌^◌, ◌≤◌, ◌<◌, ◌≡◌, ◌≢◌, refl, sym, ap, ◌∙◌, true, false, List,
  [], ◌∷◌, some, ok, arith, leb, ltb, length, get_elem?, get_elem?_within, get_or, set, length-set,
  drop, inl, inr, Bool-cases,
}
use dstreamon.BitFields.{
  number, field, AllWords, number_from, word_bound, field_within, field_across, field_at,
}
use dstreamon.MultiHash.{Hasher, cut, split, split_from, next_index, low_part, high_part}

pub cut-field :
    (shash : ℕ) (msgdig : List ℕ) (ptr : ℕ)
    → 0 < shash
    → shash < 32
    → AllWords msgdig
    → ptr + shash ≤ 32 * length msgdig
    → cut shash msgdig ptr ≡ some (field (number msgdig) ptr shash)
unfolding cut
cut-field shash msgdig ptr some_bit small words within =
    let b = ptr / 32 in
    let t = ptr % 32 in
    let (low, e) = get_elem?_within msgdig b (omega (arith, within, some_bit)) in
    let at = field_at msgdig ptr shash low words e in
    elim (Bool-cases (ltb 32 (t + shash))) [
      | inl cross ↦
          let over : 32 < t + shash = ground (arith, cross) in
          let (high, e') = get_elem?_within msgdig (b + 1) (omega (arith, within, over)) in
          let next_e : get_elem? msgdig (suc b) ≡ some high =
            ap (get_elem? msgdig) (omega arith) ∙ e' in
          let value : field (number msgdig) ptr shash
              ≡ low_part shash ptr low + high_part shash ptr high =
            at
            ∙ (ap (λ n. field (low + 2 ^ 32 * n) t shash) (number_from (suc b) msgdig high next_e)
                ∙ field_across low high (number (drop (suc (suc b)) msgdig)) t shash
                    (word_bound b msgdig low words e) (omega arith) small over) in
          rw (e, cut) (rw cross (rw e' (ap some (sym value))))
      | inr alone ↦
          let value : field (number msgdig) ptr shash ≡ field low t shash =
            at ∙ field_within low (number (drop (suc b) msgdig)) t shash (ground (arith, alone)) in
          rw (e, cut) (rw alone (ap some (sym value)))
    ]

pub get_or-set_self : (xs : List ℕ) (i v : ℕ) → i < length xs → get_or (set xs i v) i 0 ≡ v
get_or-set_self [] i v lt = absurd (omega arith)
get_or-set_self (x ∷ xs) zero v lt = refl
get_or-set_self (x ∷ xs) (suc i) v lt = get_or-set_self xs i v (omega arith)

pub get_or-set_ne : (xs : List ℕ) (i j v : ℕ) → i ≢ j → get_or (set xs i v) j 0 ≡ get_or xs j 0
get_or-set_ne [] i j v ne = refl
get_or-set_ne (x ∷ xs) zero zero v ne = absurd (ne refl)
get_or-set_ne (x ∷ xs) zero (suc j) v ne = refl
get_or-set_ne (x ∷ xs) (suc i) zero v ne = refl
get_or-set_ne (x ∷ xs) (suc i) (suc j) v ne = get_or-set_ne xs i j v (λ e. ne (ap suc e))

-- What the loop leaves from the index `k` on: earlier values stay, later ones are fields.
Cut : Hasher → List ℕ → ℕ → ℕ → ℕ → List ℕ → List ℕ → Type 0
Cut h msgdig n ptr k res res' =
    ((j : ℕ) → j < k → get_or res' j 0 ≡ get_or res j 0)
    × ((i : ℕ) → i < n → get_or res' (k + i) 0 ≡ field (number msgdig) (ptr + i * h.shash) h.shash)

split_from-Cut :
    (n fuel : ℕ) (h : Hasher) (msgdig : List ℕ) (ptr k : ℕ) (res : List ℕ)
    → h.norep ≡ false
    → 0 < h.shash
    → h.shash < 32
    → AllWords msgdig
    → length msgdig ≡ 6
    → length res ≡ suc h.nhash
    → n + k ≡ suc h.nhash
    → ptr + n * h.shash ≤ 192
    → n < fuel
    → (res' : List ℕ) × (split_from fuel h msgdig ptr k res ≡ ok res')
      × Cut h msgdig n ptr k res res'
unfolding split_from Cut
split_from-Cut n zero h msgdig ptr k res free some_bit small words six len count room enough =
    absurd (omega arith)
split_from-Cut zero (suc fuel) h msgdig ptr k res free some_bit small words six len count room
      enough =
    let over : leb k h.nhash ≡ false = ground (arith, count) in
    (res, rw (over, split_from) refl, (λ j lt. refl, λ i lt. absurd (omega (arith, lt))))
split_from-Cut (suc n) (suc fuel) h msgdig ptr k res free some_bit small words six len count room
      enough =
    let more : leb k h.nhash ≡ true = ground (arith, count) in
    let split_n : suc n * h.shash ≡ h.shash + n * h.shash = grind arith in
    let v = field (number msgdig) ptr h.shash in
    let fits : leb (ptr + h.shash) 192 ≡ true = ground (arith, room, split_n) in
    let drawn : cut h.shash msgdig ptr ≡ some v =
      cut-field h.shash msgdig ptr some_bit small words (omega (arith, room, split_n, six)) in
    let next : next_index h k (set res k v) ≡ suc k = rw free refl in
    let (res', run, (keeps, cuts)) =
      split_from-Cut n fuel h msgdig (ptr + h.shash) (suc k) (set res k v) free some_bit small words
        six (length-set res k v ∙ len) (omega (arith, count)) (omega (arith, room, split_n))
        (omega arith) in
    (
      res',
      rw (more, split_from)
          (rw (drawn, split_from)
            (rw fits
              (ap (λ j. split_from fuel h msgdig (ptr + h.shash) j (set res k v)) next ∙ run))),
      (
        λ j lt. keeps j (omega (arith, lt)) ∙ get_or-set_ne res k j v (λ e. omega (arith, e, lt)),
        λ i lt.
            elim i
                as (λ (i : ℕ).
                  i < suc n
                  → get_or res' (k + i) 0 ≡ field (number msgdig) (ptr + i * h.shash) h.shash) [
                    | zero ↦ λ lt.
                        let k0 : k + 0 ≡ k = omega arith in
                        let p0 : ptr ≡ ptr + 0 * h.shash = omega arith in
                        ap (λ j. get_or res' j 0) k0
                        ∙ (keeps k (omega arith)
                            ∙ (get_or-set_self res k v (omega (arith, len, count))
                                ∙ ap (λ p. field (number msgdig) p h.shash) p0))
                    | suc i ↦ λ lt.
                        let k1 : k + suc i ≡ suc k + i = omega arith in
                        let p1 : ptr + h.shash + i * h.shash ≡ ptr + suc i * h.shash =
                          grind arith in
                        ap (λ j. get_or res' j 0) k1
                        ∙ (cuts i (omega (arith, lt))
                            ∙ ap (λ p. field (number msgdig) p h.shash) p1)
                  ]
              lt,
      ),
    )

-- Where values may be repeated, and six words have bits for them all, `split` succeeds: value `i + 1`
-- is the field of `shash` bits that starts behind those of the `i` values before it.
pub split-field :
    (h : Hasher) (msgdig res : List ℕ) (i : ℕ)
    → h.norep ≡ false
    → 0 < h.shash
    → h.shash < 32
    → AllWords msgdig
    → length msgdig ≡ 6
    → length res ≡ suc h.nhash
    → h.nhash * h.shash ≤ 192
    → i < h.nhash
    → (res' : List ℕ) × (split h msgdig res ≡ ok res')
      × (get_or res' (suc i) 0 ≡ field (number msgdig) (i * h.shash) h.shash)
unfolding split Cut
split-field h msgdig res i free some_bit small words six len room lt =
    let most : h.nhash * 1 ≤ h.nhash * h.shash = grind (arith, some_bit) in
    let (res', run, (keeps, cuts)) =
      split_from-Cut h.nhash 193 h msgdig 0 1 res free some_bit small words six len (omega arith)
        (omega (arith, room)) (omega (arith, room, most)) in
    let index : suc i ≡ 1 + i = omega arith in
    let start : 0 + i * h.shash ≡ i * h.shash = omega arith in
    (
      res',
      run,
      ap (λ j. get_or res' j 0) index
          ∙ (cuts i lt ∙ ap (λ p. field (number msgdig) p h.shash) start),
    )
