-- ===== src/MultiHash/Distinct.antt =====
-- lib/bloom/khash.cpp: the values of `split`, where no value may be repeated.
use dstreamon.Base.{
  ℕ, zero, suc, ◌+◌, ◌-◌, ◌≤◌, ◌<◌, ◌≡◌, ◌≢◌, ◌⊎◌, refl, sym, ap, ◌∙◌, true, false, List, Result,
  ok, err, arith, leb, ltb, ◌==◌, ==_iff, get_or, set, inl, inr, Bool-cases, Option-cases, subst,
}
use dstreamon.MultiHash.{
  Hasher, Fault, assertion_failed, read_outside, cut, retract, next_index, split, split_from,
}
use dstreamon.MultiHash.Fields.{get_or-set_ne}

-- The values before the index `k` are distinct; the values from `i` to `k` are not that at `k`.
abbrev Distinct : ℕ → List ℕ → Type 0
Distinct k res = (i j : ℕ) → 0 < i → i < j → j < k → get_or res i 0 ≢ get_or res j 0

abbrev NewFrom : ℕ → ℕ → List ℕ → Type 0
NewFrom i k res = (j : ℕ) → i ≤ j → j < k → get_or res j 0 ≢ get_or res k 0

-- Behind a repetition, the loop goes on with distinct values.
retract_stays : (n i k : ℕ) (res : List ℕ) → NewFrom i k res → retract n i k res ≡ k
unfolding retract
retract_stays zero i k res new = refl
retract_stays (suc n) i k res new = elim (Bool-cases (ltb i k)) [
  | inr done ↦ rw done refl
  | inl more ↦
      let less : i < k = ground (arith, more) in
      let other : (get_or res i 0 == get_or res k 0) ≡ false =
        ground (arith, new i (omega arith) less) in
      rw more (rw other (retract_stays n (suc i) k res (λ j le lt. new j (omega (arith, le)) lt)))
]

retract_lem :
    (n i k : ℕ) (res : List ℕ)
    → 0 < i
    → i ≤ k
    → k ≤ n + i
    → Distinct k res
    → ((retract n i k res ≡ k) × NewFrom i k res) ⊎ (suc (retract n i k res) ≡ k)
unfolding retract
retract_lem zero i k res some_i le enough distinct =
    inl (refl, λ j le' lt. absurd (omega (arith, le', lt)))
retract_lem (suc n) i k res some_i le enough distinct = elim (Bool-cases (ltb i k)) [
  | inr done ↦
      let last : k ≤ i = ground (arith, done) in
      rw done (inl (refl, λ j le' lt. absurd (omega (arith, le', lt, last))))
  | inl more ↦
      let less : i < k = ground (arith, more) in
      elim (Bool-cases (get_or res i 0 == get_or res k 0)) [
        | inl same ↦
            let new : NewFrom (suc i) (k - 1) res =
              λ j le' lt. λ e. distinct j (k - 1) (omega (arith, le')) lt (omega (arith, less)) e in
            rw more (
              rw same
                (inr (ap suc (retract_stays n (suc i) (k - 1) res new) ∙ omega (arith, less))))
        | inr other ↦
            elim (retract_lem n (suc i) k res (omega arith) (omega (arith, less)) (omega arith)
              distinct) [
                | inr back ↦ rw more (rw other (inr back))
                | inl (stays, new) ↦ rw more (
                    rw other (
                      inl (
                        stays,
                        λ j le' lt. elim (Bool-cases (j == i)) [
                          | inl here ↦ λ e. ground (
                            arith,
                            here,
                            other,
                            e,
                            ap (λ l. get_or res l 0) ((==_iff j i).0 here),
                          )
                          | inr later ↦ new j (ground (arith, later, le')) lt
                        ],
                      )))
              ]
      ]
]

-- After a round, the values before the next index are distinct.
Distinct-next_index :
    (h : Hasher) (k v : ℕ) (res : List ℕ)
    → h.norep ≡ true
    → 0 < k
    → Distinct k res
    → (0 < next_index h k (set res k v)) × Distinct (next_index h k (set res k v)) (set res k v)
Distinct-next_index h k v res once some_k distinct =
    let res' = set res k v in
    let before : Distinct k res' = λ i j some_i lt lt' e. distinct i j some_i lt lt' (
      sym (get_or-set_ne res k i v (λ e'. omega (arith, e', lt, lt')))
      ∙ (e ∙ get_or-set_ne res k j v (λ e'. omega (arith, e', lt')))) in
    let index : next_index h k res' ≡ suc (retract k 1 k res') = rw once refl in
    subst (λ l. (0 < l) × Distinct l res') (sym index)
      (
        omega arith,
        elim (retract_lem k 1 k res' (omega arith) (omega arith) (omega arith) before) [
          | inr back ↦ λ i j some_i lt lt'. before i j some_i lt (omega (arith, lt', back))
          | inl (stays, new) ↦ λ i j some_i lt lt'. elim (Bool-cases (j == k)) [
            | inl here ↦ λ e.
                new i (omega (arith, some_i)) (ground (arith, lt, here))
                  (e ∙ ap (λ l. get_or res' l 0) ((==_iff j k).0 here))
            | inr earlier ↦ before i j some_i lt (ground (arith, lt', stays, earlier))
          ]
        ],
      )

-- Ends in one of the ways it may, with distinct values if it succeeds.
abbrev Ends : Hasher → ℕ → ℕ → Result Fault (List ℕ) → Type 0
Ends h i j r =
    (r ≡ err assertion_failed)
    ⊎ (r ≡ err read_outside)
    ⊎ ((res' : List ℕ) × (r ≡ ok res') × (get_or res' i 0 ≢ get_or res' j 0))

split_from-Ends :
    (fuel : ℕ) (h : Hasher) (msgdig : List ℕ) (ptr k : ℕ) (res : List ℕ) (i j : ℕ)
    → h.norep ≡ true
    → 0 < h.shash
    → 192 < fuel + ptr
    → ptr ≤ 192
    → 0 < k
    → Distinct k res
    → 0 < i
    → i < j
    → j ≤ h.nhash
    → Ends h i j (split_from fuel h msgdig ptr k res)
unfolding split_from
split_from-Ends zero h msgdig ptr k res i j once some_bit enough room some_k distinct some_i lt le =
    absurd (omega arith)
split_from-Ends (suc fuel) h msgdig ptr k res i j once some_bit enough room some_k distinct some_i
      lt le =
    elim (Bool-cases (leb k h.nhash)) [
      | inr over ↦
          rw (over, split_from)
            (inr (inr (res, refl, distinct i j some_i lt (ground (arith, over, le)))))
      | inl more ↦ elim (Option-cases (cut h.shash msgdig ptr)) [
        | inl no_word ↦ rw (more, split_from) (rw (no_word, split_from) (inr (inl refl)))
        | inr (v, drawn) ↦ elim (Bool-cases (leb (ptr + h.shash) 192)) [
          | inr full ↦ rw (more, split_from) (rw (drawn, split_from) (rw full (inl refl)))
          | inl fits ↦
              let (some_k', distinct') = Distinct-next_index h k v res once some_k distinct in
              rw (more, split_from)
                (rw (drawn, split_from)
                  (rw fits (
                    split_from-Ends fuel h msgdig (ptr + h.shash) (next_index h k (set res k v))
                      (set res k v) i j once some_bit (omega (arith, enough, some_bit))
                      (ground (arith, fits)) some_k' distinct' some_i lt le)))
        ]
      ]
    ]

-- Where no value may be repeated, and values have a bit at least, `split` always ends, though a
-- repeated value is drawn again: with an assertion, with a read behind the words, or with values of
-- which no two are equal.
pub split_distinct :
    (h : Hasher) (msgdig res : List ℕ) (i j : ℕ)
    → h.norep ≡ true
    → 0 < h.shash
    → 0 < i
    → i < j
    → j ≤ h.nhash
    → (split h msgdig res ≡ err assertion_failed)
      ⊎ (split h msgdig res ≡ err read_outside)
      ⊎ ((res' : List ℕ) × (split h msgdig res ≡ ok res') × (get_or res' i 0 ≢ get_or res' j 0))
unfolding split
split_distinct h msgdig res i j once some_bit some_i lt le =
    split_from-Ends 193 h msgdig 0 1 res i j once some_bit (omega arith) (omega arith) (omega arith)
      (λ i' j' some_i' lt' lt''. absurd (omega (arith, some_i', lt', lt''))) some_i lt le
