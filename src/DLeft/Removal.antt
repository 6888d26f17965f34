-- ===== src/DLeft/Removal.antt =====
-- lib/streamon/DLeft.cpp: what a removal leaves.
use dstreamon.Base.{
  ℕ, zero, suc, ◌+◌, ◌-◌, ◌≡◌, ◌≢◌, ◌⊎◌, refl, sym, ap, ◌∙◌, true, false, not, List, [], ◌∷◌, none,
  some, ok, arith, ◌==◌, if◌then◌else◌, get_or, set, inl, inr, Option-cases,
}
use dstreamon.DLeft.{DLeft, Key, read, remove, update, mark}
use dstreamon.DLeft.Places.{fingerprint, HasBits, index_of, place, probe_from}
use dstreamon.DLeft.Probes.{probe_from-mark, length-update, AllSized-update}
use dstreamon.DLeft.Objects.{object_of-mark}
use dstreamon.DLeft.Reserve.{WellFormed}
use dstreamon.DLeft.Lookup.{table_of, slot_in, object_in, get-index_of, read-index_of}
use dstreamon.DLeft.Others.{index_of_entry, table_of-mark, get_or-probe_from_shared}

-- How often a number stands in a list.
unfoldable pub occurrences : ℕ → List ℕ → ℕ
occurrences h [] = 0
occurrences h (k ∷ ks) = (if k == h then 1 else 0) + occurrences h ks

occurrences_missing : (h : ℕ) (ks : List ℕ) → index_of h ks ≡ none → occurrences h ks ≡ 0
unfolding index_of occurrences
occurrences_missing h [] e = refl
occurrences_missing h (k ∷ ks) e = elim (Option-cases (index_of h ks)) [
  | inl missing ↦ ground (arith, e, missing, occurrences_missing h ks missing)
  | inr (m, at) ↦ absurd (ground (arith, e, at))
]

occurrences-set :
    (h : ℕ) (ks : List ℕ) (m : ℕ)
    → h ≢ 0
    → index_of h ks ≡ some m
    → suc (occurrences h (set ks m 0)) ≡ occurrences h ks
unfolding index_of occurrences
occurrences-set h [] m ne e = absurd (ground (arith, e))
occurrences-set h (k ∷ ks) zero ne e = elim (Option-cases (index_of h ks)) [
  | inl missing ↦ ground (arith, e, missing)
  | inr (m', at) ↦ ground (arith, e, at)
]
occurrences-set h (k ∷ ks) (suc m) ne e = elim (Option-cases (index_of h ks)) [
  | inl missing ↦ absurd (ground (arith, e, missing))
  | inr (m', at) ↦
      let same_m : m ≡ m' = ground (arith, e, at) in
      let other : (k == h) ≡ false = ground (arith, e) in
      rw other (ground (arith, occurrences-set h ks m ne (rw same_m at)))
]

pub occurrences_put :
    (h : ℕ) (ks : List ℕ) (m : ℕ)
    → h ≢ 0
    → get_or ks m 1 ≡ 0
    → occurrences h (set ks m h) ≡ suc (occurrences h ks)
unfolding occurrences
occurrences_put h [] m ne e = absurd (ground (arith, e))
occurrences_put h (k ∷ ks) zero ne e = ground (arith, e, ne)
occurrences_put h (k ∷ ks) (suc m) ne e = ground (arith, occurrences_put h ks m ne e)

pub set-set : (ks : List ℕ) (m x y : ℕ) → set (set ks m x) m y ≡ set ks m y
set-set [] m x y = refl
set-set (k ∷ ks) zero x y = refl
set-set (k ∷ ks) (suc m) x y = ap (λ t. k ∷ t) (set-set ks m x y)

module _ {ℓ} {V : Type ℓ} where
  -- How often the fingerprint of a key stands at the key's places.
  abbrev pub copies : Key → DLeft V → ℕ
  copies key d = occurrences (fingerprint key) (probe_from key d.shash 0 d.tables)

  abbrev pub removed : Key → DLeft V → ℕ → DLeft V
  removed key d m = record d { tables = update (mark 0) m (place key d.shash m) d.tables }

  pub WellFormed-removed :
      (key : Key) (d : DLeft V) (m : ℕ) → WellFormed d → WellFormed (removed key d m)
  WellFormed-removed key d m good =
      let p = place key d.shash m in
      let len = length-update (mark 0) m p d.tables in
      (
        AllSized-update d.shash (mark 0) m p d.tables good.0,
        omega (arith, len, good.1),
        omega (arith, len, good.2),
      )

  -- The two ways a removal can go.
  pub remove_places :
      (key : Key) (d : DLeft V)
      → HasBits key d.shash d.nhash
      → WellFormed d
      → ((table_of key d.shash d.tables ≡ none) × (remove key d ≡ (ok false, d)))
        ⊎ ((m : ℕ) × (table_of key d.shash d.tables ≡ some m)
            × (remove key d ≡ (ok true, removed key d m)))
  unfolding remove
  remove_places key d bits good =
      let e = get-index_of key d bits good in
      elim (Option-cases (table_of key d.shash d.tables)) [
        | inl missing ↦
            inl (missing, rw (e ∙ ap (λ o. ok (slot_in key d.shash o)) missing, remove) refl)
        | inr (m, at) ↦ inr (m, at, rw (e ∙ ap (λ o. ok (slot_in key d.shash o)) at, remove) refl)
      ]

  pub probe_from-removed :
      (key : Key) (d : DLeft V) (m : ℕ)
      → WellFormed d
      → probe_from key d.shash 0 (removed key d m).tables
        ≡ set (probe_from key d.shash 0 d.tables) m 0
  probe_from-removed key d m good =
      let m0 : 0 + m ≡ m = omega arith in
      probe_from-mark key d.shash 0 m 0 (place key d.shash m) d.tables good.0
        (ap (place key d.shash) m0)

  -- A removal from a table in order, with a digest that has the bits and a fingerprint that is not
  -- zero: it returns whether the fingerprint stands at any of the key's places, takes away exactly
  -- one of its copies there if so, and leaves the table in order.
  pub remove_lem :
      (key : Key) (d : DLeft V)
      → HasBits key d.shash d.nhash
      → WellFormed d
      → fingerprint key ≢ 0
      → let (r, d') = remove key d in
        (r ≡ ok (not (copies key d == 0))) × (copies key d' ≡ copies key d - 1) × WellFormed d'
  remove_lem key d bits good some_key = elim (remove_places key d bits good) [
    | inl (missing, run) ↦
        let gone : copies key d ≡ 0 =
          occurrences_missing (fingerprint key) (probe_from key d.shash 0 d.tables) missing in
        rw run (ap ok (ground (arith, gone)), omega (arith, gone), good)
    | inr (m, at, run) ↦
        let one : suc (copies key (removed key d m)) ≡ copies key d =
          ap (λ ks. suc (occurrences (fingerprint key) ks)) (probe_from-removed key d m good)
          ∙ occurrences-set (fingerprint key) (probe_from key d.shash 0 d.tables) m some_key at in
        rw run (ap ok (ground (arith, one)), omega (arith, one), WellFormed-removed key d m good)
  ]

  -- A removal leaves what is read under any key whose fingerprint is another and not zero.
  pub read_other-remove :
      (key other : Key) (d : DLeft V)
      → HasBits key d.shash d.nhash
      → HasBits other d.shash d.nhash
      → WellFormed d
      → fingerprint other ≢ fingerprint key
      → fingerprint other ≢ 0
      → read other (remove key d).1 ≡ read other d
  read_other-remove key other d bits other_bits good ne some_key =
      elim (remove_places key d bits good) [
        | inl (missing, run) ↦ ap (λ r. read other r.1) run
        | inr (m, at, run) ↦
            let h = fingerprint key in
            let p = place key d.shash m in
            let d' = removed key d m in
            let m0 : 0 + m ≡ m = omega arith in
            let old : place other d.shash m ≡ p
                → fingerprint other ≢ get_or (probe_from other d.shash 0 d.tables) m 1 =
              λ here e. ne (
                e
                ∙ (get_or-probe_from_shared key other d.shash 0 m d.tables
                      (ap (place other d.shash) m0 ∙ (here ∙ ap (place key d.shash) (sym m0)))
                    ∙ index_of_entry h (probe_from key d.shash 0 d.tables) m at)) in
            let same = table_of-mark other d.shash m p 0 d.tables good.0 some_key old in
            ap (λ r. read other r.1) run
            ∙ (read-index_of other d' other_bits (WellFormed-removed key d m good)
                ∙ (ap (λ o. ok (object_in other d.shash d'.tables o)) same
                    ∙ (elim (Option-cases (table_of other d.shash d.tables)) [
                      | inl missing ↦ rw missing refl
                      | inr (j, here) ↦
                          rw here (ap ok (object_of-mark 0 m p j (place other d.shash j) d.tables))
                    ]
                        ∙ sym (read-index_of other d other_bits good))))
      ]
