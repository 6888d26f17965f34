-- ===== src/DLeft/Others.antt =====
-- lib/streamon/DLeft.cpp: what an addition does to the other keys.
use dstreamon.Base.{
  ℕ, zero, suc, ◌+◌, ◌^◌, ◌<◌, ◌≡◌, ◌≢◌, ◌⊎◌, refl, sym, ap, ◌∙◌, List, [], ◌∷◌, ◌++◌, some, ok,
  arith, ◌==◌, ==_iff, length, get_or, inl, inr, Option-cases, Bool-cases,
}
use dstreamon.DLeft.{
  DLeft, Node, Key, read, add, update, mark, store, node_at, object_of, new_table,
}
use dstreamon.DLeft.Places.{
  fingerprint, HasBits, index_of, vacancy, place, probe_from, AllSized, hash_key_at,
}
use dstreamon.DLeft.Probes.{
  index_of-set, index_of-append, probe_from-mark, probe_from-store, probe_from_away,
  probe_from-append, length-probe_from, hash_key_at-replicate,
}
use dstreamon.DLeft.Objects.{node_at-update, object_of-mark, node_at-append}
use dstreamon.DLeft.Reserve.{WellFormed, Grown}
use dstreamon.DLeft.Lookup.{
  table_of, object_in, added, add_places, Grown-AllSized, WellFormed-added, read-index_of,
  index_of_within,
}

pub vacancy_entry :
    (h : ℕ) (ks : List ℕ) (m : ℕ)
    → vacancy h ks ≡ some m
    → (get_or ks m 1 ≡ 0) ⊎ (get_or ks m 1 ≡ h)
unfolding vacancy
vacancy_entry h [] m e = absurd (ground (arith, e))
vacancy_entry h (k ∷ ks) zero e = elim (Option-cases (vacancy h ks)) [
  | inl no_place ↦ ground (arith, e, no_place)
  | inr (m', at) ↦ ground (arith, e, at)
]
vacancy_entry h (k ∷ ks) (suc m) e = elim (Option-cases (vacancy h ks)) [
  | inl no_place ↦ absurd (ground (arith, e, no_place))
  | inr (m', at) ↦
      let same_m : m ≡ m' = ground (arith, e, at) in vacancy_entry h ks m (rw same_m at)
]

pub index_of_entry : (h : ℕ) (ks : List ℕ) (m : ℕ) → index_of h ks ≡ some m → get_or ks m 1 ≡ h
unfolding index_of
index_of_entry h [] m e = absurd (ground (arith, e))
index_of_entry h (k ∷ ks) zero e = elim (Option-cases (index_of h ks)) [
  | inl missing ↦ ground (arith, e, missing)
  | inr (m', at) ↦ ground (arith, e, at)
]
index_of_entry h (k ∷ ks) (suc m) e = elim (Option-cases (index_of h ks)) [
  | inl missing ↦ absurd (ground (arith, e, missing))
  | inr (m', at) ↦
      let same_m : m ≡ m' = ground (arith, e, at) in index_of_entry h ks m (rw same_m at)
]

module _ {ℓ} {V : Type ℓ} where
  -- Two keys with one place in a table see the same node there.
  pub get_or-probe_from_shared :
      (key other : Key) (shash i j : ℕ) (ts : List (List (Node V)))
      → place other shash (i + j) ≡ place key shash (i + j)
      → get_or (probe_from other shash i ts) j 1 ≡ get_or (probe_from key shash i ts) j 1
  unfolding probe_from
  get_or-probe_from_shared key other shash i j [] e = refl
  get_or-probe_from_shared key other shash i zero (t ∷ ts) e =
      let i0 : i + 0 ≡ i = omega arith in
      ap (hash_key_at t) (ap (place other shash) (sym i0) ∙ (e ∙ ap (place key shash) i0))
  get_or-probe_from_shared key other shash i (suc j) (t ∷ ts) e =
      let shift : suc i + j ≡ i + suc j = omega arith in
      get_or-probe_from_shared key other shash (suc i) j ts
        (ap (place other shash) shift ∙ (e ∙ ap (place key shash) (sym shift)))

  -- To mark a node with `x`, where neither `x` nor what was there is the fingerprint of a key,
  -- leaves what the key finds.
  pub table_of-mark :
      (other : Key) (shash m p x : ℕ) (ts : List (List (Node V)))
      → AllSized shash ts
      → fingerprint other ≢ x
      → (place other shash m ≡ p → fingerprint other ≢ get_or (probe_from other shash 0 ts) m 1)
      → table_of other shash (update (mark x) m p ts) ≡ table_of other shash ts
  table_of-mark other shash m p x ts sized new old =
      let m0 : 0 + m ≡ m = omega arith in
      elim (Bool-cases (place other shash m == p)) [
        | inl here ↦
            let e = (==_iff (place other shash m) p).0 here in
            ap (index_of (fingerprint other))
              (probe_from-mark other shash 0 m x p ts sized (ap (place other shash) m0 ∙ e))
            ∙ index_of-set (fingerprint other) (probe_from other shash 0 ts) m x new (old e)
        | inr away ↦
            let ne : place other shash (0 + m) ≢ p =
              λ e. ground (arith, away, ap (place other shash) (sym m0) ∙ e) in
            ap (index_of (fingerprint other)) (probe_from_away other shash 0 m p (mark x) ts ne)
      ]

  table_of-Grown :
      (blank : V) (other : Key) (d : DLeft V) (ts : List (List (Node V)))
      → Grown blank d ts
      → fingerprint other ≢ 0
      → table_of other d.shash ts ≡ table_of other d.shash d.tables
  table_of-Grown blank other d ts (inl e) some_key = ap (table_of other d.shash) e
  table_of-Grown blank other d ts (inr (room, e)) some_key =
      let empty =
        hash_key_at-replicate (2 ^ d.shash) (place other d.shash (0 + length d.tables)) blank in
      ap (table_of other d.shash) e
      ∙ (ap (index_of (fingerprint other)) (
            probe_from-append other d.shash 0 d.tables (new_table blank d.shash)
            ∙ ap (λ k. probe_from other d.shash 0 d.tables ++ (k ∷ [])) empty)
          ∙ index_of-append (fingerprint other) (probe_from other d.shash 0 d.tables) some_key)

  node_at-Grown :
      (blank : V) (d : DLeft V) (ts : List (List (Node V))) (j q : ℕ)
      → Grown blank d ts
      → j < length d.tables
      → node_at j q ts ≡ node_at j q d.tables
  node_at-Grown blank d ts j q (inl e) lt = ap (node_at j q) e
  node_at-Grown blank d ts j q (inr (room, e)) lt =
      ap (node_at j q) e ∙ node_at-append j q d.tables (new_table blank d.shash) lt

  -- Where a key is found, an addition for another fingerprint writes elsewhere.
  apart :
      (key other : Key) (shash j m : ℕ) (ts : List (List (Node V)))
      → fingerprint other ≢ fingerprint key
      → fingerprint other ≢ 0
      → vacancy (fingerprint key) (probe_from key shash 0 ts) ≡ some m
      → table_of other shash ts ≡ some j
      → (j ≢ m) ⊎ (place other shash j ≢ place key shash m)
  apart key other shash j m ts ne some_key found at = elim (Bool-cases (j == m)) [
    | inr away ↦ inl (λ e. ground (arith, away, e))
    | inl here ↦
        let e = (==_iff j m).0 here in
        let m0 : 0 + m ≡ m = omega arith in
        inr (λ same.
          let shared : get_or (probe_from other shash 0 ts) m 1
              ≡ get_or (probe_from key shash 0 ts) m 1 =
            get_or-probe_from_shared key other shash 0 m ts
              (ap (place other shash) (m0 ∙ sym e) ∙ (same ∙ ap (place key shash) (sym m0))) in
          let mine : get_or (probe_from other shash 0 ts) m 1 ≡ fingerprint other =
            index_of_entry (fingerprint other) (probe_from other shash 0 ts) m (at ∙ ap some e) in
          elim (vacancy_entry (fingerprint key) (probe_from key shash 0 ts) m found) [
            | inl empty ↦ absurd (some_key (sym mine ∙ (shared ∙ empty)))
            | inr held ↦ absurd (ne (sym mine ∙ (shared ∙ held)))
          ])
  ]

  table_of-added :
      (blank : V) (key other : Key) (v : V) (d : DLeft V) (ts : List (List (Node V))) (m : ℕ)
      → AllSized d.shash ts
      → Grown blank d ts
      → fingerprint other ≢ fingerprint key
      → fingerprint other ≢ 0
      → vacancy (fingerprint key) (probe_from key d.shash 0 ts) ≡ some m
      → table_of other d.shash (added key v d ts m) ≡ table_of other d.shash d.tables
  table_of-added blank key other v d ts m sized grown ne some_key found =
      let p = place key d.shash m in
      let m0 : 0 + m ≡ m = omega arith in
      let old : place other d.shash m ≡ p
          → fingerprint other ≢ get_or (probe_from other d.shash 0 ts) m 1 =
        λ here e.
          let shared =
            get_or-probe_from_shared key other d.shash 0 m ts
              (ap (place other d.shash) m0 ∙ (here ∙ ap (place key d.shash) (sym m0))) in
          elim (vacancy_entry (fingerprint key) (probe_from key d.shash 0 ts) m found) [
            | inl empty ↦ some_key (e ∙ (shared ∙ empty))
            | inr held ↦ ne (e ∙ (shared ∙ held))
          ] in
      ap (index_of (fingerprint other))
        (probe_from-store other d.shash 0 m p v (update (mark (fingerprint key)) m p ts))
      ∙ (table_of-mark other d.shash m p (fingerprint key) ts sized ne old
          ∙ table_of-Grown blank other d ts grown some_key)

  -- In a table in order, with digests that have the bits, an addition leaves what is read under any
  -- key whose fingerprint is another and not zero, whether or not the addition finds a place.
  pub read_other-add :
      (blank : V) (key other : Key) (v : V) (d : DLeft V)
      → HasBits key d.shash d.nhash
      → HasBits other d.shash d.nhash
      → WellFormed d
      → fingerprint other ≢ fingerprint key
      → fingerprint other ≢ 0
      → read other (add blank key v d).1 ≡ read other d
  read_other-add blank key other v d bits other_bits good ne some_key =
      elim (add_places blank key v d bits good) [
        | inr (full, all, run) ↦ ap (λ r. read other r.1) run
        | inl (m, ts, grown, found, run) ↦
            let h = fingerprint key in
            let p = place key d.shash m in
            let sized = Grown-AllSized blank d ts grown good in
            let d' : DLeft V = record d { tables = added key v d ts m } in
            let after = read-index_of other d' other_bits (WellFormed-added key v d ts m sized) in
            let before = read-index_of other d other_bits good in
            let at = table_of-added blank key other v d ts m sized.0 grown ne some_key found in
            ap (λ r. read other r.1) run
            ∙ (after
                ∙ (ap (λ o. ok (object_in other d.shash d'.tables o)) at
                    ∙ (elim (Option-cases (table_of other d.shash d.tables)) [
                      | inl missing ↦ rw missing refl
                      | inr (j, here) ↦
                          let q = place other d.shash j in
                          let elsewhere =
                            apart key other d.shash j m ts ne some_key found
                              (table_of-Grown blank other d ts grown some_key ∙ here) in
                          let within : j < length d.tables = omega (
                            arith,
                            length-probe_from other d.shash 0 d.tables,
                            index_of_within (fingerprint other)
                                (probe_from other d.shash 0 d.tables) j here,
                          ) in
                          rw here (
                            ap ok (
                              ap object_of (
                                node_at-update (store v) m p j q (update (mark h) m p ts) elsewhere)
                              ∙ (object_of-mark h m p j q ts
                                  ∙ ap object_of (node_at-Grown blank d ts j q grown within))))
                    ]
                        ∙ sym before)))
      ]
