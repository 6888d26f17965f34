-- ===== src/DLeft/Lookup.antt =====
-- lib/streamon/DLeft.cpp: what is read after an addition.
use dstreamon.Base.{
  ℕ, zero, suc, ◌+◌, ◌^◌, ◌≤◌, ◌<◌, ◌≡◌, ◌⊎◌, refl, sym, ap, ◌∙◌, List, [], ◌∷◌, Option, none, some,
  ok, arith, length, length-append, length-replicate, inl, inr, Option-cases, subst,
}
use dstreamon.DLeft.{
  DLeft, Node, Key, Slot, Fault, get, read, add, update, mark, store, node_at, object_of, new_table,
  write_found,
}
use dstreamon.DLeft.Places.{
  fingerprint, HasBits, index_of, vacancy, place, place_bound, probe_from, slot_of, AllSized,
  find_key-index_of,
}
use dstreamon.DLeft.Probes.{
  index_of-vacancy, vacancy_within, length-update, AllSized-update, AllSized-append,
  probe_from-mark, probe_from-store, length-probe_from,
}
use dstreamon.DLeft.Objects.{object_of-store}
use dstreamon.DLeft.Reserve.{WellFormed, Grown, start-cursor, reserve_places}

pub index_of_within : (h : ℕ) (ks : List ℕ) (m : ℕ) → index_of h ks ≡ some m → m < length ks
unfolding index_of
index_of_within h [] m e = absurd (ground (arith, e))
index_of_within h (k ∷ ks) zero e = omega arith
index_of_within h (k ∷ ks) (suc m) e = elim (Option-cases (index_of h ks)) [
  | inl missing ↦ absurd (ground (arith, e, missing))
  | inr (m', at) ↦
      let same_m : m ≡ m' = ground (arith, e, at) in
      omega (arith, index_of_within h ks m (rw same_m at))
]

abbrev pub slot_in : Key → ℕ → Option ℕ → Option Slot
slot_in key shash none = none
slot_in key shash (some m) = some (m, place key shash m)

slot_in-slot_of :
    (key : Key) (shash : ℕ) (o : Option ℕ) → slot_of key shash 0 o ≡ slot_in key shash o
slot_in-slot_of key shash none = refl
slot_in-slot_of key shash (some m) =
    let m0 : 0 + m ≡ m = omega arith in ap (λ j. some (j, place key shash j)) m0

module _ {ℓ} {V : Type ℓ} where
  -- The table in which a key is found first.
  abbrev pub table_of : Key → ℕ → List (List (Node V)) → Option ℕ
  table_of key shash ts = index_of (fingerprint key) (probe_from key shash 0 ts)

  -- Where the digest has the bits, `get` finds the first table whose node at the key's place there
  -- has the key's fingerprint, and nothing if there is none.
  pub get-index_of :
      (key : Key) (d : DLeft V)
      → HasBits key d.shash d.nhash
      → WellFormed d
      → get key d ≡ ok (slot_in key d.shash (table_of key d.shash d.tables))
  unfolding get
  get-index_of key d bits good =
      ap (dstreamon.DLeft.find_key d.shash (fingerprint key) d.tables 0) (start-cursor key d.shash)
      ∙ (find_key-index_of key d.shash d.nhash (fingerprint key) d.tables 0 bits
            (omega (arith, good.2)) good.0
          ∙ ap ok (slot_in-slot_of key d.shash (table_of key d.shash d.tables)))

  abbrev pub object_in : Key → ℕ → List (List (Node V)) → Option ℕ → Option V
  object_in key shash ts none = none
  object_in key shash ts (some m) = object_of (node_at m (place key shash m) ts)

  pub read-index_of :
      (key : Key) (d : DLeft V)
      → HasBits key d.shash d.nhash
      → WellFormed d
      → read key d ≡ ok (object_in key d.shash d.tables (table_of key d.shash d.tables))
  unfolding read
  read-index_of key d bits good =
      let e = get-index_of key d bits good in
      elim (Option-cases (table_of key d.shash d.tables)) [
        | inl missing ↦ rw (e, read) (rw missing refl)
        | inr (m, at) ↦ rw (e, read) (rw at refl)
      ]

  -- The tables that an addition leaves.
  abbrev pub added : Key → V → DLeft V → List (List (Node V)) → ℕ → List (List (Node V))
  added key v d ts m =
      update (store v) m (place key d.shash m)
        (update (mark (fingerprint key)) m (place key d.shash m) ts)

  pub add_places :
      (blank : V) (key : Key) (v : V) (d : DLeft V)
      → HasBits key d.shash d.nhash
      → WellFormed d
      → ((m : ℕ) × (ts : List (List (Node V))) × Grown blank d ts
          × (vacancy (fingerprint key) (probe_from key d.shash 0 ts) ≡ some m)
          × (add blank key v d
              ≡ (ok (some (m, place key d.shash m)), record d { tables = added key v d ts m })))
        ⊎ ((vacancy (fingerprint key) (probe_from key d.shash 0 d.tables) ≡ none)
            × (length d.tables ≡ d.nhash)
            × (add blank key v d ≡ (ok none, d)))
  unfolding add write_found
  add_places blank key v d bits good = elim (reserve_places blank key d bits good) [
    | inl (m, ts, grown, found, run) ↦ inl (m, ts, grown, found, ap (write_found v) run)
    | inr (full, all, run) ↦ inr (full, all, ap (write_found v) run)
  ]

  pub Grown-AllSized :
      (blank : V) (d : DLeft V) (ts : List (List (Node V)))
      → Grown blank d ts
      → WellFormed d
      → AllSized d.shash ts × (0 < length ts) × (length ts ≤ d.nhash)
  Grown-AllSized blank d ts (inl e) good =
      subst (λ t. AllSized d.shash t × (0 < length t) × (length t ≤ d.nhash)) (sym e) good
  Grown-AllSized blank d ts (inr (room, e)) good =
      let new = new_table blank d.shash in
      let len = length-append d.tables (new ∷ []) in
      subst (λ t. AllSized d.shash t × (0 < length t) × (length t ≤ d.nhash)) (sym e)
        (
          AllSized-append d.shash d.tables new good.0 (length-replicate (2 ^ d.shash) _),
          omega (arith, len),
          omega (arith, len, room),
        )

  pub WellFormed-added :
      (key : Key) (v : V) (d : DLeft V) (ts : List (List (Node V))) (m : ℕ)
      → AllSized d.shash ts × (0 < length ts) × (length ts ≤ d.nhash)
      → WellFormed (record d { tables = added key v d ts m })
  WellFormed-added key v d ts m good =
      let p = place key d.shash m in
      let marked = update (mark (fingerprint key)) m p ts in
      let len : length (added key v d ts m) ≡ length ts =
        length-update (store v) m p marked ∙ length-update (mark (fingerprint key)) m p ts in
      (
        AllSized-update d.shash (store v) m p marked
            (AllSized-update d.shash (mark (fingerprint key)) m p ts good.0),
        omega (arith, len, good.1),
        omega (arith, len, good.2),
      )

  -- The new value is where the key is found.
  pub added_there :
      (key : Key) (v : V) (d : DLeft V) (ts : List (List (Node V))) (m : ℕ)
      → AllSized d.shash ts
      → vacancy (fingerprint key) (probe_from key d.shash 0 ts) ≡ some m
      → (table_of key d.shash (added key v d ts m) ≡ some m)
        × (object_of (node_at m (place key d.shash m) (added key v d ts m)) ≡ some v)
  added_there key v d ts m sized found =
      let h = fingerprint key in
      let p = place key d.shash m in
      let m0 : 0 + m ≡ m = omega arith in
      let marked = update (mark h) m p ts in
      let within : m < length marked = omega (
        arith,
        vacancy_within h (probe_from key d.shash 0 ts) m found,
        length-probe_from key d.shash 0 ts,
        length-update (mark h) m p ts,
      ) in
      (
        ap (index_of h) (
              probe_from-store key d.shash 0 m p v marked
              ∙ probe_from-mark key d.shash 0 m h p ts sized (ap (place key d.shash) m0))
            ∙ index_of-vacancy h (probe_from key d.shash 0 ts) m found,
        object_of-store d.shash v m p marked (AllSized-update d.shash (mark h) m p ts sized) within
            (place_bound key d.shash m),
      )

  -- An addition to a table in order, with a digest that has the bits: either it succeeds, and then
  -- `get` gives the slot that it returned and the value is read there, or it returns no slot and
  -- changes nothing; then all tables are in use, and in each the key's place is held by another
  -- fingerprint. The table stays in order.
  pub read-add :
      (blank : V) (key : Key) (v : V) (d : DLeft V)
      → HasBits key d.shash d.nhash
      → WellFormed d
      → let (r, d') = add blank key v d in
        ((slot : Slot) × (r ≡ ok (some slot))
          × (get key d' ≡ ok (some slot))
          × (read key d' ≡ ok (some v))
          × WellFormed d')
        ⊎ ((r ≡ ok none)
            × (d' ≡ d)
            × (length d.tables ≡ d.nhash)
            × (vacancy (fingerprint key) (probe_from key d.shash 0 d.tables) ≡ none))
  read-add blank key v d bits good = elim (add_places blank key v d bits good) [
    | inr (full, all, run) ↦ rw run (inr (refl, refl, all, full))
    | inl (m, ts, grown, found, run) ↦
        let sized = Grown-AllSized blank d ts grown good in
        let d' : DLeft V = record d { tables = added key v d ts m } in
        let good' = WellFormed-added key v d ts m sized in
        let (at, stored) = added_there key v d ts m sized.0 found in
        rw run (
          inl (
            (m, place key d.shash m),
            refl,
            get-index_of key d' bits good' ∙ ap (λ o. ok (slot_in key d.shash o)) at,
            read-index_of key d' bits good'
                ∙ (ap (λ o. ok (object_in key d.shash d'.tables o)) at ∙ ap ok stored),
            good',
          ))
  ]
