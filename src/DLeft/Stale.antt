-- ===== src/DLeft/Stale.antt =====
-- lib/streamon/DLeft.cpp: a key that is stored twice.
use dstreamon.Base.{
  ℕ, ◌+◌, ◌≡◌, ◌≢◌, suc, refl, true, sym, ap, ◌∙◌, some, ok, arith, get_or, set, inl, inr,
}
use dstreamon.DLeft.{
  DLeft, Key, read, remove, add, update, mark, store, node_at, object_of, write_found,
}
use dstreamon.DLeft.Places.{fingerprint, HasBits, index_of, vacancy, place, probe_from}
use dstreamon.DLeft.Probes.{index_of-vacancy, probe_from-mark, probe_from-store, set_same}
use dstreamon.DLeft.Objects.{node_at-update, object_of-mark}
use dstreamon.DLeft.Reserve.{WellFormed, reserve_found}
use dstreamon.DLeft.Lookup.{
  table_of, object_in, added, added_there, read-index_of, WellFormed-added,
}
use dstreamon.DLeft.Others.{index_of_entry}
use dstreamon.DLeft.Removal.{
  copies, occurrences, occurrences_put, removed, remove_places, set-set, probe_from-removed,
  WellFormed-removed,
}

module _ {ℓ} {V : Type ℓ} where
  -- What an addition and a removal after it lead to, for a key that is stored already.
  abbrev pub StoredTwice : V → Key → V → DLeft V → ℕ → Type ℓ
  StoredTwice blank key v d m =
      let (slot, d') = add blank key v d in
      let (gone, d'') = remove key d' in
      (slot ≡ ok (some (m, place key d.shash m)))
      × (copies key d' ≡ suc (copies key d))
      × (read key d' ≡ ok (some v))
      × (gone ≡ ok true)
      × (probe_from key d''.shash 0 d''.tables ≡ probe_from key d.shash 0 d.tables)
      × (read key d'' ≡ read key d)

  -- In a table in order, with a digest that has the bits and a fingerprint that is not zero: where
  -- a key is stored and a place of its that `reserve` meets first is free, an addition stores the
  -- key a second time, in that place: there is one copy of its fingerprint more and the new object
  -- is read. A removal then finds the new copy and takes it away alone: the fingerprints at the
  -- key's places are those from before the addition, and what was read then is read again.
  pub read-remove-add :
      (blank : V) (key : Key) (v : V) (d : DLeft V) (m j : ℕ)
      → HasBits key d.shash d.nhash
      → WellFormed d
      → fingerprint key ≢ 0
      → vacancy (fingerprint key) (probe_from key d.shash 0 d.tables) ≡ some m
      → get_or (probe_from key d.shash 0 d.tables) m 1 ≡ 0
      → table_of key d.shash d.tables ≡ some j
      → StoredTwice blank key v d m
  unfolding add
  read-remove-add blank key v d m j bits good some_key found empty at =
      let h = fingerprint key in
      let p = place key d.shash m in
      let ks = probe_from key d.shash 0 d.tables in
      let ts = added key v d d.tables m in
      let d' : DLeft V = record d { tables = ts } in
      let good' = WellFormed-added key v d d.tables m good in
      let m0 : 0 + m ≡ m = omega arith in
      let run : add blank key v d ≡ (ok (some (m, p)), d') =
        ap (write_found v) (reserve_found blank key d m bits good found) in
      let probe : probe_from key d.shash 0 ts ≡ set ks m h =
        probe_from-store key d.shash 0 m p v (update (mark h) m p d.tables)
        ∙ probe_from-mark key d.shash 0 m h p d.tables good.0 (ap (place key d.shash) m0) in
      let first : table_of key d.shash ts ≡ some m =
        ap (index_of h) probe ∙ index_of-vacancy h ks m found in
      let back : probe_from key d.shash 0 (removed key d' m).tables ≡ ks =
        probe_from-removed key d' m good'
        ∙ (ap (λ l. set l m 0) probe ∙ (set-set ks m h 0 ∙ set_same ks m 0 empty)) in
      let again : table_of key d.shash (removed key d' m).tables ≡ some j =
        ap (index_of h) back ∙ at in
      let apart : j ≢ m =
        λ e. some_key (sym (index_of_entry h ks j at) ∙ (ap (λ i. get_or ks i 1) e ∙ empty)) in
      let object : object_of (node_at j (place key d.shash j) (removed key d' m).tables)
          ≡ object_of (node_at j (place key d.shash j) d.tables) =
        object_of-mark 0 m p j (place key d.shash j) ts
        ∙ (ap object_of (
              node_at-update (store v) m p j (place key d.shash j) (update (mark h) m p d.tables)
                (inl apart))
            ∙ object_of-mark h m p j (place key d.shash j) d.tables) in
      let removal : remove key d' ≡ (ok true, removed key d' m) =
        elim (remove_places key d' bits good') [
          | inl (missing, go) ↦ absurd (ground (arith, missing, first))
          | inr (i, there, go) ↦
              let same : i ≡ m = ground (arith, there, first) in
              go ∙ ap (λ i. (ok true, removed key d' i)) same
        ] in
      let new : read key d' ≡ ok (some v) =
        read-index_of key d' bits good'
        ∙ (ap (λ o. ok (object_in key d.shash ts o)) first
            ∙ ap ok (added_there key v d d.tables m good.0 found).1) in
      let old : read key (removed key d' m) ≡ read key d =
        read-index_of key (removed key d' m) bits (WellFormed-removed key d' m good')
        ∙ (ap (λ o. ok (object_in key d.shash (removed key d' m).tables o)) again
            ∙ (ap ok object
                ∙ (ap (λ o. ok (object_in key d.shash d.tables o)) (sym at)
                    ∙ sym (read-index_of key d bits good)))) in
      rw run (
        rw removal (
          refl,
          ap (occurrences h) probe ∙ occurrences_put h ks m some_key empty,
          new,
          refl,
          back,
          old,
        ))
