-- ===== src/DLeft/Reserve.antt =====
-- lib/streamon/DLeft.cpp: the two rounds of `reserve`.
use dstreamon.Base.{
  ℕ, zero, suc, ◌+◌, ◌*◌, ◌^◌, ◌≤◌, ◌<◌, ◌≡◌, ◌⊎◌, refl, sym, ap, ap₂, ◌∙◌, List, [], ◌∷◌, ◌++◌,
  Option, none, some, Result, ok, arith, ltb, length, length-replicate, get_or, drop, inl, inr,
  Option-cases, Bool-cases,
}
use dstreamon.HashSplitter.{set_digest}
use dstreamon.DLeft.{
  DLeft, Node, Key, Slot, Fault, start, change, update, mark, new_table, expand, reserve,
  reserve_from, find_place, passed,
}
use dstreamon.DLeft.Places.{
  fingerprint, cursor, HasBits, vacancy, place, probe_from, hash_key_at, AllSized,
  find_place-vacancy, find_place_passes,
}
use dstreamon.DLeft.Probes.{
  probe_from-append, hash_key_at-replicate, AllSized-append, vacancy-append, length-probe_from,
}

pub start-cursor : (key : Key) (shash : ℕ) → start key ≡ cursor key shash 0
unfolding set_digest
start-cursor key shash =
    let z : 0 ≡ 0 * shash = omega arith in
    ap (λ p. record { buffer = drop 1 key.digest; bits = length key.digest * 32; ptr = p }) z

module _ {ℓ} {V : Type ℓ} where
  -- The tables have their size, and there are between one and `nhash`.
  abbrev pub WellFormed : DLeft V → Type 0
  WellFormed d = AllSized d.shash d.tables × (0 < length d.tables) × (length d.tables ≤ d.nhash)

  mark_same :
      (h p : ℕ) (t : List (Node V)) → p < length t → hash_key_at t p ≡ h → change (mark h) p t ≡ t
  unfolding change
  mark_same h p [] lt e = refl
  mark_same h zero (n ∷ t) lt e = ap (λ k. record n { hash_key = k } ∷ t) (sym e)
  mark_same h (suc p) (n ∷ t) lt e = ap (λ u. n ∷ u) (mark_same h p t (omega arith) e)

  -- To mark a node that has the mark changes nothing.
  pub update-mark_same :
      (key : Key) (shash i j h : ℕ) (ts : List (List (Node V)))
      → AllSized shash ts
      → get_or (probe_from key shash i ts) j 1 ≡ h
      → update (mark h) j (place key shash (i + j)) ts ≡ ts
  unfolding update probe_from
  update-mark_same key shash i j h [] sized e = refl
  update-mark_same key shash i zero h (t ∷ ts) sized e =
      let i0 : i + 0 ≡ i = omega arith in
      let within : place key shash i < length t =
        omega (arith, sized.0, dstreamon.DLeft.Places.place_bound key shash i) in
      ap (λ u. u ∷ ts)
        (ap (λ k. change (mark h) (place key shash k) t) i0
          ∙ mark_same h (place key shash i) t within e)
  update-mark_same key shash i (suc j) h (t ∷ ts) sized e =
      let shift : i + suc j ≡ suc i + j = omega arith in
      ap (λ u. t ∷ u)
        (ap (λ k. update (mark h) j (place key shash k) ts) shift
          ∙ update-mark_same key shash (suc i) j h ts sized.1 e)

  AllSized-drop :
      (shash i : ℕ) (ts : List (List (Node V))) → AllSized shash ts → AllSized shash (drop i ts)
  AllSized-drop shash zero ts sized = sized
  AllSized-drop shash (suc i) [] sized = tt
  AllSized-drop shash (suc i) (t ∷ ts) sized = AllSized-drop shash i ts sized.1

  get_or-probe_from :
      (key : Key) (shash i j m : ℕ) (ts : List (List (Node V)))
      → get_or (probe_from key shash (i + j) (drop j ts)) m 1
        ≡ get_or (probe_from key shash i ts) (j + m) 1
  unfolding probe_from
  get_or-probe_from key shash i zero m ts =
      let i0 : i + 0 ≡ i = omega arith in
      let m0 : m ≡ 0 + m = omega arith in ap₂ (λ k l. get_or (probe_from key shash k ts) l 1) i0 m0
  get_or-probe_from key shash i (suc j) m [] = refl
  get_or-probe_from key shash i (suc j) m (t ∷ ts) =
      let shift : i + suc j ≡ suc i + j = omega arith in
      let next : suc (j + m) ≡ suc j + m = omega arith in
      ap (λ k. get_or (probe_from key shash k (drop j ts)) m 1) shift
      ∙ (get_or-probe_from key shash (suc i) j m ts
          ∙ ap
              (λ l.
                get_or (hash_key_at t (place key shash i) ∷ probe_from key shash (suc i) ts) l 1)
              next)

  -- A round that finds a place marks it.
  pub reserve_from-vacancy :
      (blank : V) (fuel : ℕ) (key : Key) (n h i m : ℕ) (d : DLeft V)
      → HasBits key d.shash n
      → i + length (drop i d.tables) ≤ n
      → AllSized d.shash d.tables
      → vacancy h (probe_from key d.shash i (drop i d.tables)) ≡ some m
      → reserve_from blank (suc fuel) h i (cursor key d.shash i) d ≡ (
        ok (some (i + m, place key d.shash (i + m))),
        record d { tables = update (mark h) (i + m) (place key d.shash (i + m)) d.tables },
      )
  unfolding reserve_from
  reserve_from-vacancy blank fuel key n h i m d bits le sized found =
      elim (find_place-vacancy key d.shash n h (drop i d.tables) i m bits le
        (AllSized-drop d.shash i d.tables sized) found) [
          | inl (at, is_free) ↦ rw (at, reserve_from) refl
          | inr (at, is_same) ↦
              let i0 : 0 + i ≡ i = omega arith in
              let j0 : 0 + (i + m) ≡ i + m = omega arith in
              let there : get_or (probe_from key d.shash 0 d.tables) (i + m) 1 ≡ h =
                sym (get_or-probe_from key d.shash 0 i m d.tables)
                ∙ (ap (λ k. get_or (probe_from key d.shash k (drop i d.tables)) m 1) i0
                    ∙ is_same) in
              let stays : update (mark h) (i + m) (place key d.shash (i + m)) d.tables ≡ d.tables =
                ap (λ k. update (mark h) (i + m) (place key d.shash k) d.tables) (sym j0)
                ∙ update-mark_same key d.shash 0 (i + m) h d.tables sized there in
              rw (at, reserve_from)
                (ap (λ ts. (ok (some (i + m, place key d.shash (i + m))), record d { tables = ts }))
                  (sym stays))
        ]

  drop-append : (ts us : List (List (Node V))) → drop (length ts) (ts ++ us) ≡ us
  drop-append [] us = refl
  drop-append (t ∷ ts) us = drop-append ts us

  -- The tables that `reserve` marks: those there are, or one more.
  abbrev pub Grown : V → DLeft V → List (List (Node V)) → Type ℓ
  Grown blank d ts =
      (ts ≡ d.tables)
      ⊎ ((length d.tables < d.nhash) × (ts ≡ d.tables ++ (new_table blank d.shash ∷ [])))

  -- The new table has a place for every key.
  room_there :
      (blank : V) (key : Key) (shash h i : ℕ)
      → vacancy h (probe_from key shash i (new_table blank shash ∷ [])) ≡ some 0
  unfolding vacancy probe_from
  room_there blank key shash h i =
      let empty = hash_key_at-replicate (2 ^ shash) (place key shash i) blank in
      rw (empty, vacancy) refl

  room_after :
      (blank : V) (key : Key) (shash h : ℕ) (ts : List (List (Node V)))
      → vacancy h (probe_from key shash 0 ts) ≡ none
      → vacancy h (probe_from key shash 0 (ts ++ (new_table blank shash ∷ []))) ≡ some (length ts)
  room_after blank key shash h ts full =
      let empty = hash_key_at-replicate (2 ^ shash) (place key shash (0 + length ts)) blank in
      ap (vacancy h) (
        probe_from-append key shash 0 ts (new_table blank shash)
        ∙ ap (λ k. probe_from key shash 0 ts ++ (k ∷ [])) empty)
      ∙ (vacancy-append h (probe_from key shash 0 ts) full
          ∙ ap some (length-probe_from key shash 0 ts))

  -- The result of a round that marks a node of the tables `ts`.
  abbrev pub reserved :
      ℕ → Key → DLeft V → List (List (Node V)) → ℕ → Result Fault (Option Slot) × DLeft V
  reserved h key d ts m = (
    ok (some (m, place key d.shash m)),
    record d { tables = update (mark h) m (place key d.shash m) ts },
  )

  second_round :
      (blank : V) (key : Key) (h : ℕ) (d : DLeft V)
      → HasBits key d.shash d.nhash
      → WellFormed d
      → length d.tables < d.nhash
      → let ts = d.tables ++ (new_table blank d.shash ∷ []) in
        reserve_from blank 1 h
          (length d.tables)
          (cursor key d.shash (length d.tables))
          (record d { tables = ts })
        ≡ reserved h key d ts (length d.tables)
  second_round blank key h d bits good room =
      let l = length d.tables in
      let ts = d.tables ++ (new_table blank d.shash ∷ []) in
      let rest : drop l ts ≡ new_table blank d.shash ∷ [] =
        drop-append d.tables (new_table blank d.shash ∷ []) in
      let one : length (drop l ts) ≡ 1 = ap length rest in
      let found : vacancy h (probe_from key d.shash l (drop l ts)) ≡ some 0 =
        ap (λ u. vacancy h (probe_from key d.shash l u)) rest ∙ room_there blank key d.shash h l in
      let sized : AllSized d.shash ts =
        AllSized-append d.shash d.tables (new_table blank d.shash) good.0
          (length-replicate (2 ^ d.shash) _) in
      let l0 : l + 0 ≡ l = omega arith in
      reserve_from-vacancy blank 0 key d.nhash h l 0 (record d { tables = ts }) bits
        (omega (arith, one, room)) sized found
      ∙ ap (reserved h key d ts) l0

  pub reserve_found :
      (blank : V) (key : Key) (d : DLeft V) (m : ℕ)
      → HasBits key d.shash d.nhash
      → WellFormed d
      → vacancy (fingerprint key) (probe_from key d.shash 0 d.tables) ≡ some m
      → reserve blank key d ≡ reserved (fingerprint key) key d d.tables m
  unfolding reserve
  reserve_found blank key d m bits good found =
      let m0 : 0 + m ≡ m = omega arith in
      ap (λ s. reserve_from blank 2 (fingerprint key) 0 s d) (start-cursor key d.shash)
      ∙ (reserve_from-vacancy blank 1 key d.nhash (fingerprint key) 0 m d bits
            (omega (arith, good.2)) good.0 found
          ∙ ap (reserved (fingerprint key) key d d.tables) m0)

  pub reserve_places :
      (blank : V) (key : Key) (d : DLeft V)
      → HasBits key d.shash d.nhash
      → WellFormed d
      → ((m : ℕ) × (ts : List (List (Node V))) × Grown blank d ts
          × (vacancy (fingerprint key) (probe_from key d.shash 0 ts) ≡ some m)
          × (reserve blank key d ≡ reserved (fingerprint key) key d ts m))
        ⊎ ((vacancy (fingerprint key) (probe_from key d.shash 0 d.tables) ≡ none)
            × (length d.tables ≡ d.nhash)
            × (reserve blank key d ≡ (ok none, d)))
  unfolding reserve expand reserve_from
  reserve_places blank key d bits good =
      let h = fingerprint key in
      let l = length d.tables in
      let begin = ap (λ s. reserve_from blank 2 h 0 s d) (start-cursor key d.shash) in
      let l0 : 0 + l ≡ l = omega arith in
      elim (Option-cases (vacancy h (probe_from key d.shash 0 d.tables))) [
        | inr (m, found) ↦
            inl (m, d.tables, inl refl, found, reserve_found blank key d m bits good found)
        | inl full ↦
            let pass =
              find_place_passes key d.shash d.nhash h d.tables 0 bits (omega (arith, good.2)) good.0
                full
              ∙ ap (λ j. passed (cursor key d.shash j)) l0 in
            elim (Bool-cases (ltb l d.nhash)) [
              | inl room ↦
                  let less : l < d.nhash = ground (arith, room) in
                  inl (
                    l,
                    d.tables ++ (new_table blank d.shash ∷ []),
                    inr (less, refl),
                    room_after blank key d.shash h d.tables full,
                    begin
                        ∙ rw (pass, reserve_from)
                            (rw (room, expand) (second_round blank key h d bits good less)),
                  )
              | inr no_room ↦ inr (
                full,
                ground (arith, no_room, good.2),
                begin ∙ rw (pass, reserve_from) (rw (no_room, expand) refl),
              )
            ]
      ]
