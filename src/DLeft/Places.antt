-- ===== src/DLeft/Places.antt =====
-- lib/streamon/DLeft.cpp: the places of a key, one in each table, and what the searches see there.
use native.Mathlib.Nat.{mod-lt}
use dstreamon.Base.{
  ℕ, suc, ◌+◌, ◌*◌, ◌^◌, ◌≤◌, ◌<◌, ◌≡◌, refl, sym, ap, ◌∙◌, false, ◌||◌, List, [], ◌∷◌, Option,
  none, some, ok, arith, ◌==◌, if◌then◌else◌, get_elem?, get_elem?_within, get_or, Option-cases,
  ◌⊎◌, length, length-drop, drop, inl, inr, Bool-cases,
}
use dstreamon.BitFields.{number, field, AllWords, pow_pos}
use dstreamon.HashSplitter.{Splitter, drawn, next}
use dstreamon.HashSplitter.Fields.{next-field}
use dstreamon.DLeft.{Node, Key, Slot, free, same, passed, find_key, find_place, fnv_modified_hash}

abbrev pub fingerprint : Key → ℕ
fingerprint key = fnv_modified_hash key.raw

-- The digest without its first word.
abbrev pub words : Key → List ℕ
words key = drop 1 key.digest

-- The place of a key in table `i`.
unfoldable pub place : Key → ℕ → ℕ → ℕ
place key shash i = field (number (words key)) (i * shash) shash

-- A digest that is long enough for `n` tables of a size that the cursor can cut out.
abbrev pub HasBits : Key → ℕ → ℕ → Type 0
HasBits key shash n =
    (0 < shash) × (shash < 32) × AllWords (words key) × (n * shash ≤ 32 * length (words key))

-- The cursor before table `i`.
abbrev pub cursor : Key → ℕ → ℕ → Splitter
cursor key shash i = record { buffer = words key; bits = length key.digest * 32; ptr = i * shash }

pub place_bound : (key : Key) (shash i : ℕ) → place key shash i < 2 ^ shash
unfolding place
place_bound key shash i = mod-lt _ (pow_pos shash)

-- Where the digest has the bits, a draw gives the next place.
pub next-place :
    (key : Key) (shash i n : ℕ)
    → HasBits key shash n
    → i < n
    → next shash (cursor key shash i) ≡ drawn (place key shash i) (cursor key shash (suc i))
unfolding place
next-place key shash i n h lt =
    let more : i * shash + shash ≤ n * shash = grind (arith, lt) in
    let step : i * shash + shash ≡ suc i * shash = grind arith in
    let within : i * shash + shash ≤ 32 * length (words key) = omega (arith, more, h.3) in
    let open_ : i * shash ≤ length key.digest * 32 =
      omega (arith, within, length-drop 1 key.digest) in
    next-field shash (cursor key shash i) h.1 h.0 h.2 open_ within
    ∙ ap
        (λ p.
          drawn (place key shash i)
            (record { buffer = words key; bits = length key.digest * 32; ptr = p }))
        step

abbrev pub next_index : Option ℕ → Option ℕ
next_index none = none
next_index (some m) = some (suc m)

-- The first entry that is `h`, and the first that is `h` or zero.
unfoldable pub index_of : ℕ → List ℕ → Option ℕ
index_of h [] = none
index_of h (k ∷ ks) = if k == h then some 0 else next_index (index_of h ks)

unfoldable pub vacancy : ℕ → List ℕ → Option ℕ
vacancy h [] = none
vacancy h (k ∷ ks) = if k == 0 || k == h then some 0 else next_index (vacancy h ks)

-- The slot of a key in a table.
abbrev pub slot_of : Key → ℕ → ℕ → Option ℕ → Option Slot
slot_of key shash i none = none
slot_of key shash i (some m) = some (i + m, place key shash (i + m))

slot_of-suc :
    (key : Key) (shash i : ℕ) (o : Option ℕ)
    → slot_of key shash (suc i) o ≡ slot_of key shash i (next_index o)
slot_of-suc key shash i none = refl
slot_of-suc key shash i (some m) =
    let e : suc i + m ≡ i + suc m = omega arith in ap (λ j. some (j, place key shash j)) e

module _ {ℓ} {V : Type ℓ} where
  abbrev pub key_of : Option (Node V) → ℕ
  key_of none = 0
  key_of (some n) = n.hash_key

  abbrev pub hash_key_at : List (Node V) → ℕ → ℕ
  hash_key_at t p = key_of (get_elem? t p)

  -- The fingerprints at the places of a key, from table `i` on.
  unfoldable pub probe_from : Key → ℕ → ℕ → List (List (Node V)) → List ℕ
  probe_from key shash i [] = []
  probe_from key shash i (t ∷ ts) =
      hash_key_at t (place key shash i) ∷ probe_from key shash (suc i) ts

  abbrev pub AllSized : ℕ → List (List (Node V)) → Type 0
  AllSized shash [] = Unit
  AllSized shash (t ∷ ts) = (length t ≡ 2 ^ shash) × AllSized shash ts

  -- The node at a place of a key.
  node_there :
      (key : Key) (shash i : ℕ) (t : List (Node V))
      → length t ≡ 2 ^ shash
      → (n : Node V) × (get_elem? t (place key shash i) ≡ some n)
        × (hash_key_at t (place key shash i) ≡ n.hash_key)
  node_there key shash i t len =
      let (n, e) =
        get_elem?_within t (place key shash i) (omega (arith, len, place_bound key shash i)) in
      (n, e, ap key_of e)

  -- The search of `get` and `remove` stops at the first table with the fingerprint.
  pub find_key-index_of :
      (key : Key) (shash n h : ℕ) (ts : List (List (Node V))) (i : ℕ)
      → HasBits key shash n
      → i + length ts ≤ n
      → AllSized shash ts
      → find_key shash h ts i (cursor key shash i)
        ≡ ok (slot_of key shash i (index_of h (probe_from key shash i ts)))
  unfolding find_key index_of probe_from
  find_key-index_of key shash n h [] i bits le sized = refl
  find_key-index_of key shash n h (t ∷ ts) i bits le sized =
      let (node, e, same_key) = node_there key shash i t sized.0 in
      let step = next-place key shash i n bits (omega (arith, le)) in
      let rest = find_key-index_of key shash n h ts (suc i) bits (omega (arith, le)) sized.1 in
      elim (Bool-cases (node.hash_key == h)) [
        | inl hit ↦
            let i0 : i + 0 ≡ i = omega arith in
            rw (step, find_key)
              (rw (e, find_key) (rw hit (ap (λ j. ok (some (j, place key shash j))) (sym i0))))
        | inr other ↦
            rw (step, find_key)
              (rw (e, find_key)
                (rw other (
                  rest
                  ∙ ap ok
                      (slot_of-suc key shash i (index_of h (probe_from key shash (suc i) ts))))))
      ]

  -- The search of `reserve` stops at the first table with the fingerprint or a free node.
  pub find_place-vacancy :
      (key : Key) (shash n h : ℕ) (ts : List (List (Node V))) (i m : ℕ)
      → HasBits key shash n
      → i + length ts ≤ n
      → AllSized shash ts
      → vacancy h (probe_from key shash i ts) ≡ some m
      → ((find_place shash h ts i (cursor key shash i) ≡ free (i + m) (place key shash (i + m)))
          × (get_or (probe_from key shash i ts) m 1 ≡ 0))
        ⊎ ((find_place shash h ts i (cursor key shash i) ≡ same (i + m) (place key shash (i + m)))
            × (get_or (probe_from key shash i ts) m 1 ≡ h))
  unfolding find_place vacancy probe_from
  find_place-vacancy key shash n h [] i m bits le sized found = absurd (ground (arith, found))
  find_place-vacancy key shash n h (t ∷ ts) i m bits le sized found =
      let (node, e, same_key) = node_there key shash i t sized.0 in
      let step = next-place key shash i n bits (omega (arith, le)) in
      let i0 : i + 0 ≡ i = omega arith in
      elim (Bool-cases (node.hash_key == 0)) [
        | inl empty ↦
            let m0 : m ≡ 0 = ground (arith, found, same_key, empty) in
            inl (
              rw (step, find_place)
                  (rw (e, find_place)
                    (rw empty (rw m0 (ap (λ j. free j (place key shash j)) (sym i0))))),
              rw m0 (ground (arith, same_key, empty)),
            )
        | inr full ↦ elim (Bool-cases (node.hash_key == h)) [
          | inl hit ↦
              let m0 : m ≡ 0 = ground (arith, found, same_key, hit, full) in
              inr (
                rw (step, find_place)
                    (rw (e, find_place)
                      (rw full (rw hit (rw m0 (ap (λ j. same j (place key shash j)) (sym i0)))))),
                rw m0 (ground (arith, same_key, hit)),
              )
          | inr other ↦ elim (Option-cases (vacancy h (probe_from key shash (suc i) ts))) [
            | inl no_place ↦ absurd (ground (arith, found, same_key, full, other, no_place))
            | inr (m', later) ↦
                let next_m : m ≡ suc m' = ground (arith, found, same_key, full, other, later) in
                let shift : suc i + m' ≡ i + suc m' = omega arith in
                let run : find_place shash h (t ∷ ts) i (cursor key shash i)
                    ≡ find_place shash h ts (suc i) (cursor key shash (suc i)) =
                  rw (step, find_place) (rw (e, find_place) (rw full (rw other refl))) in
                elim (find_place-vacancy key shash n h ts (suc i) m' bits (omega (arith, le))
                  sized.1 later) [
                    | inl (at, is_free) ↦ inl (
                      run ∙ (at ∙ rw next_m (ap (λ j. free j (place key shash j)) shift)),
                      rw next_m is_free,
                    )
                    | inr (at, is_same) ↦ inr (
                      run ∙ (at ∙ rw next_m (ap (λ j. same j (place key shash j)) shift)),
                      rw next_m is_same,
                    )
                  ]
          ]
        ]
      ]

  pub find_place_passes :
      (key : Key) (shash n h : ℕ) (ts : List (List (Node V))) (i : ℕ)
      → HasBits key shash n
      → i + length ts ≤ n
      → AllSized shash ts
      → vacancy h (probe_from key shash i ts) ≡ none
      → find_place shash h ts i (cursor key shash i) ≡ passed (cursor key shash (i + length ts))
  unfolding find_place vacancy probe_from
  find_place_passes key shash n h [] i bits le sized found =
      let i0 : i + 0 ≡ i = omega arith in ap (λ j. passed (cursor key shash j)) (sym i0)
  find_place_passes key shash n h (t ∷ ts) i bits le sized found =
      let (node, e, same_key) = node_there key shash i t sized.0 in
      let step = next-place key shash i n bits (omega (arith, le)) in
      let full : (node.hash_key == 0) ≡ false = ground (arith, found, same_key) in
      let other : (node.hash_key == h) ≡ false = ground (arith, found, same_key) in
      let later : vacancy h (probe_from key shash (suc i) ts) ≡ none =
        elim (Option-cases (vacancy h (probe_from key shash (suc i) ts))) [
          | inl no_place ↦ no_place
          | inr (m, at) ↦ absurd (ground (arith, found, same_key, full, other, at))
        ] in
      let shift : suc i + length ts ≡ i + suc (length ts) = omega arith in
      rw (step, find_place)
        (rw (e, find_place)
          (rw full (
            rw other (
              find_place_passes key shash n h ts (suc i) bits (omega (arith, le)) sized.1 later
              ∙ ap (λ j. passed (cursor key shash j)) shift))))
