-- ===== src/DLeft.antt =====
-- lib/streamon/DLeft.cpp: a hash table of several tables, where a key has one place in each.
mod Fnv
unfoldable pub use Fnv.*
pub mod Places
pub mod Probes
pub mod Objects
pub mod Reserve
pub mod Lookup
pub mod Others
pub mod Removal
pub mod Stale
pub mod Counter
pub mod Tests
use dstreamon.Base.{
  ℕ, zero, suc, ◌+◌, ◌-◌, ◌^◌, Bool, true, false, List, [], ◌∷◌, ◌++◌, Option, none, some, Result,
  ok, err, map, ltb, ◌==◌, if◌then◌else◌, get_elem?, set, length, drop, replicate,
}
use dstreamon.HashSplitter.{Splitter, Draw, drawn, spent, outside, next, set_digest}

-- `read_outside`: the digest has too few words. `not_owned` is thrown by `remove` of an element.
pub data Fault : Type 0 where
  read_outside no_fuel not_owned : Fault

pub record Node {ℓ} (V : Type ℓ) : Type ℓ where
  pub object : V
  pub hash_key : ℕ

-- The tables in use; `table_count` is their number.
pub record DLeft {ℓ} (V : Type ℓ) : Type ℓ where
  pub tables : List (List (Node V))
  pub nhash : ℕ
  pub shash : ℕ

-- What a lookup reads of its key: the words of `GetHash`, and the bytes.
pub record Key : Type 0 where
  pub digest : List ℕ
  pub raw : List ℕ

-- A pointer to an object: its table and its place there.
abbrev pub Slot : Type 0
Slot = ℕ × ℕ

-- What the search for a place ends with.
pub data Found : Type 0 where
  free : ℕ → ℕ → Found
  same : ℕ → ℕ → Found
  no_bits : Found
  bad_read : Found
  passed : Splitter → Found

abbrev pub start : Key → Splitter
start key = set_digest key.digest 1

module _ {ℓ} {V : Type ℓ} where
  -- The loop of `reserve` over the tables from number `i` on.
  unfoldable pub find_place : ℕ → ℕ → List (List (Node V)) → ℕ → Splitter → Found
  find_place shash fhash [] i s = passed s
  find_place shash fhash (t ∷ ts) i s = elim (next shash s) [
    | spent ↦ no_bits
    | outside ↦ bad_read
    | drawn p s' ↦ elim (get_elem? t p) [
      | none ↦ bad_read
      | some n ↦
          let rest = find_place shash fhash ts (suc i) s' in
          if n.hash_key == 0 then free i p else if n.hash_key == fhash then same i p else rest
    ]
  ]

  -- A change of the node at a slot.
  unfoldable pub change : (Node V → Node V) → ℕ → List (Node V) → List (Node V)
  change f p [] = []
  change f zero (n ∷ t) = f n ∷ t
  change f (suc p) (n ∷ t) = n ∷ change f p t

  unfoldable pub update : (Node V → Node V) → ℕ → ℕ → List (List (Node V)) → List (List (Node V))
  unfolding change
  update f i p [] = []
  update f zero p (t ∷ ts) = change f p t ∷ ts
  update f (suc i) p (t ∷ ts) = t ∷ update f i p ts

  abbrev pub mark : ℕ → Node V → Node V
  mark fhash n = record n { hash_key = fhash }

  abbrev pub store : V → Node V → Node V
  store v n = record n { object = v }

  -- The loop of `get` and of `remove` over the tables from number `i` on.
  unfoldable pub find_key : ℕ → ℕ → List (List (Node V)) → ℕ → Splitter → Result Fault (Option Slot)
  find_key shash fhash [] i s = ok none
  find_key shash fhash (t ∷ ts) i s = elim (next shash s) [
    | spent ↦ ok none
    | outside ↦ err read_outside
    | drawn p s' ↦ elim (get_elem? t p) [
      | none ↦ err read_outside
      | some n ↦
          let rest = find_key shash fhash ts (suc i) s' in
          if n.hash_key == fhash then ok (some (i, p)) else rest
    ]
  ]

  unfoldable pub get : Key → DLeft V → Result Fault (Option Slot)
  unfolding find_key
  get key d = find_key d.shash (fnv_modified_hash key.raw) d.tables 0 (start key)

  -- `*get(key)`: the object that the pointer leads to.
  unfoldable pub node_at : ℕ → ℕ → List (List (Node V)) → Option (Node V)
  node_at i p [] = none
  node_at zero p (t ∷ ts) = get_elem? t p
  node_at (suc i) p (t ∷ ts) = node_at i p ts

  abbrev pub object_of : Option (Node V) → Option V
  object_of none = none
  object_of (some n) = some n.object

  unfoldable pub read : Key → DLeft V → Result Fault (Option V)
  unfolding get node_at
  read key d = elim (get key d) [
    | err e ↦ err e
    | ok none ↦ ok none
    | ok (some (i, p)) ↦ ok (object_of (node_at i p d.tables))
  ]

  unfoldable pub remove : Key → DLeft V → Result Fault Bool × DLeft V
  unfolding get update
  remove key d = elim (get key d) [
    | err e ↦ (err e, d)
    | ok none ↦ (ok false, d)
    | ok (some (i, p)) ↦ (ok true, record d { tables = update (mark 0) i p d.tables })
  ]

  -- `remove(V*)`: an element of a table is recognised by its address.
  unfoldable pub remove_element : Slot → DLeft V → Result Fault (Unit {0}) × DLeft V
  unfolding update
  remove_element (i, p) d =
      if ltb i (length d.tables)
      then (if ltb p (2 ^ d.shash)
          then (ok tt, record d { tables = update (mark 0) i p d.tables })
          else (err not_owned, d))
      else (err not_owned, d)

  -- `if (slot) *slot = value;`
  unfoldable pub write_found :
      V → Result Fault (Option Slot) × DLeft V → Result Fault (Option Slot) × DLeft V
  unfolding update
  write_found v (err e, d) = (err e, d)
  write_found v (ok none, d) = (ok none, d)
  write_found v (ok (some (i, p)), d) =
      (ok (some (i, p)), record d { tables = update (store v) i p d.tables })

  module _ (blank : V) where
    -- `new dleft_node[1 << shash]()`: what an object holds that no one wrote is a parameter.
    abbrev pub new_table : ℕ → List (Node V)
    new_table shash = replicate (2 ^ shash) (record { object = blank; hash_key = 0 })

    unfoldable pub create : ℕ → ℕ → DLeft V
    create nhash shash = record { tables = new_table shash ∷ []; nhash = nhash; shash = shash }

    -- `false`, where the table cannot be expanded, is `none`.
    unfoldable pub expand : DLeft V → Option (DLeft V)
    expand d =
        if ltb (length d.tables) d.nhash
        then some (record d { tables = d.tables ++ (new_table d.shash ∷ []) })
        else none

    -- `memset` clears the nodes: `blank` is then the object of zero bytes.
    unfoldable pub clear : DLeft V → DLeft V
    clear d = record d { tables = map (λ t. new_table d.shash) d.tables }

    -- The outer loop of `reserve`, with the tables from number `i` on.
    unfoldable pub reserve_from :
        ℕ → ℕ → ℕ → Splitter → DLeft V → Result Fault (Option Slot) × DLeft V
    unfolding find_place update expand
    reserve_from zero fhash i s d = (err no_fuel, d)
    reserve_from (suc fuel) fhash i s d = elim (find_place d.shash fhash (drop i d.tables) i s) [
      | no_bits ↦ (ok none, d)
      | bad_read ↦ (err read_outside, d)
      | free j p ↦ (ok (some (j, p)), record d { tables = update (mark fhash) j p d.tables })
      | same j p ↦ (ok (some (j, p)), d)
      | passed s' ↦ elim (expand d) [
        | none ↦ (ok none, d)
        | some d' ↦ reserve_from fuel fhash (length d.tables) s' d'
      ]
    ]

    -- A round that expands finds a place in its new table, so that two rounds are enough.
    unfoldable pub reserve : Key → DLeft V → Result Fault (Option Slot) × DLeft V
    unfolding reserve_from
    reserve key d = reserve_from 2 (fnv_modified_hash key.raw) 0 (start key) d

    unfoldable pub add : Key → V → DLeft V → Result Fault (Option Slot) × DLeft V
    unfolding reserve write_found
    add key v d = write_found v (reserve key d)
