-- ===== src/DLeft/Tests.antt =====
-- lib/streamon/DLeft.cpp, HashSplitter.hpp: tables of four nodes, with keys of one byte.
use dstreamon.Base.{
  ℕ, ◌%◌, ◌^◌, ◌+◌, ◌-◌, ◌≡◌, ◌≢◌, ◌⊎◌, refl, List, [], ◌∷◌, none, some, ok, arith, length, not,
  true, get_or, ◌==◌,
}
use dstreamon.BitFields.{number}
use dstreamon.HashSplitter.{drawn, next, reset, set_digest}
use dstreamon.DLeft.{
  DLeft, Node, Key, Slot, get, read, add, remove, remove_element, reserve, reserve_from, create,
  clear, expand, find_key, find_place, update, change, write_found, node_at, fnv_modified_hash,
  fnv_loop,
}
use dstreamon.DLeft.Places.{place, fingerprint, HasBits, vacancy, index_of, probe_from}
use dstreamon.DLeft.Reserve.{WellFormed}
use dstreamon.DLeft.Lookup.{table_of, read-add}
use dstreamon.DLeft.Others.{read_other-add}
use dstreamon.DLeft.Removal.{remove_lem, copies}
use dstreamon.DLeft.Stale.{StoredTwice, read-remove-add}
use dstreamon.DLeft.Counter.{counter_get, counter_add, counter_clear, counter_reset, bump, bump_new}

abbrev key_of : ℕ → ℕ → Key
key_of word b = record { digest = 1 ∷ (word ∷ []); raw = b ∷ [] }

-- The places are 1 and 2 for the first key, and 1 and 3 for the second.
abbrev one : Key
one = key_of 9 1

abbrev two : Key
two = key_of 13 2

fingerprints : (fingerprint one ≡ 822114381) × (fingerprint two ≡ 2639929067)
unfolding fnv_modified_hash fnv_loop
fingerprints = (refl, refl)

one_some : fingerprint one ≢ 0
one_some = omega (arith, fingerprints.0)

two_some : fingerprint two ≢ 0
two_some = omega (arith, fingerprints.1)

other_fingerprint : fingerprint two ≢ fingerprint one
other_fingerprint = omega (arith, fingerprints.0, fingerprints.1)

abbrev empty : DLeft ℕ
empty = create 0 2 2

one_bits : HasBits one 2 2
one_bits = (omega arith, omega arith, (omega arith, tt), omega arith)

two_bits : HasBits two 2 2
two_bits = (omega arith, omega arith, (omega arith, tt), omega arith)

empty-WellFormed : WellFormed empty
unfolding create
empty-WellFormed = ((refl, tt), omega arith, omega arith)

-- The two keys share their first place, so that the second goes to a second table.
runs :
    ((add 0 one 7 empty).0 ≡ ok (some (0, 1)))
    × ((add 0 two 8 (add 0 one 7 empty).1).0 ≡ ok (some (1, 3)))
    × (read one (add 0 two 8 (add 0 one 7 empty).1).1 ≡ ok (some 7))
    × (read two (add 0 two 8 (add 0 one 7 empty).1).1 ≡ ok (some 8))
    × (read one (clear 0 (add 0 one 7 empty).1) ≡ ok none)
    × ((remove_element (0, 1) (add 0 one 7 empty).1).0 ≡ ok tt)
unfolding add write_found reserve reserve_from find_place expand create update change next
    set_digest fnv_modified_hash fnv_loop read get find_key node_at clear remove_element
runs = (refl, refl, refl, refl, refl, refl)

-- Both keys are stored, or the second alone, in its second table.
abbrev node : ℕ → ℕ → Node ℕ
node v h = record { object = v; hash_key = h }

abbrev table : Node ℕ → Node ℕ → List (Node ℕ)
table n m = node 0 0 ∷ (n ∷ (node 0 0 ∷ (m ∷ [])))

abbrev both : DLeft ℕ
both = record {
  tables = table (node 7 822114381) (node 0 0) ∷ (table (node 0 0) (node 8 2639929067) ∷ []);
  nhash = 2;
  shash = 2;
}

abbrev holed : DLeft ℕ
holed = record both {
  tables = table (node 7 0) (node 0 0) ∷ (table (node 0 0) (node 8 2639929067) ∷ []);
}

both-WellFormed : WellFormed both
both-WellFormed = ((refl, (refl, tt)), omega arith, omega arith)

holed-WellFormed : WellFormed holed
holed-WellFormed = ((refl, (refl, tt)), omega arith, omega arith)

removal : remove one both ≡ (ok true, holed)
unfolding remove get find_key next set_digest fnv_modified_hash fnv_loop update change
removal = refl

holed_facts :
    (vacancy (fingerprint two) (probe_from two 2 0 holed.tables) ≡ some 0)
    × (get_or (probe_from two 2 0 holed.tables) 0 1 ≡ 0)
    × (table_of two 2 holed.tables ≡ some 1)
unfolding fnv_modified_hash fnv_loop vacancy index_of probe_from place number
holed_facts = (refl, refl, refl)

across_words :
    (next 20 (record { buffer = 0xfff00000 ∷ (0xab ∷ []); bits = 96; ptr = 20 })
      ≡ drawn 0xabfff (record { buffer = 0xfff00000 ∷ (0xab ∷ []); bits = 96; ptr = 40 }))
    × (reset (record { buffer = 5 ∷ []; bits = 64; ptr = 40 })
        ≡ record { buffer = 5 ∷ []; bits = 64; ptr = 0 })
unfolding next reset
across_words = (refl, refl)

read-add_example :
    let (r, d') = add 0 one 9 both in
    ((slot : Slot) × (r ≡ ok (some slot))
      × (get one d' ≡ ok (some slot))
      × (read one d' ≡ ok (some 9))
      × WellFormed d')
    ⊎ ((r ≡ ok none)
        × (d' ≡ both)
        × (length both.tables ≡ 2)
        × (vacancy (fingerprint one) (probe_from one 2 0 both.tables) ≡ none))
read-add_example = read-add 0 one 9 both one_bits both-WellFormed

read_other-add_example : read two (add 0 one 9 both).1 ≡ read two both
read_other-add_example =
    read_other-add 0 one two 9 both one_bits two_bits both-WellFormed other_fingerprint two_some

remove_lem_example :
    let (r, d') = remove two both in
    (r ≡ ok (not (copies two both == 0))) × (copies two d' ≡ copies two both - 1) × WellFormed d'
remove_lem_example = remove_lem two both two_bits both-WellFormed two_some

read-remove-add_example : StoredTwice 0 two 9 holed 0
read-remove-add_example =
    read-remove-add 0 two 9 holed 0 1 two_bits holed-WellFormed two_some holed_facts.0 holed_facts.1
      holed_facts.2

abbrev plus : ℕ → ℕ → ℕ
plus v q = (v + q) % 2 ^ 32

counter_runs :
    (counter_add plus one 5 both ≡ (
      ok 12,
      record both {
        tables = table (node 12 822114381) (node 0 0) ∷ (table (node 0 0) (node 8 2639929067) ∷ []);
      },
    ))
    × ((counter_add plus two 5 (record holed { nhash = 1 })).0 ≡ ok 13)
    × (counter_get two both ≡ ok 8)
    × (counter_get two (counter_clear both) ≡ ok 0)
    × ((counter_reset two both).0 ≡ ok true)
unfolding counter_add bump bump_new counter_get counter_clear counter_reset get read remove clear
    find_key next set_digest fnv_modified_hash fnv_loop update change node_at
counter_runs = (refl, refl, refl, refl, refl)
