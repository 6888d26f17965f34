-- ===== src/DLeft/Counter.antt =====
-- lib/streamon/DLeftCounter.cpp: counters by key in a d-left table. The locks are left out.
use dstreamon.Base.{ℕ, ◌≡◌, ◌⊎◌, Bool, Option, none, some, Result, ok, err, length}
use dstreamon.DLeft.{
  DLeft, Key, Slot, Fault, read_outside, get, read, add, remove, clear, update, store, node_at,
  object_of,
}
use dstreamon.DLeft.Places.{vacancy, probe_from, fingerprint}
use dstreamon.DLeft.Reserve.{WellFormed}

pub data CounterFault : Type 0 where
  assertion_failed : CounterFault
  in_table : Fault → CounterFault

-- `get`: zero for a key that is not there.
unfoldable pub counter_get : Key → DLeft ℕ → Result Fault ℕ
counter_get key d = elim (read key d) [ err e ↦ err e | ok none ↦ ok 0 | ok (some v) ↦ ok v ]

unfoldable pub counter_clear : DLeft ℕ → DLeft ℕ
counter_clear d = clear 0 d

unfoldable pub counter_reset : Key → DLeft ℕ → Result Fault Bool × DLeft ℕ
counter_reset key d = remove key d

-- The sum of a counter and a quantity is computed as a `double` and converted back: a parameter.
module _ {Quantity : Type 0} (sum : ℕ → Quantity → ℕ) where
  -- `*entry += quantity`, and its value.
  unfoldable pub bump : Quantity → ℕ → ℕ → DLeft ℕ → Result CounterFault ℕ × DLeft ℕ
  bump q i p d = elim (object_of (node_at i p d.tables)) [
    | none ↦ (err (in_table read_outside), d)
    | some v ↦ (ok (sum v q), record d { tables = update (store (sum v q)) i p d.tables })
  ]

  -- The entry that `reserve` gave, once it is zero, with the assertion that there is one.
  unfoldable pub bump_new :
      Quantity → Result Fault (Option Slot) × DLeft ℕ → Result CounterFault ℕ × DLeft ℕ
  unfolding bump
  bump_new q (err e, d) = (err (in_table e), d)
  bump_new q (ok none, d) = (err assertion_failed, d)
  bump_new q (ok (some (i, p)), d) = bump q i p d

  -- `reserve` and `*entry = 0` are `add` of a zero.
  unfoldable pub counter_add : Key → Quantity → DLeft ℕ → Result CounterFault ℕ × DLeft ℕ
  unfolding bump bump_new
  counter_add key q d = elim (get key d) [
    | err e ↦ (err (in_table e), d)
    | ok none ↦ bump_new q (add 0 key 0 d)
    | ok (some (i, p)) ↦ bump q i p d
  ]

  -- What an addition may lead to.
  abbrev pub Counted : Key → Quantity → DLeft ℕ → Result CounterFault ℕ × DLeft ℕ → Type 0
  Counted key q d r =
      ((old : ℕ) × (counter_get key d ≡ ok old)
        × (r.0 ≡ ok (sum old q))
        × (counter_get key r.1 ≡ ok (sum old q))
        × WellFormed r.1)
      ⊎ ((counter_get key d ≡ ok 0)
          × (r.0 ≡ err assertion_failed)
          × (r.1 ≡ d)
          × (length d.tables ≡ d.nhash)
          × (vacancy (fingerprint key) (probe_from key d.shash 0 d.tables) ≡ none))
