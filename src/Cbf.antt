-- ===== src/Cbf.antt =====
-- lib/lib_botstream/cbf.cpp: a counting Bloom filter. Each operation hashes its key once, and takes the
-- hash values as a parameter: `hash key i` is `khash->H(i)` after `khash->compute` of the key, which
-- is `value` of Khash.Digests at what `msgdig` holds before the call. Cbf.History runs calls one
-- after another, with the `msgdig` that each leaves to the next.
pub mod Updates
pub mod Estimates
pub mod History
pub mod Tests
use dstreamon.Base.{
  ℕ, zero, suc, ◌+◌, ◌-◌, ◌^◌, Bool, true, false, not, ◌&&◌, ◌||◌, List, [], ◌∷◌, Option, none,
  some, Result, ok, err, map, length, ltb, leb, ◌==◌, if◌then◌else◌, get_or, set, replicate,
}
use dstreamon.Log2.{log2, fits}

-- `UINT_MAX`
abbrev pub uint_max : ℕ
uint_max = 2 ^ 32 - 1

pub data Fault : Type 0 where
  assertion_failed overflow : Fault

pub record Cbf : Type 0 where
  pub countset : List ℕ
  pub nhash : ℕ
  pub hashsize : ℕ
  pub counters : ℕ

-- `countset[k]`, and a write to it.
abbrev pub count_at : List ℕ → ℕ → ℕ
count_at c k = get_or c k 0

-- The constructor, with its assertions; `reset` clears the counters.
unfoldable pub create : ℕ → ℕ → Result Fault Cbf
create counters nhash =
    if ltb 0 counters && (ltb 0 nhash && fits counters)
    then ok (record {
      countset = replicate counters 0;
      nhash = nhash;
      hashsize = log2 counters;
      counters = counters;
    })
    else err assertion_failed

unfoldable pub reset : Cbf → Cbf
reset s = record s { countset = replicate s.counters 0 }

-- What the loop of `add_normal` keeps: the counters, the least new value, and the flag.
pub record Adding : Type 0 where
  pub counts : List ℕ
  pub least : ℕ
  pub exc : Bool

abbrev pub smaller : ℕ → ℕ → ℕ
smaller v x = if ltb v x then v else x

-- `add_normal(in, len)`: a counter at its maximum stays, and raises the flag.
abbrev pub bump_one : ℕ → Adding → Adding
bump_one k a =
    let c = count_at a.counts k in
    if c == uint_max
    then record a { exc = true }
    else record a { counts = set a.counts k (c + 1); least = smaller (c + 1) a.least }

-- `add_normal(in, len, amount)`: a counter that would overflow is set to its maximum.
abbrev pub add_one : ℕ → ℕ → Adding → Adding
add_one amount k a =
    let c = count_at a.counts k in
    if ltb (uint_max - c) amount
    then record a { counts = set a.counts k uint_max; exc = true }
    else record a { counts = set a.counts k (c + amount); least = smaller (c + amount) a.least }

unfoldable pub bump_each : List ℕ → Adding → Adding
bump_each [] a = a
bump_each (k ∷ ks) a = bump_each ks (bump_one k a)

unfoldable pub add_each : ℕ → List ℕ → Adding → Adding
add_each amount [] a = a
add_each amount (k ∷ ks) a = add_each amount ks (add_one amount k a)

-- The loop that looks for the least counter, from the bound `x` on.
unfoldable pub least_count : List ℕ → List ℕ → ℕ → ℕ
least_count [] c x = x
least_count (k ∷ ks) c x = least_count ks c (smaller (count_at c k) x)

-- The second loop of `add_conservative`, and of `fill`.
unfoldable pub raise_equal : ℕ → List ℕ → List ℕ → List ℕ
raise_equal x [] c = c
raise_equal x (k ∷ ks) c = raise_equal x ks (if count_at c k == x then set c k (x + 1) else c)

unfoldable pub raise_below : ℕ → List ℕ → List ℕ → List ℕ
raise_below x [] c = c
raise_below x (k ∷ ks) c = raise_below x ks (if ltb (count_at c k) x then set c k x else c)

-- The two loops of `decrement`.
unfoldable pub decrement_each : ℕ → List ℕ → List ℕ
decrement_each amount [] = []
decrement_each amount (c ∷ cs) = (if leb c amount then 0 else c - amount) ∷ decrement_each amount cs

unfoldable pub decrement_by_one : List ℕ → List ℕ
decrement_by_one [] = []
decrement_by_one (c ∷ cs) = (if ltb 0 c then c - 1 else c) ∷ decrement_by_one cs

unfoldable pub decrement : ℕ → Cbf → Result Fault Cbf
unfolding decrement_each decrement_by_one
decrement amount s =
    if ltb 0 amount && leb amount uint_max
    then (if amount == 1
        then ok (record s { countset = decrement_by_one s.countset })
        else ok (record s { countset = decrement_each amount s.countset }))
    else err assertion_failed

-- The numbers from `i` on.
abbrev pub upto : ℕ → ℕ → List ℕ
upto zero i = []
upto (suc n) i = i ∷ upto n (suc i)

module _ {Key : Type 0} (hash : Key → ℕ → ℕ) where
  -- The counters of a key.
  abbrev pub places : Cbf → Key → List ℕ
  places s key = map (hash key) (upto s.nhash 0)

  -- What the two `add_normal` return once their loops are done.
  abbrev pub finish : Cbf → Adding → Result Fault ℕ × Cbf
  finish s a = (if a.exc then err overflow else ok a.least, record s { countset = a.counts })

  abbrev pub start : Cbf → Adding
  start s = record { counts = s.countset; least = uint_max; exc = false }

  unfoldable pub add_normal : Key → Cbf → Result Fault ℕ × Cbf
  unfolding bump_each
  add_normal key s = finish s (bump_each (places s key) (start s))

  unfoldable pub add_amount : Key → ℕ → Cbf → Result Fault ℕ × Cbf
  unfolding add_each
  add_amount key amount s = finish s (add_each amount (places s key) (start s))

  unfoldable pub get_count : Key → Cbf → ℕ
  unfolding least_count
  get_count key s = least_count (places s key) s.countset uint_max

  unfoldable pub add_conservative : Key → Cbf → Result Fault ℕ × Cbf
  unfolding least_count raise_equal
  add_conservative key s =
      let x = least_count (places s key) s.countset uint_max in
      if x == uint_max
      then (err overflow, s)
      else (ok (x + 1), record s { countset = raise_equal x (places s key) s.countset })

  unfoldable pub fill : Key → ℕ → Cbf → Result Fault ℕ × Cbf
  unfolding least_count raise_below
  fill key amount s =
      let x = least_count (places s key) s.countset uint_max in
      if leb amount (uint_max - x)
      then (
        ok (x + amount),
        record s { countset = raise_below (x + amount) (places s key) s.countset },
      )
      else (err overflow, record s { countset = raise_below uint_max (places s key) s.countset })
