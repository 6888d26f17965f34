-- ===== src/BloomFilter/Swap.antt =====
-- lib/lib_botstream/swapbf.cpp: two filters that take turns, so that old keys are forgotten. Each has its
-- hash object, whose `msgdig` goes from call to call.
use dstreamon.Base.{
  ℕ, ◌+◌, ◌*◌, Bool, true, false, List, Result, ok, err, ◌>>=◌, if◌then◌else◌, ◌==◌, replicate,
}
use dstreamon.Khash
use dstreamon.Khash.{Khash}
use dstreamon.Khash.Digests.{digest, value}
use dstreamon.BloomFilter.{
  Bloom, Fault, assertion_failed, create, reset, stats_sbf, insert, is_present,
}

-- A filter, its hash object and what the array `msgdig` of that holds.
pub record Filter : Type 0 where
  pub bloom : Bloom
  pub khash : Khash
  pub msgdig : List ℕ

pub record SwapBf : Type 0 where
  pub sbf1 : Filter
  pub sbf2 : Filter
  pub active_bf : ℕ

abbrev pub filter_reset : Filter → Filter
filter_reset f = record f { bloom = reset f.bloom }

module _ (sha : List ℕ → List ℕ) where
  -- The hash values that a call gets, and the filter with the digests that it leaves.
  abbrev pub hash_of : Filter → List ℕ → ℕ → ℕ
  hash_of f = value sha f.khash f.msgdig

  abbrev pub computed : List ℕ → Filter → Filter
  computed key f = record f { msgdig = digest sha f.khash key f.msgdig }

  unfoldable pub filter_present : List ℕ → Filter → Result Fault (Bool × Filter)
  unfolding digest
  filter_present key f = do b ← is_present (hash_of f) key f.bloom; ok (b, computed key f)

  unfoldable pub filter_insert : List ℕ → Filter → Result Fault Filter
  unfolding digest
  filter_insert key f = do
    s ← insert (hash_of f) key f.bloom
    ok (record (computed key f) { bloom = s })

  -- The step of `insert` on the active filter and the other one, and whether they swap: the active
  -- filter is then reset.
  unfoldable pub insert_step : List ℕ → Filter → Filter → Result Fault (Bool × Filter × Filter)
  unfolding filter_present filter_insert
  insert_step key active other = do
    (present, asked) ← filter_present key active
    (active', other') ←
        (if present
          then ok (asked, other)
          else do a ← filter_insert key asked; b ← filter_insert key other; ok (a, b))
    (if stats_sbf other'.bloom
        then ok (true, filter_reset active', other')
        else ok (false, active', other'))

  -- `SwapBF::insert`; any other number than 1 and 2 only prints a message.
  unfoldable pub insert_swap : List ℕ → SwapBf → Result Fault SwapBf
  unfolding insert_step
  insert_swap key s =
      if s.active_bf == 1
      then (do
        (swap, a, b) ← insert_step key s.sbf1 s.sbf2
        ok (record { sbf1 = a; sbf2 = b; active_bf = if swap then 2 else 1 }))
      else if s.active_bf == 2
      then (do
        (swap, b, a) ← insert_step key s.sbf2 s.sbf1
        ok (record { sbf1 = a; sbf2 = b; active_bf = if swap then 1 else 2 }))
      else ok s

  -- `SwapBF::isPresent`
  unfoldable pub is_present_swap : List ℕ → SwapBf → Result Fault (Bool × SwapBf)
  unfolding filter_present
  is_present_swap key s = do
    (first, a) ← filter_present key s.sbf1
    if first then ok (true, record s { sbf1 = a }) else do
      (second, b) ← filter_present key s.sbf2
      ok (second, record s { sbf1 = a; sbf2 = b })

-- The constructor; the digests of SHA-1 have 20 bytes, and a new `msgdig` is zero.
unfoldable pub create_filter : ℕ → ℕ → Result Fault Filter
create_filter size nhash = do
  s ← create size nhash false
  elim (Khash.create 20 nhash s.hashsize false) [
    | err e ↦ err assertion_failed
    | ok h ↦
        ok (record { bloom = s; khash = h; msgdig = replicate (h.hashtodo * h.hashdiglen + 4) 0 })
  ]

unfoldable pub create_swap : ℕ → ℕ → Result Fault SwapBf
unfolding create_filter
create_swap size nhash = do
  a ← create_filter size nhash
  b ← create_filter size nhash
  ok (record { sbf1 = a; sbf2 = b; active_bf = 1 })
