-- ===== src/Cbf/History.antt =====
-- lib/lib_botstream/cbf.cpp: the estimate of a key against how often it was added.
use dstreamon.Base.{
  ℕ, ◌+◌, ◌^◌, ◌≤◌, ◌<◌, ◌≡◌, sym, ap, ◌∙◌, Bool, true, List, [], ◌∷◌, arith, min, length,
  if◌then◌else◌, inl, inr, Bool-cases, subst,
}
use dstreamon.Khash.{Khash, compute}
use dstreamon.Khash.Values.{cut_each_bound}
use dstreamon.Khash.Digests.{digest, value, HasOneDigest, HasOneDigest-digest, value-digest}
use dstreamon.Cbf.{Cbf, uint_max, get_count, add_conservative}
use dstreamon.Cbf.Estimates.{InPlace, InPlace-add_conservative, get_count-add_conservative}

-- The hash object has what the constructor of the filter gives it, and the counters are as many as a
-- hash value of that size can name.
pub record IsFilter (h : Khash) (s : Cbf) : Type 0 where
  pub hashes : h.nhash ≡ s.nhash
  pub size : h.shash ≡ s.hashsize
  pub counters : length s.countset ≡ 2 ^ s.hashsize

module _ (sha : List ℕ → List ℕ) (h : Khash) where
  -- Conservative updates for the keys of a list, in order: what `msgdig` holds after them, and the
  -- filter.
  unfoldable pub add_all : List (List ℕ) → List ℕ → Cbf → List ℕ × Cbf
  unfolding add_conservative value digest
  add_all [] m s = (m, s)
  add_all (k ∷ ks) m s = add_all ks (digest sha h k m) (add_conservative (value sha h m) k s).1

  InPlace-value : (m : List ℕ) (s : Cbf) → IsFilter h s → InPlace (value sha h m) s
  unfolding value compute
  InPlace-value m s made key i =
      subst (λ n. value sha h m key i < n) (ap (λ w. 2 ^ w) made.size ∙ sym made.counters)
        (cut_each_bound h.nhash h.shash (digest sha h key m) 0 i)

  module _ (same : List ℕ → List ℕ → Bool) where
    abbrev pub occurrences : List ℕ → List (List ℕ) → ℕ
    occurrences key [] = 0
    occurrences key (k ∷ ks) = (if same k key then 1 else 0) + occurrences key ks

    -- One update: the estimate of a key does not go down, and goes up where the update is for it.
    step_lem :
        (key k : List ℕ) (m : List ℕ) (s : Cbf)
        → ((j : List ℕ) → same j key ≡ true → j ≡ key)
        → InPlace (value sha h m) s
        → min uint_max (get_count (value sha h m) key s + (if same k key then 1 else 0))
          ≤ get_count (value sha h m) key (add_conservative (value sha h m) k s).1
    step_lem key k m s exact placed =
        let hash = value sha h m in
        let next = (add_conservative hash k s).1 in
        let (mine, more) = get_count-add_conservative hash k key s placed in
        elim (Bool-cases (same k key)) [
          | inr other ↦ rw other (omega (arith, more))
          | inl hit ↦ rw hit (
              subst (λ j. min uint_max (get_count hash j s + 1) ≤ get_count hash j next)
                (exact k hit) mine)
        ]

    run_lem :
        (key : List ℕ) (ks : List (List ℕ)) (m : List ℕ) (s : Cbf)
        → ((j : List ℕ) → same j key ≡ true → j ≡ key)
        → HasOneDigest sha h m
        → InPlace (value sha h m) s
        → let (m', s') = add_all ks m s in
          min uint_max (get_count (value sha h m) key s + occurrences key ks)
          ≤ get_count (value sha h m') key s'
    unfolding add_all
    run_lem key [] m s exact one placed = omega arith
    run_lem key (k ∷ ks) m s exact one placed =
        let m' = digest sha h k m in
        let s' = (add_conservative (value sha h m) k s).1 in
        let same_hash = value-digest sha h k m one in
        let placed' : InPlace (value sha h m') s' =
          subst (λ f. InPlace f s') (sym same_hash)
            (InPlace-add_conservative (value sha h m) k s placed) in
        let rest = run_lem key ks m' s' exact (HasOneDigest-digest sha h k m one) placed' in
        let count : get_count (value sha h m') key s' ≡ get_count (value sha h m) key s' =
          ap (λ f. get_count f key s') same_hash in
        omega (arith, rest, count, step_lem key k m s exact placed)

    -- Where one digest has all the bits that the hash values need, the hash object has what the
    -- filter's constructor gives it, and the filter has a counter for each hash value, no key is
    -- underestimated: after conservative updates, the estimate of a key is at least its estimate
    -- before and the number of updates for keys that are tested equal to it, up to the largest value
    -- of a counter, if that test takes no other key for it.
    pub get_count-add_all :
        (key : List ℕ) (ks : List (List ℕ)) (m : List ℕ) (s : Cbf)
        → ((j : List ℕ) → same j key ≡ true → j ≡ key)
        → HasOneDigest sha h m
        → IsFilter h s
        → let (m', s') = add_all ks m s in
          min uint_max (get_count (value sha h m) key s + occurrences key ks)
          ≤ get_count (value sha h m') key s'
    get_count-add_all key ks m s exact one made =
        run_lem key ks m s exact one (InPlace-value m s made)
