-- ===== src/Cbf/Estimates.antt =====
-- lib/lib_botstream/cbf.cpp: the estimates that the filter gives after an update.
use dstreamon.Base.{
  min, dec_lt, ℕ, ◌+◌, ◌-◌, ◌^◌, ◌≤◌, ◌<◌, ◌≡◌, ◌≢◌, refl, sym, ap, true, false, List, [], ◌∷◌, ok,
  err, arith, length, map, max, leb, ◌==◌, inl, inr, Bool-cases, ==_iff, replicate,
  length-replicate,
}
use dstreamon.Log2.{fits, fits_exact}
use dstreamon.Cbf.{
  Cbf, overflow, least_count, raise_below, uint_max, upto, places, create, get_count,
  add_conservative, fill,
}
use dstreamon.Cbf.Updates.{
  AllPlaces, least_count-ge, least_count-le, least_count_mono, least_count-start, least_count-all,
  count_at-raise_below, AllAtLeast-raise_below, raise_equal-raise_below, raise_below_done,
  length-raise_equal,
}

-- A filter is only made of a size that is a power of two, the one that its hash values range over;
-- all its counters are then zero.
pub create_lem :
    (counters nhash : ℕ) (s : Cbf)
    → create counters nhash ≡ ok s
    → (counters ≡ 2 ^ s.hashsize)
      × (length s.countset ≡ counters)
      × (s.countset ≡ replicate counters 0)
      × (nhash ≢ 0)
unfolding create
create_lem counters nhash s e = elim (Bool-cases (fits counters)) [
  | inr bad ↦ absurd (ground (arith, bad))
  | inl good ↦ (
    ground (arith, fits_exact counters (ground arith) good),
    ground (arith, length-replicate {A = ℕ} counters 0),
    ground arith,
    ground arith,
  )
]

module _ {Key : Type 0} (hash : Key → ℕ → ℕ) where
  -- Every hash value is a place of the array.
  abbrev pub InPlace : Cbf → Type 0
  InPlace s = (key : Key) (i : ℕ) → hash key i < length s.countset

  map-AllPlaces :
      (key : Key) (is : List ℕ) (s : Cbf) → InPlace s → AllPlaces (map (hash key) is) s.countset
  map-AllPlaces key [] s h = tt
  map-AllPlaces key (i ∷ is) s h = (h key i, map-AllPlaces key is s h)

  -- The filter with its counters raised to `v` for a key.
  abbrev raised : ℕ → Key → Cbf → Cbf
  raised v key s = record s { countset = raise_below v (places hash s key) s.countset }

  get_count-raised :
      (v : ℕ) (key : Key) (s : Cbf)
      → InPlace s
      → get_count hash key s ≤ v
      → v ≤ uint_max
      → get_count hash key (raised v key s) ≡ v
  unfolding get_count
  get_count-raised v key s h low high =
      let ks = places hash s key in
      let all = map-AllPlaces key (upto s.nhash 0) s h in
      let c' = raise_below v ks s.countset in
      let above =
        least_count-ge v ks c' uint_max (AllAtLeast-raise_below v ks s.countset all) high in
      let below =
        least_count-le v ks s.countset c' uint_max uint_max
          (λ j. (count_at-raise_below v ks s.countset j all).1) (omega arith) in
      ground (arith, above, below, low)

  get_count-raised_other :
      (v : ℕ) (key other : Key) (s : Cbf)
      → InPlace s
      → (get_count hash other s ≤ get_count hash other (raised v key s))
        × (get_count hash other (raised v key s) ≤ max (get_count hash other s) v)
  unfolding get_count
  get_count-raised_other v key other s h =
      let ks = places hash s key in
      let all = map-AllPlaces key (upto s.nhash 0) s h in
      let c' = raise_below v ks s.countset in
      (
        least_count_mono (places hash s other) s.countset c' uint_max uint_max
            (λ j. (count_at-raise_below v ks s.countset j all).0) (omega arith),
        least_count-le v (places hash s other) s.countset c' uint_max uint_max
            (λ j. (count_at-raise_below v ks s.countset j all).1) (omega arith),
      )

  -- Water filling by an amount that does not overflow: it returns the new estimate of the key, the
  -- old one and the amount. No estimate of another key goes down, and none goes beyond both its old
  -- value and the new estimate.
  pub fill_lem :
      (key other : Key) (amount : ℕ) (s : Cbf)
      → InPlace s
      → get_count hash key s + amount ≤ uint_max
      → let (r, s') = fill hash key amount s in
        let v = get_count hash key s + amount in
        (r ≡ ok v)
        × (get_count hash key s' ≡ v)
        × (get_count hash other s ≤ get_count hash other s')
        × (get_count hash other s' ≤ max (get_count hash other s) v)
  unfolding fill get_count
  fill_lem key other amount s h small =
      let x = get_count hash key s in
      let room : leb amount (uint_max - x) ≡ true = ground arith in
      let (more, less) = get_count-raised_other (x + amount) key other s h in
      rw room (refl, get_count-raised (x + amount) key s h (omega arith) small, more, less)

  -- An amount that overflows is reported, and saturates the estimate of the key.
  pub fill_overflow :
      (key : Key) (amount : ℕ) (s : Cbf)
      → InPlace s
      → uint_max < get_count hash key s + amount
      → let (r, s') = fill hash key amount s in
        (r ≡ err overflow) × (get_count hash key s' ≡ uint_max)
  unfolding fill get_count
  fill_overflow key amount s h large =
      let x = get_count hash key s in
      let bound : x ≤ uint_max = least_count-start (places hash s key) s.countset uint_max in
      let full : leb amount (uint_max - x) ≡ false = ground arith in
      rw full (refl, get_count-raised uint_max key s h bound (omega arith))

  fill_mono :
      (key other : Key) (amount : ℕ) (s : Cbf)
      → InPlace s
      → get_count hash other s ≤ get_count hash other (fill hash key amount s).1
  unfolding fill
  fill_mono key other amount s h =
      let x = least_count (places hash s key) s.countset uint_max in
      elim (Bool-cases (leb amount (uint_max - x))) [
        | inl room ↦ rw room (get_count-raised_other (x + amount) key other s h).0
        | inr full ↦ rw full (get_count-raised_other uint_max key other s h).0
      ]

  -- The conservative update is the water filling by one, in the result, the counters and the
  -- exception.
  pub add_conservative-fill :
      (key : Key) (s : Cbf) → InPlace s → add_conservative hash key s ≡ fill hash key 1 s
  unfolding add_conservative fill get_count
  add_conservative-fill key s h =
      let ks = places hash s key in
      let x = least_count ks s.countset uint_max in
      let all = map-AllPlaces key (upto s.nhash 0) s h in
      let least = least_count-all ks s.countset uint_max in
      let bound : x ≤ uint_max = least_count-start ks s.countset uint_max in
      elim (Bool-cases (x == uint_max)) [
        | inl full ↦
            let top : x ≡ uint_max = (==_iff x uint_max).0 full in
            let stays : raise_below uint_max ks s.countset ≡ s.countset =
              raise_below_done uint_max ks s.countset (rw top at least) in
            let no_room : leb 1 (uint_max - x) ≡ false = ground (arith, top) in
            rw (full, no_room) (ap (λ c. (err overflow, record s { countset = c })) (sym stays))
        | inr room ↦
            let some_room : leb 1 (uint_max - x) ≡ true = ground (arith, bound) in
            rw (room, some_room)
              (ap (λ c. (ok (x + 1), record s { countset = c }))
                (raise_equal-raise_below x ks s.countset all least))
      ]

  pub InPlace-add_conservative :
      (key : Key) (s : Cbf) → InPlace s → InPlace (add_conservative hash key s).1
  unfolding add_conservative
  InPlace-add_conservative key s h =
      elim (Bool-cases (least_count (places hash s key) s.countset uint_max == uint_max)) [
        | inl full ↦ rw full h
        | inr room ↦
            rw room
              (λ k i. omega (arith, h k i, length-raise_equal _ (places hash s key) s.countset))
      ]

  -- One conservative update: the estimate of its key goes up by one unless it is saturated, and no
  -- estimate goes down.
  pub get_count-add_conservative :
      (key other : Key) (s : Cbf)
      → InPlace s
      → (min uint_max (get_count hash key s + 1)
          ≤ get_count hash key (add_conservative hash key s).1)
        × (get_count hash other s ≤ get_count hash other (add_conservative hash key s).1)
  unfolding get_count
  get_count-add_conservative key other s h =
      rw (add_conservative-fill key s h) (elim (dec_lt uint_max (get_count hash key s + 1)) [
        | yes large ↦
            let (_, top) = fill_overflow key 1 s h large in
            (ground (arith, top), fill_mono key other 1 s h)
        | no small ↦
            let (_, mine, more, _) = fill_lem key other 1 s h (omega arith) in
            (ground (arith, mine), more)
      ])
