-- ===== src/BloomFilter/Turns.antt =====
-- lib/lib_botstream/swapbf.cpp: a key is there right after its insertion, whichever filter it is in.
use dstreamon.Base.{
  ℕ, ◌≡◌, refl, ap, ◌∙◌, ◌⊎◌, Bool, true, false, List, Result, ok, if◌then◌else◌, inl, inr,
  Bool-cases,
}
use dstreamon.BloomFilter.{Fault, stats_sbf, is_present}
use dstreamon.BloomFilter.Swap.{
  Filter, SwapBf, hash_of, computed, filter_present, filter_reset, insert_step, insert_swap,
  is_present_swap,
}
use dstreamon.BloomFilter.Order.{
  IsInOrder, Has, stats_sbf-reset, some_bit, IsInOrder-computed, IsInOrder-filter_reset,
  filter_present_total, Has-computed, filter_insert_lem,
}

module _ (sha : List ℕ → List ℕ) where
  -- What a step of `insert` leaves: the filter that is then active has the key, the other one is not
  -- full, and both are in order.
  abbrev Stepped : List ℕ → Result Fault (Bool × Filter × Filter) → Type 0
  Stepped key r =
      (swap : Bool) × (a : Filter) × (b : Filter) × (r ≡ ok (swap, a, b))
      × Has sha key (if swap then b else a)
      × (stats_sbf (if swap then a else b).bloom ≡ false)
      × IsInOrder sha a
      × IsInOrder sha b

  insert_step_lem :
      (key : List ℕ) (active other : Filter)
      → IsInOrder sha active
      → IsInOrder sha other
      → stats_sbf other.bloom ≡ false
      → Stepped key (insert_step sha key active other)
  unfolding insert_step
  insert_step_lem key active other h g room = go (filter_present_total sha key active h)
    where
      go :
          (b : Bool) × (is_present (hash_of sha active) key active.bloom ≡ ok b)
            × (filter_present sha key active ≡ ok (b, computed sha key active))
          → Stepped key (insert_step sha key active other)
      go (true, there, ran) = (
        false,
        computed sha key active,
        other,
        rw (ran, insert_step) (rw room),
        Has-computed sha key key active h there,
        room,
        IsInOrder-computed sha key active h,
        g,
      )
      go (false, missing, ran) =
          let (a, ran_a, in_a, good_a) =
            filter_insert_lem sha key (computed sha key active)
              (IsInOrder-computed sha key active h) in
          let (b, ran_b, in_b, good_b) = filter_insert_lem sha key other g in
          elim (Bool-cases (stats_sbf b.bloom)) [
            | inl full ↦ (
              true,
              filter_reset a,
              b,
              rw (ran, insert_step) (rw ran_a (rw ran_b (rw full))),
              in_b,
              stats_sbf-reset a.bloom (some_bit sha a good_a),
              IsInOrder-filter_reset sha a good_a,
              good_b,
            )
            | inr free ↦ (
              false,
              a,
              b,
              rw (ran, insert_step) (rw ran_a (rw ran_b (rw free))),
              in_a,
              free,
              good_a,
              good_b,
            )
          ]

  -- Both filters are in order, and the one that is not active is not full.
  pub record IsReady (s : SwapBf) : Type 0 where
    pub order1 : IsInOrder sha s.sbf1
    pub order2 : IsInOrder sha s.sbf2
    pub side :
        ((s.active_bf ≡ 1) × (stats_sbf s.sbf2.bloom ≡ false))
        ⊎ ((s.active_bf ≡ 2) × (stats_sbf s.sbf1.bloom ≡ false))

  -- The call that asks for a key finds it, and leaves the filters ready.
  abbrev pub Answers : List ℕ → SwapBf → Type 0
  Answers key s = (s' : SwapBf) × (is_present_swap sha key s ≡ ok (true, s')) × IsReady s'

  -- A key that either filter has is present.
  present_first : (key : List ℕ) (s : SwapBf) → IsReady s → Has sha key s.sbf1 → Answers key s
  unfolding is_present_swap filter_present
  present_first key s ready e = (
    record s { sbf1 = computed sha key s.sbf1 },
    rw (e, is_present_swap),
    record {
      order1 = IsInOrder-computed sha key s.sbf1 ready.order1;
      order2 = ready.order2;
      side = ready.side;
    },
  )

  present_second : (key : List ℕ) (s : SwapBf) → IsReady s → Has sha key s.sbf2 → Answers key s
  unfolding is_present_swap filter_present
  present_second key s ready e =
      let (b, e', ran) = filter_present_total sha key s.sbf1 ready.order1 in
      elim (Bool-cases b) [
        | inl on ↦ present_first key s ready (e' ∙ ap (λ c. ok c) on)
        | inr off ↦ (
          record s { sbf1 = computed sha key s.sbf1; sbf2 = computed sha key s.sbf2 },
          rw (e', is_present_swap) (rw off (rw e refl)),
          record {
            order1 = IsInOrder-computed sha key s.sbf1 ready.order1;
            order2 = IsInOrder-computed sha key s.sbf2 ready.order2;
            side = ready.side;
          },
        )
      ]

  -- What an insertion returns.
  abbrev Inserted : List ℕ → Result Fault SwapBf → Type 0
  Inserted key r = (s' : SwapBf) × (r ≡ ok s') × IsReady s' × Answers key s'

  insert_first :
      (key : List ℕ) (s : SwapBf)
      → s.active_bf ≡ 1
      → Stepped key (insert_step sha key s.sbf1 s.sbf2)
      → Inserted key (insert_swap sha key s)
  unfolding insert_swap
  insert_first key s one (true, a, b, run, there, free, good_a, good_b) =
      let s' : SwapBf = record { sbf1 = a; sbf2 = b; active_bf = 2 } in
      let ready : IsReady s' = record {
        order1 = good_a;
        order2 = good_b;
        side = inr (refl, free);
      } in
      (s', rw (one, insert_swap) (rw run), ready, present_second key s' ready there)
  insert_first key s one (false, a, b, run, there, free, good_a, good_b) =
      let s' : SwapBf = record { sbf1 = a; sbf2 = b; active_bf = 1 } in
      let ready : IsReady s' = record {
        order1 = good_a;
        order2 = good_b;
        side = inl (refl, free);
      } in
      (s', rw (one, insert_swap) (rw run), ready, present_first key s' ready there)

  insert_second :
      (key : List ℕ) (s : SwapBf)
      → s.active_bf ≡ 2
      → Stepped key (insert_step sha key s.sbf2 s.sbf1)
      → Inserted key (insert_swap sha key s)
  unfolding insert_swap
  insert_second key s two (true, b, a, run, there, free, good_b, good_a) =
      let s' : SwapBf = record { sbf1 = a; sbf2 = b; active_bf = 1 } in
      let ready : IsReady s' = record {
        order1 = good_a;
        order2 = good_b;
        side = inl (refl, free);
      } in
      (s', rw (two, insert_swap) (rw run), ready, present_first key s' ready there)
  insert_second key s two (false, b, a, run, there, free, good_b, good_a) =
      let s' : SwapBf = record { sbf1 = a; sbf2 = b; active_bf = 2 } in
      let ready : IsReady s' = record {
        order1 = good_a;
        order2 = good_b;
        side = inr (refl, free);
      } in
      (s', rw (two, insert_swap) (rw run), ready, present_second key s' ready there)

  -- From a state in which one digest has all the bits that the hash values need, both filters are in
  -- order and the one that is not active is not full, an insertion succeeds and keeps the state so.
  -- Its key is present when it is asked for next, also where the filters have just been swapped and
  -- one of them reset, and asking keeps the state so too.
  pub insert_swap_lem :
      (key : List ℕ) (s : SwapBf)
      → IsReady s
      → (s' : SwapBf) × (insert_swap sha key s ≡ ok s') × IsReady s' × Answers key s'
  insert_swap_lem key s r = elim r.side [
    | inl (one, room) ↦
        insert_first key s one (insert_step_lem key s.sbf1 s.sbf2 r.order1 r.order2 room)
    | inr (two, room) ↦
        insert_second key s two (insert_step_lem key s.sbf2 s.sbf1 r.order2 r.order1 room)
  ]
