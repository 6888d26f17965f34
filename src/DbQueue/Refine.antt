-- ===== src/DbQueue/Refine.antt =====
-- core/block/DBQueue.hpp: calls that do not overlap see a queue of two batches.
use dstreamon.Base.{
  ℕ, suc, ◌+◌, ◌-◌, ◌*◌, ◌^◌, ◌≤◌, ◌<◌, ◌≡◌, refl, ◌∙◌, ◌⊎◌, inl, inr, Bool, true, false, List, [],
  ◌∷◌, ◌++◌, Option, none, some, arith, length, get_or, length-set, length-append, length-replicate,
  length-map, ◌==◌, if◌then◌else◌, Bool-cases, ==_iff,
}
use dstreamon.DbQueue.{
  DbQueue, exchange_queue, queue_at, slot, init, swap_queues, consume_from, consume, pop, store,
  push, reset,
}
use dstreamon.DbQueue.Slots.{
  Filled, Drained, Filled-set, invalidate-Drained, length-invalidate, Drained-get, Drained-set,
  poll_lem, replicate-Filled, reset_slot-Filled,
}

-- The batch that the consumer reads, and the batch that the producers fill.
pub record Batches (T : Type 0) : Type 0 where
  pub reading : List T
  pub writing : List T

-- The next message comes from the batch being read, and else from the other batch, which is then read.
abbrev pub pop_batches : {T : Type 0} → List T → List T → Option T × Batches T
pop_batches [] [] = (none, record { reading = []; writing = [] })
pop_batches [] (y ∷ ys) = (some y, record { reading = ys; writing = [] })
pop_batches (x ∷ xs) ys = (some x, record { reading = xs; writing = ys })

-- A batch of `qlen` messages takes no more.
abbrev pub push_batches : {T : Type 0} → ℕ → Batches T → T → Bool × Batches T
push_batches qlen b x =
    if length b.writing == qlen
    then (false, b)
    else (true, record b { writing = b.writing ++ x ∷ [] })

-- The queue `s` holds the batches `xs` (being read) and `ys` (being filled).
pub record Holds {T : Type 0} (qlen : ℕ) (s : DbQueue T) (xs ys : List T) : Type 0 where
  pub side : (s.consumer_q ≡ 0) ⊎ (s.consumer_q ≡ 1)
  pub tail : s.pointer ≡ exchange_queue s.consumer_q * 2 ^ 30 + length ys
  pub fits : length ys ≤ qlen
  pub is_full : s.full ≡ (length ys == qlen)
  pub drained : Drained s.reading xs (queue_at s s.consumer_q)
  pub total : s.full_slots ≡ s.reading + length xs
  pub filled : Filled ys (queue_at s (exchange_queue s.consumer_q))
  pub size0 : length s.queue0 ≡ qlen
  pub size1 : length s.queue1 ≡ qlen

module _ {T : Type 0} (null : T) (qlen : ℕ) (some_slot : 0 < qlen) (small : qlen < 2 ^ 30) where
  -- A new queue holds nothing.
  pub init-Holds : Holds {T = T} qlen (init null qlen) [] []
  unfolding init
  init-Holds = record {
    side = inr refl;
    tail = refl;
    fits = omega arith;
    is_full = ground arith;
    drained = replicate-Filled null qlen qlen;
    total = refl;
    filled = replicate-Filled null qlen qlen;
    size0 = length-replicate qlen _;
    size1 = length-replicate qlen _;
  }

  -- `reset` makes a queue whose arrays have their size, 1 to 2 ^ 30 - 1 slots, one that holds nothing,
  -- whatever else its state is.
  pub reset-Holds :
      (s : DbQueue T)
      → length s.queue0 ≡ qlen
      → length s.queue1 ≡ qlen
      → Holds {T = T} qlen (reset null qlen s) [] []
  unfolding reset
  reset-Holds s e0 e1 = record {
    side = inr refl;
    tail = refl;
    fits = omega arith;
    is_full = ground arith;
    drained = reset_slot-Filled null qlen s.queue1;
    total = refl;
    filled = reset_slot-Filled null qlen s.queue0;
    size0 = length-map s.queue0 _ ∙ e0;
    size1 = length-map s.queue1 _ ∙ e1;
  }

  push-Holds_room :
      (s : DbQueue T) (xs ys : List T) (x : T)
      → Holds qlen s xs ys
      → length ys < qlen
      → ((push null qlen s x).0 ≡ true) × Holds qlen (push null qlen s x).1 xs (ys ++ x ∷ [])
  unfolding push store
  push-Holds_room s xs ys x h lt = ground (
    arith,
    Filled-set ys s.queue0 x,
    Filled-set ys s.queue1 x,
    length-append ys (x ∷ []),
    length-set s.queue0 (length ys) (record { valid = true; payload = x }),
    length-set s.queue1 (length ys) (record { valid = true; payload = x }),
  )

  push_full :
      (s : DbQueue T) (xs ys : List T) (x : T)
      → Holds qlen s xs ys
      → length ys ≡ qlen
      → push null qlen s x ≡ (false, s)
  unfolding push
  push_full s xs ys x h e = ground arith

  consume-Holds_next :
      (s : DbQueue T) (x : T) (xs ys : List T)
      → Holds qlen s (x ∷ xs) ys
      → ((consume null qlen s).0 ≡ some x) × Holds qlen (consume null qlen s).1 xs ys
  unfolding consume consume_from
  consume-Holds_next s x xs ys h =
      let v = queue_at s s.consumer_q in
      let e : s.full_slots - s.reading ≡ suc (length xs) = omega arith in
      let found = Drained-get s.reading x xs v (slot null qlen) h.drained in
      let taken = record (get_or v s.reading (slot null qlen)) { payload = null } in
      rw (e, poll_lem 99, found.0)
        (ground (
          arith,
          found,
          Drained-set s.reading x xs v taken,
          length-set s.queue0 s.reading taken,
          length-set s.queue1 s.reading taken,
        ))

  consume-Holds_empty :
      (s : DbQueue T) (ys : List T) → Holds qlen s [] ys → consume null qlen s ≡ (none, s)
  unfolding consume consume_from
  consume-Holds_empty s ys h = rw (let e : s.full_slots - s.reading ≡ 0 = omega arith in e)

  swap_queues-Holds :
      (s : DbQueue T) (ys : List T)
      → Holds qlen s [] ys
      → Holds qlen (swap_queues null qlen s) ys []
  unfolding swap_queues
  swap_queues-Holds s ys h = ground (
    arith,
    invalidate-Drained s.reading [] s.queue0 s.full_slots,
    invalidate-Drained s.reading [] s.queue1 s.full_slots,
    length-invalidate s.full_slots s.queue0,
    length-invalidate s.full_slots s.queue1,
  )

  -- A push to a queue of 1 to 2 ^ 30 - 1 slots that holds two batches appends its message to the
  -- batch being filled, and fails exactly when that batch is full; it then changes nothing.
  pub push-Holds :
      (s : DbQueue T) (xs ys : List T) (x : T)
      → Holds qlen s xs ys
      → let (done, b) = push_batches qlen (record { reading = xs; writing = ys }) x in
        ((push null qlen s x).0 ≡ done) × Holds qlen (push null qlen s x).1 b.reading b.writing
  push-Holds s xs ys x h = elim (Bool-cases (length ys == qlen)) [
    | inl full ↦ rw (full, push_full s xs ys x h ((==_iff (length ys) qlen).0 full)) (refl, h)
    | inr room ↦ rw room (push-Holds_room s xs ys x h (ground arith))
  ]

  pop_swaps :
      (s : DbQueue T)
      → consume null qlen s ≡ (none, s)
      → pop null qlen s ≡ consume null qlen (swap_queues null qlen s)
  unfolding pop
  pop_swaps s e = rw (e, pop) (rw e)

  -- A pop from a queue of 1 to 2 ^ 30 - 1 slots that holds two batches takes the first message of the
  -- batch being read; when that is empty it swaps the batches, and returns nothing only if both are.
  pub pop-Holds :
      (s : DbQueue T) (xs ys : List T)
      → Holds qlen s xs ys
      → let (found, b) = pop_batches xs ys in
        ((pop null qlen s).0 ≡ found) × Holds qlen (pop null qlen s).1 b.reading b.writing
  unfolding pop
  pop-Holds s (x ∷ xs) ys h =
      let next = consume-Holds_next s x xs ys h in rw (next.0, pop) (refl, next.1)
  pop-Holds s [] [] h =
      let swapped = swap_queues-Holds s [] h in
      rw (pop_swaps s (consume-Holds_empty s [] h))
        (rw (consume-Holds_empty (swap_queues null qlen s) [] swapped) (refl, swapped))
  pop-Holds s [] (y ∷ ys) h =
      rw (pop_swaps s (consume-Holds_empty s (y ∷ ys) h))
        (consume-Holds_next _ y ys [] (swap_queues-Holds s (y ∷ ys) h))
