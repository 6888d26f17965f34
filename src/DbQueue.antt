-- ===== src/DbQueue.antt =====
-- core/block/DBQueue.hpp: the double-buffered queue between gates and active blocks.
pub mod Slots
pub mod Refine
pub mod Fifo
pub mod Tests
use dstreamon.Base.{
  ℕ, zero, suc, ◌+◌, ◌-◌, ◌*◌, ◌/◌, ◌%◌, ◌^◌, min, Bool, true, false, List, [], ◌∷◌, Option, none,
  some, leb, ◌==◌, if◌then◌else◌, set, get_or, replicate, map,
}

-- `struct slot`. `T` is a shared pointer, and `null` the empty one.
pub record Slot (T : Type 0) : Type 0 where
  pub valid : Bool
  pub payload : T

-- The fields of the class; `m_pointer` holds the producers' queue in bits 30 and 31 and their next
-- slot in the bits below.
pub record DbQueue (T : Type 0) : Type 0 where
  pub queue0 : List (Slot T)
  pub queue1 : List (Slot T)
  pub pointer : ℕ
  pub reading : ℕ
  pub consumer_q : ℕ
  pub full_slots : ℕ
  pub full : Bool

-- `exchange_queue`
abbrev pub exchange_queue : ℕ → ℕ
exchange_queue q = if q == 0 then 1 else 0

-- `m_queues[q]`, and a write to it.
abbrev pub queue_at : {T : Type 0} → DbQueue T → ℕ → List (Slot T)
queue_at s q = if q == 0 then s.queue0 else s.queue1

abbrev pub put_queue : {T : Type 0} → DbQueue T → ℕ → List (Slot T) → DbQueue T
put_queue s q v = if q == 0 then record s { queue0 = v } else record s { queue1 = v }

-- `MASK` is bits 30 and 31: `p & MASK` shifted down, and `p & ~MASK`.
abbrev pub masked_queue : ℕ → ℕ
masked_queue p = p % 2 ^ 32 / 2 ^ 30

abbrev pub masked_slot : ℕ → ℕ
masked_slot p = p % 2 ^ 30

-- The loop of `swap_queues` over the first `n` slots.
pub invalidate : {T : Type 0} → ℕ → List (Slot T) → List (Slot T)
invalidate zero v = v
invalidate (suc n) [] = []
invalidate (suc n) (s ∷ v) = record s { valid = false } ∷ invalidate n v

-- The hundred looks at one `valid` flag, 10 microseconds apart.
pub poll : ℕ → Bool → Bool
poll zero valid = false
poll (suc n) valid = let later = poll n valid in if valid then true else later

module _ {T : Type 0} (null : T) (qlen : ℕ) where
  abbrev pub slot : Slot T
  slot = record { valid = false; payload = null }

  -- The constructor.
  pub init : DbQueue T
  init = record {
    queue0 = replicate qlen slot;
    queue1 = replicate qlen slot;
    pointer = 0;
    reading = 0;
    consumer_q = 1;
    full_slots = 0;
    full = false;
  }

  -- The queue that was read is emptied and handed to the producers.
  pub swap_queues : DbQueue T → DbQueue T
  swap_queues s = record swapped {
    pointer = s.consumer_q * 2 ^ 30;
    reading = 0;
    consumer_q = exchange_queue s.consumer_q;
    full_slots = min (masked_slot s.pointer) qlen;
    full = false;
  }
    where
      swapped : DbQueue T
      swapped = put_queue s s.consumer_q (invalidate s.full_slots (queue_at s s.consumer_q))

  -- The loop of `consume`, by the number of slots left: `full_slots - reading`. What it moves out of
  -- a slot leaves the empty pointer there.
  pub consume_from : ℕ → DbQueue T → Option T × DbQueue T
  consume_from zero s = (none, s)
  consume_from (suc n) s =
      let v = queue_at s s.consumer_q in
      let found = get_or v s.reading slot in
      let taken = put_queue s s.consumer_q (set v s.reading (record found { payload = null })) in
      let skipped = consume_from n (record s { reading = s.reading + 1 }) in
      if poll 100 found.valid
      then (some found.payload, record taken { reading = s.reading + 1 })
      else skipped

  pub consume : DbQueue T → Option T × DbQueue T
  unfolding consume_from
  consume s = consume_from (s.full_slots - s.reading) s

  -- `none` is the result `false`.
  pub pop : DbQueue T → Option T × DbQueue T
  pop s =
      let (found, s') = consume s in
      elim found [ some x ↦ (some x, s') | none ↦ consume (swap_queues s') ]

  -- The write of `push` to the slot that `fetch_add` gave it.
  pub store : DbQueue T → ℕ → ℕ → T → DbQueue T
  store s q i x = put_queue s q (set (queue_at s q) i (record { valid = true; payload = x }))

  pub push : DbQueue T → T → Bool × DbQueue T
  push s x =
      let next = record s { pointer = (s.pointer + 1) % 2 ^ 32 } in
      let q = masked_queue s.pointer in
      let i = masked_slot s.pointer in
      if s.full
      then (false, s)
      else if leb (qlen - 1) i
      then (if i == qlen - 1
          then (true, store (record next { full = true }) q i x)
          else (false, next))
      else (true, store next q i x)

  -- `reset`: what is valid is destroyed, and all else is as after construction.
  pub reset_slot : Slot T → Slot T
  reset_slot c = if c.valid then slot else c

  pub reset : DbQueue T → DbQueue T
  unfolding reset_slot
  reset s = record {
    queue0 = map reset_slot s.queue0;
    queue1 = map reset_slot s.queue1;
    pointer = 0;
    reading = 0;
    consumer_q = 1;
    full_slots = 0;
    full = false;
  }
