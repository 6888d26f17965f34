-- ===== src/Scheduler/RoundRobin.antt =====
-- core/scheduler/schedulers/RRScheduler.hpp: a queue for each thread, blocks dealt out in turn.
pub mod Removal
pub mod Tests
use dstreamon.Base.{
  ℕ, zero, suc, ◌+◌, ◌-◌, ◌%◌, ◌^◌, ◌≡◌, Bool, true, false, List, [], ◌∷◌, ◌++◌, Option, none, some,
  Result, ok, err, length, leb, ltb, ◌==◌, if◌then◌else◌, get_or, set, replicate,
}
use dstreamon.Scheduler.{
  Fault, thread_out_of_range, task_queue_full, queue_became_full, wrong_size, block_not_found,
}
use dstreamon.Scheduler.SharedQueue.{SharedQueue}

module _ (q : SharedQueue) where
  open q use {Queue, fresh, size, push_back, pop_front}

  -- `m_last_id`, `m_nq` and `m_queues`.
  pub record RoundRobin : Type 0 where
    pub last_id : ℕ
    pub nq : ℕ
    pub queues : List Queue

  pub create : ℕ → RoundRobin
  create n = record { last_id = 0; nq = n; queues = replicate n fresh }

  pub register_thread : ℕ → RoundRobin → Result Fault (Unit {0})
  register_thread id s = if leb s.nq id then err thread_out_of_range else ok tt

  -- `m_last_id` counts modulo 2 ^ 32. (The source divides by `m_nq`; a pool has at least one thread.)
  pub add_block : ℕ → RoundRobin → Result Fault (Unit {0}) × RoundRobin
  add_block b s =
      let i = s.last_id % s.nq in
      let (done, r) = push_back b (get_or s.queues i fresh) in
      (
        if done then ok tt else err task_queue_full,
        record s { last_id = (s.last_id + 1) % 2 ^ 32; queues = set s.queues i r },
      )

  -- How the search of one queue ends.
  pub data Search : Type 0 where
    found : Queue → Search
    passed : Queue → Search
    failed : Queue → Search

  -- The inner loop of `remove_block`, over the entries left: the result of `push_back` is not read.
  pub search_queue : ℕ → ℕ → Queue → Search
  search_queue b zero s = passed s
  search_queue b (suc n) s =
      let (x, s') = pop_front s in
      elim x [
        | none ↦ failed s'
        | some x ↦
            let more = search_queue b n (push_back x s').1 in if x == b then found s' else more
      ]

  -- The outer loop, over the queues left.
  pub remove_from : ℕ → List Queue → Result Fault (Unit {0}) × List Queue
  remove_from b [] = (err block_not_found, [])
  remove_from b (s ∷ rest) =
      let (r, rest') = remove_from b rest in
      elim (search_queue b (size s) s) [
        | found s' ↦ (ok tt, s' ∷ rest)
        | passed s' ↦ (r, s' ∷ rest')
        | failed s' ↦ (err wrong_size, s' ∷ rest)
      ]

  pub remove_block : ℕ → RoundRobin → Result Fault (Unit {0}) × RoundRobin
  remove_block b s = let (r, queues) = remove_from b s.queues in (r, record s { queues = queues })

  -- The warning on an empty queue is not modelled.
  pub next_task : ℕ → RoundRobin → Result Fault (Option ℕ × RoundRobin)
  next_task id s =
      let (x, r) = pop_front (get_or s.queues id fresh) in
      if leb s.nq id
      then err thread_out_of_range
      else ok (x, record s { queues = set s.queues id r })

  pub task_done : ℕ → ℕ → RoundRobin → Result Fault (Unit {0}) × RoundRobin
  task_done id b s =
      let (done, r) = push_back b (get_or s.queues id fresh) in
      if leb s.nq id
      then (err thread_out_of_range, s)
      else (if done then ok tt else err queue_became_full, record s { queues = set s.queues id r })
