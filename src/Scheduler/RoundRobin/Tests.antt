-- ===== src/Scheduler/RoundRobin/Tests.antt =====
-- core/scheduler/schedulers/RRScheduler.hpp: two threads, on queues with room for eight blocks.
use dstreamon.Base.{
  ℕ, ◌≡◌, ◌≤◌, ◌<◌, refl, Bool, true, false, List, [], ◌∷◌, ◌++◌, Option, none, some, ok, arith,
  map, length, length-append, dec_lt,
}
use dstreamon.MsgQueue.{count}
use dstreamon.Scheduler.SharedQueue.{SharedQueue, SharedQueueLaws}
use dstreamon.Scheduler.RoundRobin.{RoundRobin, remove_block}
use dstreamon.Scheduler.RoundRobin.Removal.{remove_block_present}

abbrev Bounded : Type 0
Bounded = (xs : List ℕ) × (length xs ≤ 8)

abbrev push_if : (x : ℕ) (s : Bounded) → Dec (length s.0 < 8) → Bool × Bounded
push_if x s (yes fits) = (true, (s.0 ++ x ∷ [], omega (arith, length-append s.0 (x ∷ []))))
push_if x s (no full) = (false, s)

abbrev pop_first : Bounded → Option ℕ × Bounded
pop_first ([], h) = (none, ([], h))
pop_first (x ∷ xs, h) = (some x, (xs, omega arith))

abbrev eight : SharedQueue
eight = record {
  Queue = Bounded;
  room = 8;
  fresh = ([], omega arith);
  size = λ s. length s.0;
  push_back = λ x s. push_if x s (dec_lt (length s.0) 8);
  pop_front = pop_first;
}

push_if_room :
    (x : ℕ) (s : Bounded) (d : Dec (length s.0 < 8))
    → length s.0 < 8
    → ((push_if x s d).0 ≡ true) × ((push_if x s d).1.0 ≡ s.0 ++ x ∷ [])
push_if_room x s (yes fits) lt = (refl, refl)
push_if_room x s (no full) lt = absurd (full lt)

push_if_full :
    (x : ℕ) (s : Bounded) (d : Dec (length s.0 < 8)) → length s.0 ≡ 8 → push_if x s d ≡ (false, s)
push_if_full x s (yes fits) e = absurd (omega arith)
push_if_full x s (no full) e = refl

pop_first_empty : (s : Bounded) → s.0 ≡ [] → pop_first s ≡ (none, s)
pop_first_empty ([], h) e = refl
pop_first_empty (x ∷ xs, h) e = absurd (ground arith)

pop_first_next :
    (x : ℕ) (xs : List ℕ) (s : Bounded)
    → s.0 ≡ x ∷ xs
    → ((pop_first s).0 ≡ some x) × ((pop_first s).1.0 ≡ xs)
pop_first_next x xs ([], h) e = absurd (ground arith)
pop_first_next x xs (y ∷ ys, h) e = (ground arith, ground arith)

abbrev eight_laws : SharedQueueLaws eight
eight_laws = record {
  contents = λ s. s.0;
  contents-fresh = refl;
  size_lem = λ s. refl;
  bounded = λ s. s.1;
  push_room = λ x s lt. push_if_room x s (dec_lt (length s.0) 8) lt;
  push_full = λ x s e. push_if_full x s (dec_lt (length s.0) 8) e;
  pop_empty = pop_first_empty;
  pop_next = pop_first_next;
}

abbrev first : Bounded
first = (4 ∷ [], omega arith)

abbrev second : Bounded
second = (5 ∷ (6 ∷ (7 ∷ [])), omega arith)

abbrev scheduler : RoundRobin eight
scheduler = record { last_id = 4; nq = 2; queues = first ∷ (second ∷ []) }

remove_block_present_example :
    ((remove_block eight 6 scheduler).0 ≡ ok tt)
    × (map (λ s. s.0) (remove_block eight 6 scheduler).1.queues ≡ (4 ∷ []) ∷ ((7 ∷ (5 ∷ [])) ∷ []))
unfolding count
remove_block_present_example =
    remove_block_present eight eight_laws 6 scheduler (first ∷ []) second [] (5 ∷ []) (7 ∷ []) refl
      (refl, tt) refl refl
