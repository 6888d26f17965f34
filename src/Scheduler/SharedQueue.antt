-- ===== src/Scheduler/SharedQueue.antt =====
-- lib/external/more/shared_queue.hpp is third-party code: what the round-robin scheduler uses of it.
use dstreamon.Base.{
  ℕ, ◌≡◌, ◌<◌, ◌≤◌, Bool, true, false, List, [], ◌∷◌, ◌++◌, Option, none, some, length,
}

-- A queue of at most `room` pointers. `contents` is what it holds, oldest first.
pub record SharedQueue : Type 1 where
  pub Queue : Type 0
  pub room : ℕ
  pub fresh : Queue
  pub size : Queue → ℕ
  pub push_back : ℕ → Queue → Bool × Queue
  pub pop_front : Queue → Option ℕ × Queue

-- Its documented behaviour.
pub record SharedQueueLaws (q : SharedQueue) : Type 0 where
  pub contents : q.Queue → List ℕ
  pub contents-fresh : contents q.fresh ≡ []
  pub size_lem : (s : q.Queue) → q.size s ≡ length (contents s)
  pub bounded : (s : q.Queue) → length (contents s) ≤ q.room
  pub push_room :
      (x : ℕ) (s : q.Queue)
      → length (contents s) < q.room
      → ((q.push_back x s).0 ≡ true) × (contents (q.push_back x s).1 ≡ contents s ++ x ∷ [])
  pub push_full :
      (x : ℕ) (s : q.Queue) → length (contents s) ≡ q.room → q.push_back x s ≡ (false, s)
  pub pop_empty : (s : q.Queue) → contents s ≡ [] → q.pop_front s ≡ (none, s)
  pub pop_next :
      (x : ℕ) (xs : List ℕ) (s : q.Queue)
      → contents s ≡ x ∷ xs
      → ((q.pop_front s).0 ≡ some x) × (contents (q.pop_front s).1 ≡ xs)
