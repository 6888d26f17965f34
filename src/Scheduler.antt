-- ===== src/Scheduler.antt =====
-- core/scheduler/Scheduler.hpp: what a thread pool asks of a scheduling policy (`PluginScheduler`).
pub mod Dumb
pub mod SharedQueue
pub mod RoundRobin
use dstreamon.Base.{ℕ, ◌+◌, ◌≢◌, ◌≡◌, List, Option, none, some, Result, ok, err}
use dstreamon.MsgQueue.{same}

-- The exceptions of the policies.
pub data Fault : Type 0 where
  thread_out_of_range task_queue_full queue_became_full wrong_size block_not_found : Fault

-- A block is its address, a thread its number as an `unsigned int`.
pub record Policy : Type 1 where
  pub State : Type 0
  pub create : ℕ → State
  pub register_thread : ℕ → State → Result Fault (Unit {0})
  pub add_block : ℕ → State → Result Fault State
  pub remove_block : ℕ → State → Result Fault State
  pub next_task : ℕ → State → Result Fault (Option ℕ × State)
  pub task_done : ℕ → ℕ → State → Result Fault State

-- What the pool relies on: `count` says how often a block waits for a thread.
pub record PolicyLaws (p : Policy) : Type 0 where
  pub count : ℕ → p.State → ℕ
  pub count-add_block :
      (b x : ℕ) (s t : p.State) → p.add_block b s ≡ ok t → count x t ≡ count x s + same b x
  pub count-next_task :
      (i b x : ℕ) (s t : p.State)
      → p.next_task i s ≡ ok (some b, t)
      → count x s ≡ count x t + same b x
  pub count-next_task_none :
      (i x : ℕ) (s t : p.State) → p.next_task i s ≡ ok (none, t) → count x t ≡ count x s
  pub count-task_done :
      (i b x : ℕ) (s t : p.State) → p.task_done i b s ≡ ok t → count x t ≡ count x s + same b x
  pub count-remove_block_ne :
      (b x : ℕ) (s t : p.State) → p.remove_block b s ≡ ok t → x ≢ b → count x t ≡ count x s
