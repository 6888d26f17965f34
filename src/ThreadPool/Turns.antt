-- ===== src/ThreadPool/Turns.antt =====
-- core/scheduler/schedulers/DumbScheduler.hpp: who is run next.
use mathlib.Core.List.{append_assoc}
use dstreamon.Base.{
  ℕ, suc, ◌<◌, ◌≡◌, refl, List, [], ◌∷◌, ◌++◌, none, some, ok, err, arith, length, get_elem?,
  Result,
}
use dstreamon.MsgQueue.{MsgQueue}
use dstreamon.MsgQueue
use dstreamon.Scheduler.{Fault}
use dstreamon.Scheduler.Dumb.{next_task, task_done, add_block}

-- What the threads ask of the scheduler: a task, to put one back, or to add a new one.
pub data Request : Type 0 where
  asks : ℕ → Request
  returns : ℕ → ℕ → Request
  adds : ℕ → Request

abbrev of_result : MsgQueue → Result Fault MsgQueue → MsgQueue
of_result q (ok r) = r
of_result q (err e) = q

-- The tasks that are handed out, in order.
pub handed_out : MsgQueue → List Request → List ℕ
handed_out q [] = []
handed_out q (returns i b ∷ rs) = handed_out (of_result q (task_done i b q)) rs
handed_out q (adds b ∷ rs) = handed_out (of_result q (add_block b q)) rs
handed_out q (asks i ∷ rs) = elim (next_task i q) [
  | err e ↦ handed_out q rs
  | ok r ↦ elim r.0 [ none ↦ handed_out r.1 rs | some b ↦ b ∷ handed_out r.1 rs ]
]

-- How many tasks are asked for.
abbrev pub asked : List Request → ℕ
asked [] = 0
asked (asks i ∷ rs) = suc (asked rs)
asked (returns i b ∷ rs) = asked rs
asked (adds b ∷ rs) = asked rs

-- A block with `n` tasks before it in the queue is handed out after `n` others, whatever is put
-- back or added meanwhile: once more than `n` tasks have been asked for, it has had its turn.
pub handed_out_turn :
    (b : ℕ) (xs ys : MsgQueue) (rs : List Request)
    → length xs < asked rs
    → get_elem? (handed_out (xs ++ (b ∷ ys)) rs) (length xs) ≡ some b
unfolding handed_out next_task task_done add_block MsgQueue.pop MsgQueue.push
handed_out_turn b xs ys [] lt = absurd (omega arith)
handed_out_turn b [] ys (asks i ∷ rs) lt = refl
handed_out_turn b (x ∷ xs) ys (asks i ∷ rs) lt = handed_out_turn b xs ys rs (omega arith)
handed_out_turn b xs ys (returns i c ∷ rs) lt =
    rw (append_assoc xs (b ∷ ys) (c ∷ [])) (handed_out_turn b xs (ys ++ c ∷ []) rs lt)
handed_out_turn b xs ys (adds c ∷ rs) lt =
    rw (append_assoc xs (b ∷ ys) (c ∷ [])) (handed_out_turn b xs (ys ++ c ∷ []) rs lt)
