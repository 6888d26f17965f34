-- ===== src/Scheduler/Dumb.antt =====
-- core/scheduler/schedulers/DumbScheduler.hpp: one queue for all threads, the policy in use.
use dstreamon.Base.{ℕ, ◌≡◌, Option, none, some, [], ok, Result, arith, ◌∷◌, ◌+◌, ◌≢◌}
use dstreamon.MsgQueue.{MsgQueue, same, count-push, count-remove}
use dstreamon.MsgQueue
use dstreamon.Scheduler.{Fault, Policy, PolicyLaws}

unfoldable pub add_block : ℕ → MsgQueue → Result Fault MsgQueue
add_block b q = ok (MsgQueue.push b q)

unfoldable pub remove_block : ℕ → MsgQueue → Result Fault MsgQueue
remove_block b q = ok (MsgQueue.remove b q)

unfoldable pub next_task : ℕ → MsgQueue → Result Fault (Option ℕ × MsgQueue)
next_task i q = ok (MsgQueue.pop q)

unfoldable pub task_done : ℕ → ℕ → MsgQueue → Result Fault MsgQueue
task_done i b q = ok (MsgQueue.push b q)

-- `register_thread` has nothing to do.
unfoldable pub register_thread : ℕ → MsgQueue → Result Fault (Unit {0})
register_thread i q = ok tt

unfoldable pub dumb_scheduler : Policy
dumb_scheduler = record {
  State = MsgQueue;
  create = λ n. [];
  register_thread = register_thread;
  add_block = add_block;
  remove_block = remove_block;
  next_task = next_task;
  task_done = task_done;
}

count_add :
    (b x : ℕ) (q r : MsgQueue)
    → add_block b q ≡ ok r
    → MsgQueue.count x r ≡ MsgQueue.count x q + same b x
unfolding add_block
count_add b x q r e = ground (arith, count-push x b q)

count_done :
    (i b x : ℕ) (q r : MsgQueue)
    → task_done i b q ≡ ok r
    → MsgQueue.count x r ≡ MsgQueue.count x q + same b x
unfolding task_done
count_done i b x q r e = ground (arith, count-push x b q)

count_next :
    (i b x : ℕ) (q r : MsgQueue)
    → next_task i q ≡ ok (some b, r)
    → MsgQueue.count x q ≡ MsgQueue.count x r + same b x
unfolding next_task MsgQueue.pop MsgQueue.count
count_next i b x [] r e = ground arith
count_next i b x (y ∷ q) r e = ground arith

count_next_none :
    (i x : ℕ) (q r : MsgQueue)
    → next_task i q ≡ ok (none, r)
    → MsgQueue.count x r ≡ MsgQueue.count x q
unfolding next_task MsgQueue.pop MsgQueue.count
count_next_none i x [] r e = ground arith
count_next_none i x (y ∷ q) r e = ground arith

count_removed :
    (b x : ℕ) (q r : MsgQueue)
    → remove_block b q ≡ ok r
    → x ≢ b
    → MsgQueue.count x r ≡ MsgQueue.count x q
unfolding remove_block
count_removed b x q r e ne = ground (arith, count-remove x b q)

unfoldable pub dumb_laws : PolicyLaws dumb_scheduler
unfolding dumb_scheduler remove_block count_add count_next count_next_none count_done count_removed
dumb_laws = record {
  count = MsgQueue.count;
  count-add_block = count_add;
  count-next_task = count_next;
  count-next_task_none = count_next_none;
  count-task_done = count_done;
  count-remove_block_ne = count_removed;
}
