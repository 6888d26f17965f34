-- ===== src/ThreadPool/Tests.antt =====
-- core/scheduler: pools of two threads under the policy in use.
use dstreamon.Base.{ℕ, ◌≡◌, refl, [], ◌∷◌, ◌++◌, none, some, ok, err, arith, get_elem?, length}
use dstreamon.Scheduler.Dumb.{dumb_scheduler, dumb_laws, next_task, register_thread}
use dstreamon.MsgQueue
use dstreamon.ThreadPool.{
  ThreadPool, create, run, run_handlers, run_handler, set_mask, stop, stop_handlers,
  already_running,
}
use dstreamon.ThreadPool.Threads.{
  Running, takes, Reach, here, next, copies, copies-Reach, runs_alone,
}
use dstreamon.ThreadPool.Turns.{asks, returns, adds, handed_out, handed_out_turn}

abbrev waiting : Running dumb_scheduler
unfolding dumb_scheduler
waiting = record { scheduler = 7 ∷ (8 ∷ []); held = none ∷ (none ∷ []) }

abbrev busy : Running dumb_scheduler
unfolding dumb_scheduler
busy = record { scheduler = []; held = some 7 ∷ (some 8 ∷ []) }

waiting-busy : Reach dumb_scheduler waiting busy
unfolding dumb_scheduler next_task MsgQueue.pop
waiting-busy =
    next (next here (takes 0 (some 7) (8 ∷ []) refl refl)) (takes 1 (some 8) [] refl refl)

copies-Reach_example :
    copies dumb_scheduler dumb_laws 7 busy ≡ copies dumb_scheduler dumb_laws 7 waiting
copies-Reach_example = copies-Reach dumb_scheduler dumb_laws 7 waiting-busy

waiting_once : copies dumb_scheduler dumb_laws 7 waiting ≡ 1
unfolding dumb_scheduler dumb_laws MsgQueue.count
waiting_once = refl

runs_alone_example : ◌≡◌ {A = ℕ} 0 0
unfolding busy
runs_alone_example =
    runs_alone dumb_scheduler dumb_laws 7 waiting busy 0 0 (omega (arith, waiting_once))
      waiting-busy refl refl

handed_out_turn_example :
    get_elem?
      (handed_out ((7 ∷ []) ++ (9 ∷ (8 ∷ []))) (asks 0 ∷ (returns 0 7 ∷ (adds 4 ∷ (asks 1 ∷ [])))))
      (length {A = ℕ} (7 ∷ []))
    ≡ some 9
handed_out_turn_example =
    handed_out_turn 9 (7 ∷ []) (8 ∷ []) (asks 0 ∷ (returns 0 7 ∷ (adds 4 ∷ (asks 1 ∷ []))))
      (omega arith)

abbrev idle : ThreadPool dumb_scheduler
idle = create dumb_scheduler 2 (0 ∷ (1 ∷ []))

abbrev left : ThreadPool dumb_scheduler
unfolding dumb_scheduler
left = record idle {
  scheduler = 5 ∷ [];
  threads = stop_handlers (run dumb_scheduler idle).1.threads;
}

-- A pool that was started, and stopped when its threads had left the block 5.
calls :
    ((run dumb_scheduler idle).0 ≡ ok tt)
    × (stop dumb_scheduler left.scheduler (run dumb_scheduler idle).1 ≡ (ok tt, left))
    × (run dumb_scheduler (run dumb_scheduler idle).1
        ≡ (err already_running, (run dumb_scheduler idle).1))
unfolding dumb_scheduler create run run_handlers run_handler set_mask register_thread stop
calls = (refl, refl, refl)
