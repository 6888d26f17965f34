-- ===== src/PoolManager/Tests.antt =====
-- core/scheduler/PoolManager.hpp: two pools under the policy in use.

use dstreamon.Base.{◌≡◌, refl, [], ◌∷◌, ◌++◌, err}
use dstreamon.Scheduler.Dumb.{dumb_scheduler, register_thread}
use dstreamon.ThreadPool.{
  ThreadPool, affinity_too_high, create, run, set_mask, run_handler, run_handlers,
}
use dstreamon.PoolManager.{Pools, PoolNode, start}
use dstreamon.PoolManager.Start.{AllStart, run_each, start_fails}

abbrev good : ThreadPool dumb_scheduler
good = create dumb_scheduler 2 (0 ∷ [])

abbrev bad : ThreadPool dumb_scheduler
bad = create dumb_scheduler 1 (2000 ∷ [])

abbrev pools : Pools dumb_scheduler
pools = ("io", good) ∷ []

pools-AllStart : AllStart dumb_scheduler pools
unfolding create dumb_scheduler register_thread run run_handler run_handlers set_mask
pools-AllStart = (refl, tt)

start_fails_example : start dumb_scheduler (pools ++ (("net", bad) ∷ [])) ≡ (
  err affinity_too_high,
  run_each dumb_scheduler pools ++ (("net", (run dumb_scheduler bad).1) ∷ []),
)
unfolding create dumb_scheduler register_thread run run_handler run_handlers set_mask
start_fails_example =
    start_fails dumb_scheduler pools bad [] affinity_too_high "net" pools-AllStart refl

abbrev node : PoolNode
node = record { id = "net"; num_threads = 2; cores = 0 ∷ [] }
