-- ===== src/ThreadPool.antt =====
-- core/scheduler/ThreadPool.hpp and ThreadHandler.hpp: threads that run the blocks of a scheduler.
-- A call returns what it throws beside the pool as the call leaves it.
pub mod Calls
pub mod Threads
pub mod Turns
pub mod Tests
use dstreamon.Base.{
  ℕ, zero, suc, ◌+◌, ◌≡◌, Bool, true, false, List, [], ◌∷◌, ◌++◌, Option, none, some, Result, ok,
  err, ltb, if◌then◌else◌,
}
use dstreamon.Scheduler.{Fault, Policy}

pub data PoolFault : Type 0 where
  cannot_add cannot_remove already_running not_running affinity_too_high : PoolFault
  policy : Fault → PoolFault

abbrev of_policy : {A : Type 0} → Result Fault A → Result PoolFault A
of_policy (ok a) = ok a
of_policy (err e) = err (policy e)

-- `ThreadHandler`: its number, its CPU mask, and whether its thread has been started.
pub record ThreadHandler : Type 0 where
  pub id : ℕ
  pub mask : List ℕ
  pub started : Bool

-- `CPU_SETSIZE`
abbrev pub cpu_setsize : ℕ
cpu_setsize = 1024

-- The loop over the affinities in `ThreadHandler::run`. `CPU_SET` ignores a CPU outside the mask.
unfoldable pub set_mask : List ℕ → List ℕ → Result PoolFault (List ℕ)
set_mask [] mask = ok mask
set_mask (a ∷ aff) mask =
    let rest = set_mask aff (if ltb a cpu_setsize then a ∷ mask else mask) in
    if ltb cpu_setsize a then err affinity_too_high else rest

-- The stop flag is raised, the loop of the thread clears it and ends, and the thread is joined.
pub stop_handler : ThreadHandler → ThreadHandler
stop_handler h = record h { started = false }

pub stop_handlers : List ThreadHandler → List ThreadHandler
unfolding stop_handler
stop_handlers [] = []
stop_handlers (h ∷ hs) = stop_handler h ∷ stop_handlers hs

-- The handlers `first`, `first + 1`, ... of a constructor's loop.
pub new_threads : ℕ → ℕ → List ThreadHandler
new_threads zero first = []
new_threads (suc n) first =
    record { id = first; mask = []; started = false } ∷ new_threads n (first + 1)

module _ (p : Policy) where
  unfoldable pub run_handler : p.State → List ℕ → ThreadHandler → Result PoolFault ThreadHandler
  unfolding set_mask
  run_handler s aff h = elim (set_mask aff []) [
    | err e ↦ err e
    | ok mask ↦ elim (p.register_thread h.id s) [
      | err e ↦ err (policy e)
      | ok _ ↦ ok (record h { mask = mask; started = true })
    ]
  ]

  -- The loop of `ThreadPool::run`: an exception leaves the threads before it running.
  unfoldable pub run_handlers :
      p.State → List ℕ → List ThreadHandler → Result PoolFault (Unit {0}) × List ThreadHandler
  run_handlers s aff [] = (ok tt, [])
  run_handlers s aff (h ∷ hs) =
      let (r, hs') = run_handlers s aff hs in
      elim (run_handler s aff h) [ err e ↦ (err e, h ∷ hs) | ok h' ↦ (r, h' ∷ hs') ]

  pub record ThreadPool : Type 0 where
    pub scheduler : p.State
    pub affinity : List ℕ
    pub running : Bool
    pub threads : List ThreadHandler

  unfoldable pub create : ℕ → List ℕ → ThreadPool
  unfolding new_threads
  create tnum affinity = record {
    scheduler = p.create tnum;
    affinity = affinity;
    running = false;
    threads = new_threads tnum 0;
  }

  pub add_task : ℕ → ThreadPool → Result PoolFault ThreadPool
  add_task b t = elim t.running [
    | true ↦ err cannot_add
    | false ↦ elim (p.add_block b t.scheduler) [
      | err e ↦ err (policy e)
      | ok s ↦ ok (record t { scheduler = s })
    ]
  ]

  pub remove_task : ℕ → ThreadPool → Result PoolFault ThreadPool
  remove_task b t = elim t.running [
    | true ↦ err cannot_remove
    | false ↦ elim (p.remove_block b t.scheduler) [
      | err e ↦ err (policy e)
      | ok s ↦ ok (record t { scheduler = s })
    ]
  ]

  unfoldable pub run : ThreadPool → Result PoolFault (Unit {0}) × ThreadPool
  unfolding run_handlers run_handler
  run t =
      let (r, threads) = run_handlers t.scheduler t.affinity t.threads in
      elim t.running [
        | true ↦ (err already_running, t)
        | false ↦ elim r [
          | err e ↦ (err e, record t { threads = threads })
          | ok _ ↦ (ok tt, record t { threads = threads; running = true })
        ]
      ]

  -- The threads go on taking tasks until they are joined, see ThreadPool.Threads: the first argument is
  -- the scheduler that they have then left.
  pub stop : p.State → ThreadPool → Result PoolFault (Unit {0}) × ThreadPool
  unfolding stop_handlers
  stop left t = elim t.running [
    | true ↦
        (ok tt, record t { scheduler = left; threads = stop_handlers t.threads; running = false })
    | false ↦ (err not_running, t)
  ]
