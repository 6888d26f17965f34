-- ===== src/PoolManager.antt =====
-- core/scheduler/PoolManager.hpp: the thread pools of the process, by name.
pub mod Start
pub mod Pools
pub mod Tests
use Prim.Native.String.{String}
use dstreamon.Base.{
  ℕ, ◌-◌, ◌^◌, Bool, true, false, List, [], ◌∷◌, Option, none, some, Result, ok, err, ◌>>=◌, ◌>>◌,
  guard, or_throw, not, ◌||◌, ◌==◌, if◌then◌else◌,
}
use dstreamon.Assoc.{Assoc, find, put, erase}
use dstreamon.Scheduler.{Policy}
use dstreamon.ThreadPool.{PoolFault, ThreadPool, create, add_task, remove_task, run, stop}

pub data ManagerFault : Type 0 where
  bad_parameters bad_core pool_exists no_pool : ManagerFault
  in_pool : PoolFault → ManagerFault

abbrev pub of_pool : {A : Type 0} → Result PoolFault A → Result ManagerFault A
of_pool (ok a) = ok a
of_pool (err e) = err (in_pool e)

-- A `threadpool` element: its id, its number of threads (0 where that is missing; a negative one is
-- not modelled), and for each core what `sscanf` leaves in `corenum`.
pub record PoolNode : Type 0 where
  pub id : String
  pub num_threads : ℕ
  pub cores : List ℕ

abbrev pub is_empty : String → Bool
is_empty String.[] = true
is_empty (String.◌∷◌ c s) = false

-- The value that `corenum` keeps where `sscanf` reads no number.
abbrev pub no_core : ℕ
no_core = 2 ^ 32 - 1

pub read_cores : List ℕ → Result ManagerFault (List ℕ)
read_cores [] = ok []
read_cores (c ∷ cs) = do guard (not (c == no_core)) bad_core; rest ← read_cores cs; ok (c ∷ rest)

module _ (p : Policy) where
  abbrev pub Pools : Type 0
  Pools = Assoc (ThreadPool p)

  pub create_pool : PoolNode → Pools → Result ManagerFault Pools
  unfolding read_cores
  create_pool n m = do
    guard (not (is_empty n.id || n.num_threads == 0)) bad_parameters
    affinity ← read_cores n.cores
    elim (find n.id m) [
      | some t ↦ err pool_exists
      | none ↦ ok (put n.id (create p n.num_threads affinity) m)
    ]

  pub add_to_pool : String → ℕ → Pools → Result ManagerFault Pools
  add_to_pool name b m = do
    t ← or_throw (find name m) no_pool
    t' ← of_pool (add_task p b t)
    ok (put name t' m)

  pub remove_from_pool : String → ℕ → Pools → Result ManagerFault Pools
  remove_from_pool name b m = do
    t ← or_throw (find name m) no_pool
    t' ← of_pool (remove_task p b t)
    ok (put name t' m)

  pub delete_pool : String → Pools → Pools
  delete_pool name m = erase name m

  -- The loops of `start` and `stop`: an exception leaves the pools behind it as they are.
  pub start : Pools → Result PoolFault (Unit {0}) × Pools
  start [] = (ok tt, [])
  start ((k, t) ∷ m) =
      let (r, m') = start m in
      let (r', t') = run p t in elim r' [ err e ↦ (err e, (k, t') ∷ m) | ok _ ↦ (r, (k, t') ∷ m') ]

  -- The first argument is the scheduler that the threads of each pool have left when they are joined.
  pub stop_all : (String → p.State) → Pools → Result PoolFault (Unit {0}) × Pools
  stop_all left [] = (ok tt, [])
  stop_all left ((k, t) ∷ m) =
      let (r, m') = stop_all left m in
      let (r', t') = stop p (left k) t in
      elim r' [ err e ↦ (err e, (k, t') ∷ m) | ok _ ↦ (r, (k, t') ∷ m') ]
