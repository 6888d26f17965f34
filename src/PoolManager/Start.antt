-- ===== src/PoolManager/Start.antt =====
-- core/scheduler/PoolManager.hpp: `start`.
use Prim.Native.String.{String}
use text.Mathlib.Text.{◌==◌ as str_eq}
use mathlib.Core.Option
use dstreamon.Base.{
  ℕ, some, Bool-cases, inl, inr, arith, ◌≡◌, refl, ap, subst, [], ◌∷◌, ◌++◌, ok, err,
}
use dstreamon.Assoc.{find}
use dstreamon.Scheduler.{Policy}
use dstreamon.ThreadPool.{ThreadPool, PoolFault, run, cannot_add}
use dstreamon.ThreadPool.Calls.{run-running, add_task_running}
use dstreamon.PoolManager.{Pools, start, in_pool, add_to_pool}

module _ (p : Policy) where
  -- Every pool of the list can be started.
  abbrev pub AllStart : Pools p → Type 0
  AllStart [] = Unit
  AllStart ((k, t) ∷ m) = ((run p t).0 ≡ ok tt) × AllStart m

  -- Each pool as its own `run` leaves it.
  abbrev pub run_each : Pools p → Pools p
  run_each [] = []
  run_each ((k, t) ∷ m) = (k, (run p t).1) ∷ run_each m

  -- When every pool can be started, `start` succeeds and leaves each as its own `run` leaves it.
  pub start_all : (m : Pools p) → AllStart m → start p m ≡ (ok tt, run_each m)
  unfolding start
  start_all [] h = refl
  start_all ((k, t) ∷ m) h = rw (h.0, start) (rw (start_all m h.1))

  -- The first pool that does not start ends `start` with its exception. The pools before it are then
  -- running, and those behind it are untouched.
  pub start_fails :
      (before : Pools p) (t : ThreadPool p) (after : Pools p) (e : PoolFault) (k : String)
      → AllStart before
      → (run p t).0 ≡ err e
      → start p (before ++ ((k, t) ∷ after))
        ≡ (err e, run_each before ++ ((k, (run p t).1) ∷ after))
  unfolding start
  start_fails [] t after e k h f = rw (f, start)
  start_fails ((j, u) ∷ before) t after e k h f =
      rw (h.0, start) (rw (start_fails before t after e k h.1 f))

  AllStart-find :
      (name : String) (m : Pools p) {t : ThreadPool p}
      → AllStart m
      → find name m ≡ some t
      → (run p t).0 ≡ ok tt
  unfolding find
  AllStart-find name [] h e = absurd (ground arith)
  AllStart-find name ((k, u) ∷ m) h e = elim (Bool-cases (str_eq k name)) [
    | inl hit ↦ subst (λ v. (run p v).0 ≡ ok tt) (ground arith) h.0
    | inr miss ↦ AllStart-find name m h.1 (rw miss at e)
  ]

  find-run_each :
      (name : String) (m : Pools p) {t : ThreadPool p}
      → find name m ≡ some t
      → find name (run_each m) ≡ some (run p t).1
  unfolding find
  find-run_each name [] e = ground arith
  find-run_each name ((k, u) ∷ m) e = elim (Bool-cases (str_eq k name)) [
    | inl hit ↦ rw hit (ap (λ o. Option.map (λ v. (run p v).1) o) (rw hit at e))
    | inr miss ↦ rw miss (find-run_each name m (rw miss at e))
  ]

  -- When every pool can be started, no block can be added to any of them after `start`.
  pub add_to_pool-start :
      (name : String) (b : ℕ) (m : Pools p) {t : ThreadPool p}
      → AllStart m
      → find name m ≡ some t
      → add_to_pool p name b (start p m).1 ≡ err (in_pool cannot_add)
  unfolding add_to_pool
  add_to_pool-start name b m {t} h e =
      let running = run-running p t (AllStart-find name m h e) in
      rw (start_all m h, find-run_each name m e, add_task_running p b (run p t).1 running)
