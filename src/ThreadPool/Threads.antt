-- ===== src/ThreadPool/Threads.antt =====
-- core/scheduler/ThreadHandler.hpp: the loops of the threads of a running pool, interleaved.
use dstreamon.Base.{
  ℕ, zero, suc, ◌+◌, ◌≤◌, ◌≡◌, ◌≢◌, refl, ap, ◌∙◌, ℕ_discrete, List, [], ◌∷◌, Option, none, some,
  ok, arith, get_elem?, set,
}
use dstreamon.MsgQueue.{same}
use dstreamon.Scheduler.{Policy, PolicyLaws}

abbrev pub holds_one : ℕ → Option ℕ → ℕ
holds_one b none = 0
holds_one b (some x) = same x b

-- How often a block is held by a thread.
abbrev pub held_by : ℕ → List (Option ℕ) → ℕ
held_by b [] = 0
held_by b (h ∷ hs) = holds_one b h + held_by b hs

held_by-set :
    (b i : ℕ) (old new : Option ℕ) (hs : List (Option ℕ))
    → get_elem? hs i ≡ some old
    → held_by b (set hs i new) + holds_one b old ≡ held_by b hs + holds_one b new
held_by-set b i old new [] e = absurd (ground arith)
held_by-set b zero old new (h ∷ hs) e = ground arith
held_by-set b (suc i) old new (h ∷ hs) e = omega (arith, held_by-set b i old new hs e)

holds_one-le :
    (b i : ℕ) (old : Option ℕ) (hs : List (Option ℕ))
    → get_elem? hs i ≡ some old
    → holds_one b old ≤ held_by b hs
holds_one-le b i old [] e = absurd (ground arith)
holds_one-le b zero old (h ∷ hs) e = ground arith
holds_one-le b (suc i) old (h ∷ hs) e = omega (arith, holds_one-le b i old hs e)

same_self : (b : ℕ) → same b b ≡ 1
same_self b = ground arith

-- Two threads that hold a block count twice.
held_twice :
    (b i j : ℕ) (hs : List (Option ℕ))
    → get_elem? hs i ≡ some (some b)
    → get_elem? hs j ≡ some (some b)
    → i ≢ j
    → 2 ≤ held_by b hs
held_twice b i j [] e f ne = absurd (ground arith)
held_twice b zero zero (h ∷ hs) e f ne = absurd (ne refl)
held_twice b zero (suc j) (h ∷ hs) e f ne =
    ground (arith, holds_one-le b j (some b) hs f, same_self b)
held_twice b (suc i) zero (h ∷ hs) e f ne =
    ground (arith, holds_one-le b i (some b) hs e, same_self b)
held_twice b (suc i) (suc j) (h ∷ hs) e f ne =
    omega (arith, held_twice b i j hs e f (λ p. ne (ap suc p)))

module _ (p : Policy) where
  -- The scheduler, and what each thread is running.
  pub record Running : Type 0 where
    pub scheduler : p.State
    pub held : List (Option ℕ)

  -- One call of the loop in `ThreadHandler::operator()`. Between the two a thread runs its block.
  pub data Step (r : Running) : Running → Type 0 where
    takes :
        (i : ℕ) (got : Option ℕ) (s : p.State)
        → get_elem? r.held i ≡ some none
        → p.next_task i r.scheduler ≡ ok (got, s)
        → Step r (record { scheduler = s; held = set r.held i got })
    finishes :
        (i b : ℕ) (s : p.State)
        → get_elem? r.held i ≡ some (some b)
        → p.task_done i b r.scheduler ≡ ok s
        → Step r (record { scheduler = s; held = set r.held i none })

  pub data Reach (r : Running) : Running → Type 0 where
    here : Reach r r
    next : {s t : Running} → Reach r s → Step s t → Reach r t

  module _ (laws : PolicyLaws p) where
    -- A block is in the scheduler or with a thread.
    abbrev pub copies : ℕ → Running → ℕ
    copies b r = laws.count b r.scheduler + held_by b r.held

    copies-Step : (b : ℕ) {r t : Running} → Step r t → copies b t ≡ copies b r
    copies-Step b {r = r} (takes i none s idle e) = omega (
      arith,
      held_by-set b i none none r.held idle,
      laws.count-next_task_none i b r.scheduler s e,
    )
    copies-Step b {r = r} (takes i (some x) s idle e) = omega (
      arith,
      held_by-set b i none (some x) r.held idle,
      laws.count-next_task i x b r.scheduler s e,
    )
    copies-Step b {r = r} (finishes i x s busy e) = omega (
      arith,
      held_by-set b i (some x) none r.held busy,
      laws.count-task_done i x b r.scheduler s e,
    )

    -- Under a policy that keeps the laws, however the steps of the threads interleave, a block is as
    -- often in the scheduler or with a thread as at the start: none is lost or doubled.
    pub copies-Reach : (b : ℕ) {r t : Running} → Reach r t → copies b t ≡ copies b r
    copies-Reach b here = refl
    copies-Reach b (next path step) = copies-Step b step ∙ copies-Reach b path

    -- Under a policy that keeps the laws, from a state with at most one copy of a block, two threads
    -- never run that block at once, however their steps interleave.
    pub runs_alone :
        (b : ℕ) (r t : Running) (i j : ℕ)
        → copies b r ≤ 1
        → Reach r t
        → get_elem? t.held i ≡ some (some b)
        → get_elem? t.held j ≡ some (some b)
        → i ≡ j
    runs_alone b r t i j once path e f = elim (ℕ_discrete i j) [
      | yes same_thread ↦ same_thread
      | no other ↦ absurd (omega (arith, held_twice b i j t.held e f other, copies-Reach b path))
    ]
