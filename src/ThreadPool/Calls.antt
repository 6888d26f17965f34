-- ===== src/ThreadPool/Calls.antt =====
-- core/scheduler/ThreadPool.hpp: what the calls of a pool do to it.
use dstreamon.Base.{
  inl, inr, Bool-cases, Result-cases, subst, ℕ, ◌≤◌, ◌<◌, ◌≡◌, refl, Bool, true, false, List, [],
  ◌∷◌, ok, err, arith, ltb, if◌then◌else◌,
}
use dstreamon.Scheduler.{Policy}
use dstreamon.ThreadPool.{
  cannot_add, ThreadHandler, cpu_setsize, set_mask, run_handler, run_handlers, stop_handlers,
  ThreadPool, add_task, run, stop,
}

abbrev pub AllAtMost : ℕ → List ℕ → Type 0
AllAtMost n [] = Unit
AllAtMost n (x ∷ xs) = (x ≤ n) × AllAtMost n xs

abbrev pub AllBelow : ℕ → List ℕ → Type 0
AllBelow n [] = Unit
AllBelow n (x ∷ xs) = (x < n) × AllBelow n xs

-- Affinities that are accepted, added to a mask of CPUs below CPU_SETSIZE, give a mask of such CPUs.
pub set_mask-AllBelow :
    (aff mask : List ℕ) {r : List ℕ}
    → AllBelow cpu_setsize mask
    → set_mask aff mask ≡ ok r
    → AllBelow cpu_setsize r
unfolding set_mask
set_mask-AllBelow [] mask h e = subst (AllBelow cpu_setsize) (ground arith) h
set_mask-AllBelow (a ∷ aff) mask h e = elim (Bool-cases (ltb a cpu_setsize)) [
  | inl fits ↦ set_mask-AllBelow aff (a ∷ mask) ((ground arith), h) (ground arith)
  | inr out ↦ set_mask-AllBelow aff mask h (ground arith)
]

-- A list of CPUs up to the mask's size is accepted.
set_mask-ok :
    (aff mask : List ℕ) → AllAtMost cpu_setsize aff → (r : List ℕ) × (set_mask aff mask ≡ ok r)
unfolding set_mask
set_mask-ok [] mask h = (mask, refl)
set_mask-ok (a ∷ aff) mask h =
    let (r, e) = set_mask-ok aff (if ltb a cpu_setsize then a ∷ mask else mask) h.1 in
    (r, ground arith)

abbrev pub AllStarted : Bool → List ThreadHandler → Type 0
AllStarted b [] = Unit
AllStarted b (h ∷ hs) = (h.started ≡ b) × AllStarted b hs

stop_handlers-AllStarted : (hs : List ThreadHandler) → AllStarted false (stop_handlers hs)
unfolding stop_handlers
stop_handlers-AllStarted [] = tt
stop_handlers-AllStarted (h ∷ hs) = (refl, stop_handlers-AllStarted hs)

module _ (p : Policy) where
  run_handler_started :
      (s : p.State) (aff : List ℕ) (h : ThreadHandler) {h' : ThreadHandler}
      → run_handler p s aff h ≡ ok h'
      → h'.started ≡ true
  unfolding run_handler
  run_handler_started s aff h e = ground arith

  run_handlers-AllStarted :
      (s : p.State) (aff : List ℕ) (hs : List ThreadHandler)
      → (run_handlers p s aff hs).0 ≡ ok tt
      → AllStarted true (run_handlers p s aff hs).1
  unfolding run_handlers
  run_handlers-AllStarted s aff [] e = tt
  run_handlers-AllStarted s aff (h ∷ hs) e = elim (Result-cases (run_handler p s aff h)) [
    | inl (bad, f) ↦ absurd (ground (arith, f))
    | inr (h', f) ↦
        rw (f, run_handlers)
          (
            run_handler_started s aff h f,
            run_handlers-AllStarted s aff hs (rw (f, run_handlers) at e),
          )
  ]

  -- The scheduler takes each of the threads.
  abbrev AllRegistered : p.State → List ThreadHandler → Type 0
  AllRegistered s [] = Unit
  AllRegistered s (h ∷ hs) = (p.register_thread h.id s ≡ ok tt) × AllRegistered s hs

  run_handler-ok :
      (s : p.State) (aff : List ℕ) (h : ThreadHandler)
      → AllAtMost cpu_setsize aff
      → p.register_thread h.id s ≡ ok tt
      → (h' : ThreadHandler) × (run_handler p s aff h ≡ ok h')
  unfolding run_handler
  run_handler-ok s aff h fits registers =
      let (mask, e) = set_mask-ok aff [] fits in
      (record h { mask = mask; started = true }, rw (e, run_handler) (rw (registers, run_handler)))

  run_handlers-ok :
      (s : p.State) (aff : List ℕ) (hs : List ThreadHandler)
      → AllAtMost cpu_setsize aff
      → AllRegistered s hs
      → (run_handlers p s aff hs).0 ≡ ok tt
  unfolding run_handlers
  run_handlers-ok s aff [] fits registers = refl
  run_handlers-ok s aff (h ∷ hs) fits registers =
      let (h', e) = run_handler-ok s aff h fits registers.0 in
      rw (e, run_handlers) (run_handlers-ok s aff hs fits registers.1)

  abbrev started : ThreadPool p → ThreadPool p
  started t = record t {
    threads = (run_handlers p t.scheduler t.affinity t.threads).1;
    running = true;
  }

  run-started :
      (t : ThreadPool p)
      → t.running ≡ false
      → (run_handlers p t.scheduler t.affinity t.threads).0 ≡ ok tt
      → run p t ≡ (ok tt, started t)
  unfolding run
  run-started t idle e = rw (idle, run) (rw (e, run))

  -- A pool that is not running starts when its CPUs fit the mask and the scheduler takes each of its
  -- threads: then every thread is started. Stopped, with whatever its threads have then left of the
  -- scheduler, it has that scheduler and no started thread.
  run-stop :
      (t : ThreadPool p) (left : p.State)
      → t.running ≡ false
      → AllAtMost cpu_setsize t.affinity
      → AllRegistered t.scheduler t.threads
      → let (r, u) = run p t in
        let (r', v) = stop p left u in
        (r ≡ ok tt)
        × AllStarted true u.threads
        × (r' ≡ ok tt)
        × AllStarted false v.threads
        × (v.scheduler ≡ left)
  unfolding run stop
  run-stop t left idle fits registers =
      let e = run_handlers-ok t.scheduler t.affinity t.threads fits registers in
      rw (run-started t idle e) (
        refl,
        run_handlers-AllStarted t.scheduler t.affinity t.threads e,
        refl,
        stop_handlers-AllStarted _,
        refl,
      )

  pub run-running : (t : ThreadPool p) → (run p t).0 ≡ ok tt → (run p t).1.running ≡ true
  unfolding run
  run-running t e = elim (Bool-cases t.running) [
    | inl on ↦ rw (on, run) on
    | inr off ↦ elim (Result-cases (run_handlers p t.scheduler t.affinity t.threads).0) [
      | inl (x, f) ↦ absurd (ground (arith, f, off))
      | inr (x, f) ↦ rw (off, run) (rw (f, run))
    ]
  ]

  pub add_task_running :
      (b : ℕ) (t : ThreadPool p) → t.running ≡ true → add_task p b t ≡ err cannot_add
  unfolding add_task
  add_task_running b t e = rw (e, add_task)
