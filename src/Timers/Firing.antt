-- ===== src/Timers/Firing.antt =====
-- core/scheduler/TimerThread.hpp: which timers a round fires.
use dstreamon.Base.{
  ℕ, zero, suc, ◌+◌, ◌≤◌, ◌<◌, ◌≡◌, ◌≢◌, refl, sym, ap, ◌∙◌, true, false, List, [], ◌∷◌, some,
  arith, length, leb, ltb, ◌==◌, if◌then◌else◌, inl, inr, Bool-cases, Option-cases,
}
use dstreamon.Timers.{
  Timer, TimerThread, time_from, next_time, insert_in_heap, take_queue, fire_due, round,
  handle_each,
}

-- The timers stand by time, from `lo` on.
abbrev pub Sorted : ℕ → List Timer → Type 0
Sorted lo [] = Unit
Sorted lo (t ∷ h) = (lo ≤ t.time) × Sorted t.time h

-- Every periodic timer has a period that is not zero.
abbrev pub AllPositive : List Timer → Type 0
AllPositive [] = Unit
AllPositive (t ∷ h) = (t.period ≢ some 0) × AllPositive h

-- The timers that are due.
unfoldable pub due : ℕ → List Timer → List Timer
due now [] = []
due now (t ∷ h) = let rest = due now h in if leb t.time now then t ∷ rest else rest

Sorted-insert_in_heap :
    (lo : ℕ) (t : Timer) (h : List Timer)
    → lo ≤ t.time
    → Sorted lo h
    → Sorted lo (insert_in_heap t h)
unfolding insert_in_heap
Sorted-insert_in_heap lo t [] le s = (le, tt)
Sorted-insert_in_heap lo t (u ∷ h) le s = elim (Bool-cases (ltb t.time u.time)) [
  | inl first ↦ rw first (le, (ground arith, s.1))
  | inr later ↦ rw later (s.0, Sorted-insert_in_heap u.time t h (ground arith) s.1)
]

AllPositive-insert_in_heap :
    (t : Timer) (h : List Timer)
    → t.period ≢ some 0
    → AllPositive h
    → AllPositive (insert_in_heap t h)
unfolding insert_in_heap
AllPositive-insert_in_heap t [] p s = (p, tt)
AllPositive-insert_in_heap t (u ∷ h) p s = elim (Bool-cases (ltb t.time u.time)) [
  | inl first ↦ rw first (p, s)
  | inr later ↦ rw later (s.0, AllPositive-insert_in_heap t h p s.1)
]

due-insert_later :
    (now : ℕ) (t : Timer) (h : List Timer) → now < t.time → due now (insert_in_heap t h) ≡ due now h
unfolding insert_in_heap due
due-insert_later now t [] lt = ground arith
due-insert_later now t (u ∷ h) lt = elim (Bool-cases (ltb t.time u.time)) [
  | inl first ↦ rw first (ground arith)
  | inr later ↦ rw later (rw (due-insert_later now t h lt))
]

due-later : (now lo : ℕ) (h : List Timer) → now < lo → Sorted lo h → due now h ≡ []
unfolding due
due-later now lo [] lt s = refl
due-later now lo (t ∷ h) lt s =
    let late : leb t.time now ≡ false = ground (arith, s.0) in
    rw late (due-later now t.time h (omega (arith, s.0)) s.1)

Sorted-weaken : (lo lo' : ℕ) (h : List Timer) → lo' ≤ lo → Sorted lo h → Sorted lo' h
Sorted-weaken lo lo' [] le s = tt
Sorted-weaken lo lo' (t ∷ h) le s = (omega (arith, s.0), s.1)

length-due : (now : ℕ) (h : List Timer) → length (due now h) ≤ length h
unfolding due
length-due now [] = omega arith
length-due now (t ∷ h) = ground (arith, length-due now h)

-- What a round fires and leaves: exactly the timers that were due, in order of time, and none that
-- is due.
abbrev pub Fires : ℕ → List Timer → List Timer × List Timer → Type 0
Fires now h r = (r.0 ≡ due now h) × (due now r.1 ≡ []) × Sorted 0 r.1 × AllPositive r.1

next_time_periodic :
    (now us : ℕ) (t : Timer) → t.period ≡ some us → next_time now t ≡ record t { time = now + us }
unfolding next_time
next_time_periodic now us t e = ap (λ o. time_from o now t) e

module _ (clock : ℕ → ℕ) where
  -- The heap after a timer was fired.
  abbrev again : ℕ → Timer → List Timer → List Timer
  again now t h = let t' = next_time now t in if t'.time == t.time then h else insert_in_heap t' h

  again_lem :
      (now : ℕ) (n : ℕ) (t : Timer) (h : List Timer)
      → t.time ≤ now
      → now ≤ clock n
      → Sorted 0 h
      → AllPositive (t ∷ h)
      → (due now (again (clock n) t h) ≡ due now h)
        × Sorted 0 (again (clock n) t h)
        × AllPositive (again (clock n) t h)
  unfolding next_time
  again_lem now n t h le later s p = elim (Option-cases t.period) [
    | inl once ↦
        let same : (t.time == t.time) ≡ true = ground arith in rw once (rw same (refl, s, p.1))
    | inr (us, e) ↦
        let positive : us ≢ 0 = λ z. p.0 (e ∙ ap (λ k. some k) z) in
        let changed : (clock n + us == t.time) ≡ false = ground arith in
        let t' : Timer = record t { time = clock n + us } in
        rw (next_time_periodic (clock n) us t e) (
          rw changed (
            due-insert_later now t' h (omega arith),
            Sorted-insert_in_heap 0 t' h (omega arith) s,
            AllPositive-insert_in_heap t' h p.0 p.1,
          ))
  ]

  fire_due_stops :
      (fuel now n : ℕ) (t : Timer) (h : List Timer)
      → leb t.time now ≡ false
      → fire_due clock (suc fuel) now n (t ∷ h) ≡ ([], t ∷ h)
  unfolding fire_due
  fire_due_stops fuel now n t h late = rw (late, fire_due)

  fire_due_next :
      (fuel now n : ℕ) (t : Timer) (h : List Timer)
      → leb t.time now ≡ true
      → fire_due clock (suc fuel) now n (t ∷ h) ≡ (
        t ∷ (fire_due clock fuel now (suc n) (again (clock n) t h)).0,
        (fire_due clock fuel now (suc n) (again (clock n) t h)).1,
      )
  unfolding fire_due
  fire_due_next fuel now n t h early = rw (early, fire_due)

  -- With as much fuel as there are due timers, the loop fires each of them once, in order of time,
  -- and leaves a heap in which none is due.
  pub fire_due-Fires :
      (fuel now n : ℕ) (h : List Timer)
      → length (due now h) ≤ fuel
      → ((m : ℕ) → now ≤ clock m)
      → Sorted 0 h
      → AllPositive h
      → Fires now h (fire_due clock fuel now n h)
  unfolding due fire_due
  fire_due-Fires zero now n [] le later s p = (refl, refl, s, p)
  fire_due-Fires (suc fuel) now n [] le later s p = (refl, refl, s, p)
  fire_due-Fires zero now n (t ∷ h) le later s p =
      let none_due : due now (t ∷ h) ≡ [] = ground arith in (sym none_due, none_due, s, p)
  fire_due-Fires (suc fuel) now n (t ∷ h) le later s p = elim (Bool-cases (leb t.time now)) [
    | inr late ↦
        let none_due = due-later now t.time (t ∷ h) (ground arith) (omega arith, s.1) in
        rw (fire_due_stops fuel now n t h late) (sym none_due, none_due, s, p)
    | inl early ↦
        let h' = again (clock n) t h in
        let (same, s', p') =
          again_lem now n t h (ground arith) (later n) (Sorted-weaken t.time 0 h (omega arith) s.1)
            p in
        let enough : length (due now h') ≤ fuel = rw same (ground arith) in
        let (fired, left, s'', p'') = fire_due-Fires fuel now (suc n) h' enough later s' p' in
        rw (fire_due_next fuel now n t h early)
          (rw early (ap (◌∷◌ t) (fired ∙ same)), left, s'', p'')
  ]

  Sorted-take_queue : (q h : List Timer) → Sorted 0 h → Sorted 0 (take_queue q h)
  unfolding take_queue
  Sorted-take_queue [] h s = s
  Sorted-take_queue (t ∷ q) h s =
      Sorted-insert_in_heap 0 t (take_queue q h) (omega arith) (Sorted-take_queue q h s)

  AllPositive-take_queue :
      (q h : List Timer) → AllPositive q → AllPositive h → AllPositive (take_queue q h)
  unfolding take_queue
  AllPositive-take_queue [] h p s = s
  AllPositive-take_queue (t ∷ q) h p s =
      AllPositive-insert_in_heap t (take_queue q h) p.0 (AllPositive-take_queue q h p.1 s)

  -- A round of the thread, when the clock does not go back and no period is zero, whatever timers are
  -- scheduled meanwhile: it fires each timer of the heap and the queue that is due when it starts,
  -- once and in order of time, and leaves a heap with no timer that is due, so that it ends. The
  -- queue it leaves has the timers that were scheduled while the due ones were handled, in that
  -- order: they wait for the next round, even if they are due.
  pub round-Fires :
      (handler : ℕ → Timer → List Timer) (n : ℕ) (s : TimerThread)
      → ((m : ℕ) → clock n ≤ clock m)
      → Sorted 0 s.heap
      → AllPositive s.heap
      → AllPositive s.queue
      → let (fired, s') = round clock handler n s in
        Fires (clock n) (take_queue s.queue s.heap) (fired, s'.heap)
        × (s'.queue ≡ handle_each clock handler (suc n) (due (clock n) (take_queue s.queue s.heap)))
  unfolding round
  round-Fires handler n s later sorted p q =
      let h = take_queue s.queue s.heap in
      let fires =
        fire_due-Fires (length h) (clock n) (suc n) h (length-due (clock n) h) later
          (Sorted-take_queue s.queue s.heap sorted) (AllPositive-take_queue s.queue s.heap q p) in
      (fires, ap (handle_each clock handler (suc n)) fires.0)
