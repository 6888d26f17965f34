-- ===== src/Timers/Tests.antt =====
-- core/scheduler/TimerThread.hpp: a thread with a one-shot and a periodic timer.
use dstreamon.Base.{
  ℕ, List, ◌==◌, if◌then◌else◌, ◌+◌, ◌≡◌, refl, true, false, [], ◌∷◌, none, some, ok, err, arith,
}
use dstreamon.Timers.{
  Timer, TimerThread, already_running, take_queue, insert_in_heap, fire_due, next_time, handle_each,
  round, schedule_timer, set_timer_at, set_periodic_timer, enter, stop,
}
use dstreamon.Timers.Firing.{due, Fires, round-Fires}

abbrev once : Timer
once = record { time = 40; owner = 1; name = "once"; id = 0; period = none }

abbrev tick : Timer
tick = record { time = 30; owner = 1; name = "tick"; id = 1; period = some 10 }

abbrev thread : TimerThread
thread = record { stopping = false; running = true; queue = tick ∷ []; heap = once ∷ [] }

abbrev clock : ℕ → ℕ
clock n = 50 + n

-- The handler of the periodic timer schedules another timer, which is due at once.
abbrev later : Timer
later = record { time = 45; owner = 1; name = "later"; id = 2; period = none }

abbrev handler : ℕ → Timer → List Timer
handler n t = if t.id == 1 then later ∷ [] else []

round-Fires_example :
    let (fired, s') = round clock handler 0 thread in
    Fires (clock 0) (take_queue thread.queue thread.heap) (fired, s'.heap)
    × (s'.queue ≡ handle_each clock handler 1 (due (clock 0) (take_queue thread.queue thread.heap)))
round-Fires_example =
    round-Fires clock handler 0 thread (λ m. omega arith) (omega arith, tt)
      ((λ e. absurd (ground arith)), tt) ((λ e. absurd (ground arith)), tt)

round_runs : round clock handler 0 thread ≡ (
  tick ∷ (once ∷ []),
  record thread { queue = later ∷ []; heap = record tick { time = 61 } ∷ [] },
)
unfolding round take_queue insert_in_heap fire_due handle_each next_time
round_runs = refl

-- The calls of blocks and of the process.
calls :
    (set_periodic_timer 1 20 10 "tick" 1 (record thread { queue = [] }) ≡ thread)
    × ((set_timer_at 1 40 "once" 0 thread).queue ≡ tick ∷ (once ∷ []))
    × (enter thread ≡ err already_running)
    × (enter (record thread { running = false }) ≡ ok thread)
    × ((stop thread).stopping ≡ true)
unfolding set_periodic_timer set_timer_at schedule_timer enter stop
calls = (refl, refl, refl, refl, refl)
