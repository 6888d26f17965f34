-- ===== src/Timers.antt =====
-- core/scheduler/Timer.hpp and TimerThread.hpp: timers, and the thread that fires them.
-- Times are microseconds. The heap is the list of its timers by time: `std::push_heap` and
-- `std::pop_heap` keep the earliest timer in front; which of several timers of one time comes first
-- is theirs to choose, here the one that came first. `clock n` is reading `n` of the system clock,
-- and `handler n t` the timers that are scheduled, by the handler or by another thread, while the
-- timer `t` is handled before that reading. A periodic timer is next due a period after the reading
-- that follows its handler, however late it was; the comment of its `next_time` says a period after
-- its last time.
pub mod Firing
pub mod Tests
use Prim.Native.String.{String}
use dstreamon.Base.{
  ℕ, zero, suc, ◌+◌, Bool, true, false, List, [], ◌∷◌, ◌++◌, Option, none, some, Result, ok, err,
  length, leb, ltb, ◌==◌, if◌then◌else◌,
}

-- `Timer`; a `PeriodicTimer` has a period, a `OneShotTimer` none.
pub record Timer : Type 0 where
  pub time : ℕ
  pub owner : ℕ
  pub name : String
  pub id : ℕ
  pub period : Option ℕ

-- The two methods `next_time`, where the clock reads `now`.
abbrev pub time_from : Option ℕ → ℕ → Timer → Timer
time_from none now t = t
time_from (some p) now t = record t { time = now + p }

unfoldable pub next_time : ℕ → Timer → Timer
next_time now t = time_from t.period now t

unfoldable pub insert_in_heap : Timer → List Timer → List Timer
insert_in_heap t [] = t ∷ []
insert_in_heap t (u ∷ h) =
    let rest = insert_in_heap t h in if ltb t.time u.time then t ∷ (u ∷ h) else u ∷ rest

-- The loop that empties the queue into the heap, from the back.
unfoldable pub take_queue : List Timer → List Timer → List Timer
unfolding insert_in_heap
take_queue [] h = h
take_queue (t ∷ q) h = insert_in_heap t (take_queue q h)

pub data Fault : Type 0 where
  already_running : Fault

-- The fields of `TimerThread`.
pub record TimerThread : Type 0 where
  pub stopping : Bool
  pub running : Bool
  pub queue : List Timer
  pub heap : List Timer

unfoldable pub schedule_timer : Timer → TimerThread → TimerThread
schedule_timer t s = record s { queue = s.queue ++ t ∷ [] }

unfoldable pub stop : TimerThread → TimerThread
stop s = record s { stopping = true }

-- `Block::set_timer_at` and `Block::set_periodic_timer` of the block at an address.
unfoldable pub set_timer_at : ℕ → ℕ → String → ℕ → TimerThread → TimerThread
unfolding schedule_timer
set_timer_at owner ts name id s =
    schedule_timer (record { time = ts; owner = owner; name = name; id = id; period = none }) s

unfoldable pub set_periodic_timer : ℕ → ℕ → ℕ → String → ℕ → TimerThread → TimerThread
unfolding schedule_timer
set_periodic_timer owner now us name id s =
    schedule_timer
      (record { time = now + us; owner = owner; name = name; id = id; period = some us }) s

-- The start of `operator()`.
unfoldable pub enter : TimerThread → Result Fault TimerThread
enter s = if s.running then err already_running else ok (record s { running = true })

module _ (clock : ℕ → ℕ) where
  -- The loop over the timers that are due at `now`, from reading `n` of the clock on: the timers it
  -- fires, in order, and the heap it leaves. It ends when no timer is due.
  unfoldable pub fire_due : ℕ → ℕ → ℕ → List Timer → List Timer × List Timer
  unfolding next_time insert_in_heap
  fire_due zero now n h = ([], h)
  fire_due (suc fuel) now n [] = ([], [])
  fire_due (suc fuel) now n (t ∷ h) =
      let t' = next_time (clock n) t in
      let h' = if t'.time == t.time then h else insert_in_heap t' h in
      let (fired, h'') = fire_due fuel now (suc n) h' in
      if leb t.time now then (t ∷ fired, h'') else ([], t ∷ h)

  module _ (handler : ℕ → Timer → List Timer) where
    -- The queue after the handling of timers, from reading `n` on.
    unfoldable pub handle_each : ℕ → List Timer → List Timer
    handle_each n [] = []
    handle_each n (t ∷ ts) = handler n t ++ handle_each (suc n) ts

    -- One round of the outer loop; the reading before it gives the time at which timers are due.
    unfoldable pub round : ℕ → TimerThread → List Timer × TimerThread
    unfolding take_queue fire_due handle_each
    round n s =
        let heap = take_queue s.queue s.heap in
        let (fired, heap') = fire_due (length heap) (clock n) (suc n) heap in
        (fired, record s { queue = handle_each (suc n) fired; heap = heap' })
