-- ===== src/Blocks/RunLoop.antt =====
-- core/block/Block.cpp: what one call of `run` handles.
use mathlib.Core.List.{append-nil}
use dstreamon.Base.{
  if◌then◌else◌, ℕ, zero, suc, ◌+◌, ◌<◌, ◌≡◌, ◌≢◌, refl, sym, ap, ◌∙◌, min, false, List, [], ◌∷◌,
  ◌++◌, none, some, arith, length, map,
}
use dstreamon.MsgQueue.{MsgQueue}
use dstreamon.MsgQueue
use dstreamon.DbQueue
use dstreamon.DbQueue.Refine.{Holds, pop-Holds}
use dstreamon.Gates.{GateId, gate_eq, Net, slots, dequeue}
use dstreamon.Gates.Peers.{gate_eq_self}
use dstreamon.Blocks.{
  Block, Event, timer, message, async, drain_timers, drain_gate, drain_gates, run,
}

-- Every timer that is queued is handled, in order, and none is left: the loop has fuel enough.
pub drain_timers_all :
    (fuel : ℕ) (q : MsgQueue) → length q < fuel → drain_timers fuel q ≡ (map timer q, [])
unfolding drain_timers MsgQueue.pop
drain_timers_all zero q lt = absurd (omega arith)
drain_timers_all (suc fuel) [] lt = refl
drain_timers_all (suc fuel) (t ∷ q) lt = rw (drain_timers_all fuel q (omega arith))

abbrev pub AllMessages : List ℕ → Type 0
AllMessages [] = Unit
AllMessages (m ∷ ms) = (m ≢ 0) × AllMessages ms

-- What the queue of a gate gives up to `n` calls of `dequeue`.
abbrev pub Drains : ℕ → GateId → Net → List ℕ → List ℕ → List Event × Net → Type 0
Drains n g net xs ys r =
    (ms : List ℕ) × (us : List ℕ) × (vs : List ℕ) × (r.0 ≡ map (λ m. message m g.index) ms)
    × (xs ++ ys ≡ ms ++ (us ++ vs))
    × (length ms ≡ min n (length (xs ++ ys)))
    × Holds slots (r.1.in_queue g) us vs
    × ((h : GateId) → r.1.in_queue h ≡ (if gate_eq h g then r.1.in_queue h else net.in_queue h))

dequeue_queue :
    (g : GateId) (net : Net)
    → (dequeue g net).1.in_queue g ≡ (DbQueue.pop 0 slots (net.in_queue g)).1
unfolding dequeue
dequeue_queue g net = rw (gate_eq_self g)

dequeue_result :
    (g : GateId) (net : Net) → (dequeue g net).0 ≡ (DbQueue.pop 0 slots (net.in_queue g)).0
unfolding dequeue
dequeue_result g net = refl

dequeue_other :
    (g h : GateId) (net : Net) → gate_eq h g ≡ false → (dequeue g net).1.in_queue h ≡ net.in_queue h
unfolding dequeue
dequeue_other g h net e = rw e

drain_gate_got :
    (n : ℕ) (g : GateId) (net : Net) (x : ℕ)
    → x ≢ 0
    → (dequeue g net).0 ≡ some x
    → drain_gate (suc n) g net ≡ (
      message x g.index ∷ (drain_gate n g (dequeue g net).1).0,
      (drain_gate n g (dequeue g net).1).1,
    )
unfolding drain_gate
drain_gate_got n g net x some_message got = rw (got, drain_gate) (ground arith)

drain_gate_zero : (g : GateId) (net : Net) → drain_gate 0 g net ≡ ([], net)
unfolding drain_gate
drain_gate_zero g net = refl

drain_gate_stops :
    (n : ℕ) (g : GateId) (net : Net)
    → (dequeue g net).0 ≡ none
    → drain_gate (suc n) g net ≡ ([], (dequeue g net).1)
unfolding drain_gate
drain_gate_stops n g net got = rw (got, drain_gate)

-- One dequeue that finds a message, and what the calls behind it find.
drain_gate_next :
    (n : ℕ) (g : GateId) (net : Net) (x : ℕ) (xs ys us vs : List ℕ)
    → xs ++ ys ≡ x ∷ (us ++ vs)
    → x ≢ 0
    → (dequeue g net).0 ≡ some x
    → Drains n g (dequeue g net).1 us vs (drain_gate n g (dequeue g net).1)
    → Drains (suc n) g net xs ys (drain_gate (suc n) g net)
drain_gate_next n g net x xs ys us vs e some_message got (ms, us', vs', run, split, len, h, frame) =
    rw (drain_gate_got n g net x some_message got) (
      x ∷ ms,
      us',
      vs',
      ap (◌∷◌ (message x g.index)) run,
      e ∙ ap (◌∷◌ x) split,
      omega (arith, ap length e, len),
      h,
      λ k. ground (arith, frame k, dequeue_other g k net),
    )

-- From a queue that holds messages, `n` calls take the first `n`, or all, and hand them to the
-- block in order; the others stay, in order, and no other queue changes.
pub drain_gate-Drains :
    (n : ℕ) (g : GateId) (net : Net) (xs ys : List ℕ)
    → Holds slots (net.in_queue g) xs ys
    → AllMessages (xs ++ ys)
    → Drains n g net xs ys (drain_gate n g net)
drain_gate-Drains zero g net xs ys h some_messages =
    rw (drain_gate_zero g net) ([], xs, ys, refl, refl, omega arith, h, λ k. ground arith)
drain_gate-Drains (suc n) g net (x ∷ xs) ys h some_messages =
    let (found, next) =
      pop-Holds 0 slots (omega arith) (omega arith) (net.in_queue g) (x ∷ xs) ys h in
    drain_gate_next n g net x (x ∷ xs) ys xs ys refl some_messages.0 (dequeue_result g net ∙ found)
      (drain_gate-Drains n g (dequeue g net).1 xs ys (rw (dequeue_queue g net) next)
        some_messages.1)
drain_gate-Drains (suc n) g net [] (y ∷ ys) h some_messages =
    let (found, next) =
      pop-Holds 0 slots (omega arith) (omega arith) (net.in_queue g) [] (y ∷ ys) h in
    drain_gate_next n g net y [] (y ∷ ys) ys [] (ap (◌∷◌ y) (sym (append-nil ys))) some_messages.0
      (dequeue_result g net ∙ found)
      (drain_gate-Drains n g (dequeue g net).1 ys [] (rw (dequeue_queue g net) next)
        (rw (append-nil ys) some_messages.1))
drain_gate-Drains (suc n) g net [] [] h some_messages =
    let (found, next) = pop-Holds 0 slots (omega arith) (omega arith) (net.in_queue g) [] [] h in
    rw (drain_gate_stops n g net (dequeue_result g net ∙ found)) (
      [],
      [],
      [],
      refl,
      refl,
      omega arith,
      rw (dequeue_queue g net) next,
      λ k. ground (arith, dequeue_other g k net),
    )

-- A call of `run` handles every queued timer, in order and before any message, leaves no timer, and
-- ends with the asynchronous work.
pub run_order :
    (a : ℕ) (b : Block) (net : Net)
    → let (messages, net') = drain_gates a b.ingates 0 net in
      run a b net
      ≡ (map timer b.timer_queue ++ (messages ++ async ∷ []), record b { timer_queue = [] }, net')
unfolding run
run_order a b net = rw (drain_timers_all (length b.timer_queue + 1) b.timer_queue (omega arith))
