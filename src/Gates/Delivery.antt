-- ===== src/Gates/Delivery.antt =====
-- core/block/OutGate.hpp and InGate.cpp: a message on its way to the peers of an output gate.
use mathlib.Core.List.{append_assoc, append-nil}
use dstreamon.Base.{
  ℕ, zero, suc, ◌+◌, ◌≡◌, ◌≢◌, refl, sym, ◌∙◌, Bool, true, ◌&&◌, List, [], ◌∷◌, ◌++◌, ok, arith,
  ◌==◌, if◌then◌else◌, inl, inr, Bool-cases, length,
}
use dstreamon.DbQueue.{DbQueue}
use dstreamon.DbQueue
use dstreamon.DbQueue.Refine.{Holds, push-Holds}
use dstreamon.Gates.{GateId, gate_eq, Net, slots, receive, receive_each, deliver}
use dstreamon.Gates.Peers.{gate_eq_iff, gate_eq_self, peers}

-- `k` pushes of one message.
abbrev pub push_times : ℕ → DbQueue ℕ → ℕ → DbQueue ℕ
push_times zero q m = q
push_times (suc k) q m = push_times k (DbQueue.push 0 slots q m).1 m

-- The calls on the passive blocks among the peers.
abbrev pub passive_calls : (ℕ → Bool) → List GateId → ℕ → List (GateId × ℕ)
passive_calls active [] m = []
passive_calls active (i ∷ is) m =
    let rest = passive_calls active is m in if active i.block then rest else (i, m) ∷ rest

active-receive : (i : GateId) (m : ℕ) (n : Net) → (receive i m n).active ≡ n.active
unfolding receive
active-receive i m n = ground arith

active-receive_each : (is : List GateId) (m : ℕ) (n : Net) → (receive_each is m n).active ≡ n.active
unfolding receive_each
active-receive_each [] m n = refl
active-receive_each (i ∷ is) m n = active-receive_each is m (receive i m n) ∙ active-receive i m n

queue-receive :
    (i : GateId) (m : ℕ) (n : Net) (g : GateId)
    → (receive i m n).in_queue g ≡ (
        if n.active i.block && gate_eq g i
        then (DbQueue.push 0 slots (n.in_queue i) m).1
        else n.in_queue g)
unfolding receive
queue-receive i m n g = ground arith

queue-receive_each :
    (is : List GateId) (m : ℕ) (n : Net) (g : GateId)
    → (receive_each is m n).in_queue g
      ≡ (if n.active g.block then push_times (peers g is) (n.in_queue g) m else n.in_queue g)
unfolding receive_each peers
queue-receive_each [] m n g = ground arith
queue-receive_each (i ∷ is) m n g =
    queue-receive_each is m (receive i m n) g
    ∙ rw (active-receive i m n, queue-receive i m n g)
        (elim (Bool-cases (gate_eq i g)) [
          | inl hit ↦
              let more : 1 + peers g is ≡ suc (peers g is) = omega arith in
              rw (hit, more) (ground (arith, gate_eq_iff i g, gate_eq_self g))
          | inr miss ↦
              let more : 0 + peers g is ≡ peers g is = omega arith in
              rw (miss, more) (ground (arith, gate_eq_iff g i, gate_eq_iff i g, gate_eq_self g))
        ])

calls-receive :
    (i : GateId) (m : ℕ) (n : Net)
    → (receive i m n).calls ≡ (if n.active i.block then n.calls else n.calls ++ (i, m) ∷ [])
unfolding receive
calls-receive i m n = ground arith

calls-receive_each :
    (is : List GateId) (m : ℕ) (n : Net)
    → (receive_each is m n).calls ≡ n.calls ++ passive_calls n.active is m
unfolding receive_each
calls-receive_each [] m n = sym (append-nil n.calls)
calls-receive_each (i ∷ is) m n =
    calls-receive_each is m (receive i m n)
    ∙ rw (active-receive i m n, calls-receive i m n)
        (elim (Bool-cases (n.active i.block)) [
          | inl on ↦ rw on
          | inr off ↦ rw off (append_assoc n.calls ((i, m) ∷ []) (passive_calls n.active is m))
        ])

-- A gate with peers delivers its message once for each time that it lists a peer: into the peer's
-- queue where the peer's block is active, and by a call, in the order of the list, where it is
-- passive. No other queue changes.
pub deliver_lem :
    (o : GateId) (m : ℕ) (n : Net)
    → n.out_peers o ≢ []
    → (n' : Net) × (deliver o m n ≡ ok n')
      × ((g : GateId)
          → n'.in_queue g ≡ (
              if n.active g.block
              then push_times (peers g (n.out_peers o)) (n.in_queue g) m
              else n.in_queue g))
      × (n'.calls ≡ n.calls ++ passive_calls n.active (n.out_peers o) m)
unfolding deliver
deliver_lem o m n linked = (
  receive_each (n.out_peers o) m n,
  ground arith,
  queue-receive_each (n.out_peers o) m n,
  calls-receive_each (n.out_peers o) m n,
)

-- A delivery to an active block whose queue holds the batches `xs` and `ys`: the message is last in
-- the queue, unless the batch being filled has its 1024 messages; then the message is lost, and the
-- delivery succeeds all the same.
pub deliver_queued :
    (o g : GateId) (m : ℕ) (n : Net) (xs ys : List ℕ)
    → n.out_peers o ≡ g ∷ []
    → n.active g.block ≡ true
    → Holds slots (n.in_queue g) xs ys
    → (n' : Net) × (deliver o m n ≡ ok n')
      × Holds slots (n'.in_queue g) xs (if length ys == slots then ys else ys ++ m ∷ [])
unfolding deliver receive_each
deliver_queued o g m n xs ys only on h =
    let (done, next) = push-Holds 0 slots (omega arith) (omega arith) (n.in_queue g) xs ys m h in
    let arrived : (receive g m n).in_queue g ≡ (DbQueue.push 0 slots (n.in_queue g) m).1 =
      queue-receive g m n g ∙ rw (on, gate_eq_self g) in
    (
      receive g m n,
      rw (only, deliver),
      rw arrived (elim (Bool-cases (length ys == slots)) [
        | inl full ↦ rw full (rw full at next)
        | inr room ↦ rw room (rw room at next)
      ]),
    )
