-- ===== src/Gates.antt =====
-- core/block/InGate.hpp, InGate.cpp and OutGate.hpp: the gates of the blocks, on a heap. An address is
-- a block and the gate's index in it; each field of the classes is a function of the address.
pub mod Peers
pub mod Links
pub mod Detach
pub mod Delivery
pub mod Tests
use dstreamon.Base.{
  ℕ, zero, suc, ◌+◌, ◌≡◌, ◌↔◌, Bool, true, false, not, ◌&&◌, List, [], ◌∷◌, ◌++◌, Option, none,
  some, Result, ok, err, arith, ◌==◌, if◌then◌else◌,
}
use dstreamon.DbQueue.{DbQueue}
use dstreamon.DbQueue

pub record GateId : Type 0 where
  pub block : ℕ
  pub index : ℕ

-- Equality of pointers.
abbrev pub gate_eq : GateId → GateId → Bool
gate_eq a b = a.block == b.block && a.index == b.index

-- `InGate::m_peers`, `OutGate::m_peers` and `InGate::m_queue`; `Block::m_isactive` of each block; and
-- the calls of `receive_msg` on passive blocks, in order. What the blocks do in them is theirs.
pub record Net : Type 0 where
  pub in_peers : GateId → List GateId
  pub out_peers : GateId → List GateId
  pub in_queue : GateId → DbQueue ℕ
  pub active : ℕ → Bool
  pub calls : List (GateId × ℕ)

abbrev pub update {ℓ} : {A : Type ℓ} → (GateId → A) → GateId → A → GateId → A
update f k v g = if gate_eq g k then v else f g

pub data GateFault : Type 0 where
  not_connected no_peers : GateFault

-- `InGate::queue_type` has 1024 slots; a message is its address, 0 the null pointer.
abbrev pub slots : ℕ
slots = 1024

-- `OutGate::connect` and `InGate::connect`
unfoldable pub out_connect : GateId → GateId → Net → Net
out_connect o i n = record n { out_peers = update n.out_peers o (n.out_peers o ++ i ∷ []) }

unfoldable pub in_connect : GateId → GateId → Net → Net
in_connect i o n = record n { in_peers = update n.in_peers i (n.in_peers i ++ o ∷ []) }

-- `std::remove` of a pointer.
pub remove_peer : GateId → List GateId → List GateId
remove_peer g [] = []
remove_peer g (p ∷ ps) = let rest = remove_peer g ps in if gate_eq p g then rest else p ∷ rest

pub is_peer : GateId → List GateId → Bool
is_peer g [] = false
is_peer g (p ∷ ps) = let rest = is_peer g ps in if gate_eq p g then true else rest

-- Every occurrence goes, and the exception is thrown when there is none.
pub disconnect_peer : GateId → List GateId → Result GateFault (List GateId)
unfolding remove_peer is_peer
disconnect_peer g ps = if is_peer g ps then ok (remove_peer g ps) else err not_connected

pub out_disconnect : GateId → GateId → Net → Result GateFault Net
out_disconnect o i n = elim (disconnect_peer i (n.out_peers o)) [
  | err e ↦ err e
  | ok ps ↦ ok (record n { out_peers = update n.out_peers o ps })
]

pub in_disconnect : GateId → GateId → Net → Result GateFault Net
in_disconnect i o n = elim (disconnect_peer o (n.in_peers i)) [
  | err e ↦ err e
  | ok ps ↦ ok (record n { in_peers = update n.in_peers i ps })
]

-- The loops of `disconnect_all`: an exception leaves the peers before it disconnected.
pub out_disconnect_each : GateId → List GateId → Net → Result GateFault (Unit {0}) × Net
out_disconnect_each o [] n = (ok tt, n)
out_disconnect_each o (i ∷ is) n = elim (in_disconnect i o n) [
  | err e ↦ (err e, n)
  | ok n' ↦ out_disconnect_each o is n'
]

pub in_disconnect_each : GateId → List GateId → Net → Result GateFault (Unit {0}) × Net
in_disconnect_each i [] n = (ok tt, n)
in_disconnect_each i (o ∷ os) n = elim (out_disconnect o i n) [
  | err e ↦ (err e, n)
  | ok n' ↦ in_disconnect_each i os n'
]

pub out_disconnect_all : GateId → Net → Result GateFault (Unit {0}) × Net
unfolding out_disconnect_each in_disconnect
out_disconnect_all o n =
    let (r, n') = out_disconnect_each o (n.out_peers o) n in
    elim r [
      | err e ↦ (err e, n')
      | ok _ ↦ (ok tt, record n' { out_peers = update n'.out_peers o [] })
    ]

pub in_disconnect_all : GateId → Net → Result GateFault (Unit {0}) × Net
unfolding in_disconnect_each out_disconnect
in_disconnect_all i n =
    let (r, n') = in_disconnect_each i (n.in_peers i) n in
    elim r [
      | err e ↦ (err e, n')
      | ok _ ↦ (
        ok tt,
        record n' {
          in_peers = update n'.in_peers i [];
          in_queue = update n'.in_queue i (DbQueue.reset 0 slots (n'.in_queue i));
        },
      )
    ]

-- `InGate::receive`: the result of `push` is not read.
pub receive : GateId → ℕ → Net → Net
receive i m n =
    if n.active i.block
    then record n { in_queue = update n.in_queue i (DbQueue.push 0 slots (n.in_queue i) m).1 }
    else record n { calls = n.calls ++ (i, m) ∷ [] }

-- The loop of `OutGate::deliver`, over the peers in order.
pub receive_each : List GateId → ℕ → Net → Net
unfolding receive
receive_each [] m n = n
receive_each (i ∷ is) m n = receive_each is m (receive i m n)

-- `OutGate::deliver`, with its assertion.
pub deliver : GateId → ℕ → Net → Result GateFault Net
unfolding receive_each
deliver o m n = elim (n.out_peers o) [ [] ↦ err no_peers | i ∷ is ↦ ok (receive_each (i ∷ is) m n) ]

-- `InGate::dequeue`
unfoldable pub dequeue : GateId → Net → Option ℕ × Net
dequeue i n =
    let (m, q) = DbQueue.pop 0 slots (n.in_queue i) in
    (m, record n { in_queue = update n.in_queue i q })
