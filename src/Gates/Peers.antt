-- ===== src/Gates/Peers.antt =====
-- core/block/OutGate.hpp and InGate.cpp: lists of peers.
use dstreamon.Base.{ℕ, ◌+◌, ◌≡◌, ◌↔◌, refl, true, false, List, [], ◌∷◌, ◌++◌, arith, if◌then◌else◌}
use dstreamon.Gates.{GateId, gate_eq, remove_peer, is_peer}

pub gate_eq_iff : (a b : GateId) → (gate_eq a b ≡ true) ↔ (a ≡ b)
gate_eq_iff a b =
    (λ e. λ i. record { block = block_eq e i; index = index_eq e i }, λ e. rw e (self b))
  where
    block_eq : gate_eq a b ≡ true → a.block ≡ b.block
    block_eq e = ground arith

    index_eq : gate_eq a b ≡ true → a.index ≡ b.index
    index_eq e = ground arith

    self : (g : GateId) → gate_eq g g ≡ true
    self g = ground arith

pub gate_eq_self : (a : GateId) → gate_eq a a ≡ true
gate_eq_self a = (gate_eq_iff a a).1 refl

-- How often a gate is among the peers.
unfoldable pub peers : GateId → List GateId → ℕ
peers g [] = 0
peers g (p ∷ ps) = (if gate_eq p g then 1 else 0) + peers g ps

pub peers-append : (g : GateId) (xs ys : List GateId) → peers g (xs ++ ys) ≡ peers g xs + peers g ys
unfolding peers
peers-append g [] ys = omega arith
peers-append g (x ∷ xs) ys = omega (arith, peers-append g xs ys)

pub peers-remove_peer :
    (g h : GateId) (ps : List GateId)
    → peers g (remove_peer h ps) ≡ (if gate_eq h g then 0 else peers g ps)
unfolding peers remove_peer
peers-remove_peer g h [] = ground arith
peers-remove_peer g h (p ∷ ps) =
    ground (arith, peers-remove_peer g h ps, gate_eq_iff p h, gate_eq_iff p g, gate_eq_iff h g)

pub is_peer_iff : (g : GateId) (ps : List GateId) → (is_peer g ps ≡ false) ↔ (peers g ps ≡ 0)
unfolding peers is_peer
is_peer_iff g [] = (λ e. refl, λ e. refl)
is_peer_iff g (p ∷ ps) = ground (arith, is_peer_iff g ps)
