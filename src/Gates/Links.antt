-- ===== src/Gates/Links.antt =====
-- core/block/OutGate.hpp and InGate.cpp: links as both ends record them.
use dstreamon.Base.{
  ℕ, ◌+◌, ◌<◌, ◌≡◌, ◌&&◌, List, [], ◌∷◌, Result, ok, err, arith, if◌then◌else◌, inl, inr,
  Bool-cases,
}
use dstreamon.Gates.{
  GateId, gate_eq, Net, update, GateFault, not_connected, out_connect, in_connect, remove_peer,
  is_peer, disconnect_peer, out_disconnect, in_disconnect,
}
use dstreamon.Gates.Peers.{gate_eq_iff, peers, peers-append, peers-remove_peer, is_peer_iff}

-- An output gate lists an input gate as often as that lists it.
abbrev pub IsSymmetric : Net → Type 0
IsSymmetric n = (o i : GateId) → peers i (n.out_peers o) ≡ peers o (n.in_peers i)

-- Both ends of a new link, in the order of `Composition::create_link`.
abbrev pub connect : GateId → GateId → Net → Net
connect o i n = out_connect o i (in_connect i o n)

-- A new link is recorded once more at both ends, and no other link changes.
pub peers-connect :
    (o i : GateId) (n : Net) (p j : GateId)
    → let link : ℕ = (if gate_eq p o && gate_eq j i then 1 else 0) in
      (peers j ((connect o i n).out_peers p) ≡ peers j (n.out_peers p) + link)
      × (peers p ((connect o i n).in_peers j) ≡ peers p (n.in_peers j) + link)
unfolding out_connect in_connect peers
peers-connect o i n p j = ground (
  arith,
  gate_eq_iff p o,
  gate_eq_iff j i,
  gate_eq_iff i j,
  gate_eq_iff o p,
  peers-append j (n.out_peers o) (i ∷ []),
  peers-append p (n.in_peers i) (o ∷ []),
)

pub connect-IsSymmetric : (o i : GateId) (n : Net) → IsSymmetric n → IsSymmetric (connect o i n)
connect-IsSymmetric o i n s p j = omega (arith, s p j, peers-connect o i n p j)

disconnect_peer_absent :
    (g : GateId) (ps : List GateId) → peers g ps ≡ 0 → disconnect_peer g ps ≡ err not_connected
unfolding disconnect_peer
disconnect_peer_absent g ps e = rw ((is_peer_iff g ps).1 e)

disconnect_peer_present :
    (g : GateId) (ps : List GateId) → 0 < peers g ps → disconnect_peer g ps ≡ ok (remove_peer g ps)
unfolding disconnect_peer
disconnect_peer_present g ps lt = elim (Bool-cases (is_peer g ps)) [
  | inl there ↦ rw there
  | inr missing ↦ absurd (omega (arith, (is_peer_iff g ps).0 missing))
]

-- Both ends of a link that goes, in the order of `Composition::delete_link`.
abbrev pub disconnect : GateId → GateId → Net → Result GateFault Net
disconnect o i n = elim (in_disconnect i o n) [ err e ↦ err e | ok n' ↦ out_disconnect o i n' ]

abbrev pub unlinked : GateId → GateId → Net → Net
unlinked o i n = record n {
  in_peers = update n.in_peers i (remove_peer o (n.in_peers i));
  out_peers = update n.out_peers o (remove_peer i (n.out_peers o));
}

pub in_disconnect_present :
    (i o : GateId) (n : Net)
    → 0 < peers o (n.in_peers i)
    → in_disconnect i o n
      ≡ ok (record n { in_peers = update n.in_peers i (remove_peer o (n.in_peers i)) })
unfolding in_disconnect
in_disconnect_present i o n lt = rw (disconnect_peer_present o (n.in_peers i) lt, in_disconnect)

out_disconnect_present :
    (o i : GateId) (n : Net)
    → 0 < peers i (n.out_peers o)
    → out_disconnect o i n
      ≡ ok (record n { out_peers = update n.out_peers o (remove_peer i (n.out_peers o)) })
unfolding out_disconnect
out_disconnect_present o i n lt = rw (disconnect_peer_present i (n.out_peers o) lt, out_disconnect)

pub in_disconnect_absent :
    (i o : GateId) (n : Net) → peers o (n.in_peers i) ≡ 0 → in_disconnect i o n ≡ err not_connected
unfolding in_disconnect
in_disconnect_absent i o n e = rw (disconnect_peer_absent o (n.in_peers i) e, in_disconnect)

-- Gates that are not linked cannot be disconnected.
pub disconnect_absent :
    (o i : GateId) (n : Net) → peers o (n.in_peers i) ≡ 0 → disconnect o i n ≡ err not_connected
disconnect_absent o i n e = rw (in_disconnect_absent i o n e, disconnect)

disconnect_present :
    (o i : GateId) (n : Net)
    → IsSymmetric n
    → 0 < peers o (n.in_peers i)
    → disconnect o i n ≡ ok (unlinked o i n)
disconnect_present o i n s lt =
    rw (in_disconnect_present i o n lt, disconnect)
      (out_disconnect_present o i _ (omega (arith, s o i)))

peers-unlinked :
    (o i : GateId) (n : Net) (p j : GateId)
    → (peers j ((unlinked o i n).out_peers p)
        ≡ (if gate_eq p o && gate_eq j i then 0 else peers j (n.out_peers p)))
      × (peers p ((unlinked o i n).in_peers j)
          ≡ (if gate_eq p o && gate_eq j i then 0 else peers p (n.in_peers j)))
peers-unlinked o i n p j = ground (
  arith,
  gate_eq_iff p o,
  gate_eq_iff j i,
  gate_eq_iff i j,
  gate_eq_iff o p,
  peers-remove_peer j i (n.out_peers o),
  peers-remove_peer p o (n.in_peers i),
)

-- In a symmetric net, gates that are linked can be disconnected: both ends forget all links between
-- them, however many there were, every other link stays, and the net is symmetric again.
pub disconnect_linked :
    (o i : GateId) (n : Net)
    → IsSymmetric n
    → 0 < peers o (n.in_peers i)
    → (n' : Net) × (disconnect o i n ≡ ok n')
      × ((p j : GateId)
          → peers j (n'.out_peers p)
            ≡ (if gate_eq p o && gate_eq j i then 0 else peers j (n.out_peers p)))
      × IsSymmetric n'
disconnect_linked o i n s lt = (
  unlinked o i n,
  disconnect_present o i n s lt,
  λ p j. (peers-unlinked o i n p j).0,
  λ p j. ground (arith, peers-unlinked o i n p j, s p j),
)
