-- ===== src/Gates/Detach.antt =====
-- core/block/OutGate.hpp: `disconnect_all`.
use dstreamon.Base.{
  ◌≤◌, ◌<◌, ◌≡◌, refl, ◌&&◌, List, [], ◌∷◌, ok, err, arith, ltb, if◌then◌else◌, inl, inr,
  Bool-cases, dec_lt,
}
use dstreamon.Gates.{
  GateId, gate_eq, Net, update, not_connected, remove_peer, out_disconnect_each, out_disconnect_all,
}
use dstreamon.Gates.Peers.{gate_eq_iff, gate_eq_self, peers, peers-remove_peer}
use dstreamon.Gates.Links.{IsSymmetric, in_disconnect_present, in_disconnect_absent}

-- The net without the gate `o` among the peers of `i`.
abbrev forget : GateId → GateId → Net → Net
forget o i n = record n { in_peers = update n.in_peers i (remove_peer o (n.in_peers i)) }

peers-forget :
    (o i : GateId) (n : Net) (p j : GateId)
    → peers p ((forget o i n).in_peers j)
      ≡ (if gate_eq p o && gate_eq j i then 0 else peers p (n.in_peers j))
peers-forget o i n p j =
    ground (
      arith,
      gate_eq_iff p o,
      gate_eq_iff o p,
      gate_eq_iff j i,
      peers-remove_peer p o (n.in_peers i),
    )

-- A peer that does not list the gate ends the loop with the exception.
each_missing :
    (o i : GateId) (is : List GateId) (n : Net)
    → 0 < peers i is
    → peers o (n.in_peers i) ≡ 0
    → (out_disconnect_each o is n).0 ≡ err not_connected
unfolding out_disconnect_each peers
each_missing o i [] n lt gone = absurd (omega arith)
each_missing o i (h ∷ is) n lt gone = elim (dec_lt 0 (peers o (n.in_peers h))) [
  | no absent ↦ rw (in_disconnect_absent h o n (omega arith), out_disconnect_each)
  | yes listed ↦
      rw (in_disconnect_present h o n listed, out_disconnect_each)
        (each_missing o i is (forget o h n) (ground (arith, gate_eq_iff h i))
          (ground (arith, peers-forget o h n o i)))
]

each_twice :
    (o i : GateId) (is : List GateId) (n : Net)
    → 1 < peers i is
    → (out_disconnect_each o is n).0 ≡ err not_connected
unfolding out_disconnect_each peers
each_twice o i [] n lt = absurd (omega arith)
each_twice o i (h ∷ is) n lt = elim (dec_lt 0 (peers o (n.in_peers h))) [
  | no absent ↦ rw (in_disconnect_absent h o n (omega arith), out_disconnect_each)
  | yes listed ↦
      rw (in_disconnect_present h o n listed, out_disconnect_each)
        (elim (Bool-cases (gate_eq h i)) [
          | inl same ↦ each_missing o i is (forget o h n) (ground arith) (
              ground
                (arith, peers-forget o h n o i, gate_eq_iff h i, gate_eq_self i, gate_eq_self o))
          | inr other ↦ each_twice o i is (forget o h n) (ground arith)
        ])
]

-- A gate that lists a peer twice cannot be disconnected from all its peers: the first visit makes
-- that peer forget the gate altogether, and the second throws.
pub out_disconnect_all_twice :
    (o i : GateId) (n : Net)
    → 1 < peers i (n.out_peers o)
    → (out_disconnect_all o n).0 ≡ err not_connected
unfolding out_disconnect_all
out_disconnect_all_twice o i n lt = rw (each_twice o i (n.out_peers o) n lt, out_disconnect_all)

each_once :
    (o : GateId) (is : List GateId) (n : Net)
    → ((j : GateId) → peers j is ≤ 1)
    → ((j : GateId) → peers j is ≤ peers o (n.in_peers j))
    → (n' : Net) × (out_disconnect_each o is n ≡ (ok tt, n'))
      × (n'.out_peers ≡ n.out_peers)
      × ((p j : GateId)
          → peers p (n'.in_peers j)
            ≡ (if gate_eq p o && ltb 0 (peers j is) then 0 else peers p (n.in_peers j)))
unfolding out_disconnect_each peers
each_once o [] n once listed = (n, refl, refl, λ p j. ground arith)
each_once o (h ∷ is) n once listed =
    let here : 0 < peers o (n.in_peers h) = ground (arith, listed h, gate_eq_self h) in
    let (n', run, outs, ins) =
      each_once o is (forget o h n) (λ j. ground (arith, once j))
        (λ j.
          ground
            (arith, once j, listed j, peers-forget o h n o j, gate_eq_iff h j, gate_eq_iff j h)) in
    (
      n',
      rw (in_disconnect_present h o n here, out_disconnect_each) run,
      outs,
      λ p j. ground (arith, ins p j, peers-forget o h n p j, gate_eq_iff h j, gate_eq_iff j h),
    )

out_disconnect_all_done :
    (o : GateId) (n n' : Net)
    → out_disconnect_each o (n.out_peers o) n ≡ (ok tt, n')
    → out_disconnect_all o n ≡ (ok tt, record n' { out_peers = update n'.out_peers o [] })
unfolding out_disconnect_all
out_disconnect_all_done o n n' e = rw (e, out_disconnect_all) (rw e)

-- In a symmetric net, a gate that lists no peer twice is disconnected from all of them: it has no
-- peers left, no gate lists it, every other link stays, and the net is symmetric again.
pub out_disconnect_all_once :
    (o : GateId) (n : Net)
    → IsSymmetric n
    → ((j : GateId) → peers j (n.out_peers o) ≤ 1)
    → (n' : Net) × (out_disconnect_all o n ≡ (ok tt, n'))
      × ((p j : GateId)
          → peers j (n'.out_peers p) ≡ (if gate_eq p o then 0 else peers j (n.out_peers p)))
      × IsSymmetric n'
unfolding peers
out_disconnect_all_once o n s once =
    let (n', run, outs, ins) = each_once o (n.out_peers o) n once (λ j. omega (arith, s o j)) in
    (
      record n' { out_peers = update n'.out_peers o [] },
      out_disconnect_all_done o n n' run,
      λ p j. rw outs (ground arith),
      λ p j. rw outs (ground (arith, ins p j, s p j, s o j, gate_eq_iff p o)),
    )
