-- ===== src/Composition/Linking.antt =====
-- core/composition/Composition.cpp: links between named gates.
use Prim.Native.String.{String}
use dstreamon.Base.{
  ◌+◌, ◌<◌, ◌≡◌, ◌&&◌, ok, arith, if◌then◌else◌, ◌>>=◌, Result-cases, inl, inr, sym, ◌∙◌,
}
use dstreamon.Gates.{GateId, gate_eq, Net, in_disconnect, out_disconnect}
use dstreamon.Gates.Peers.{peers, gate_eq_self, gate_eq_iff}
use dstreamon.Gates.Links.{
  IsSymmetric, connect, peers-connect, connect-IsSymmetric, disconnect, disconnect_linked,
}
use dstreamon.Composition.{
  World, Composition, find_output_gate, find_input_gate, create_link, delete_link,
}

-- The world with other gates.
abbrev pub with_net : World → Net → World
with_net w n = record w { net = n }

create_link_found :
    (fb fg tb tg : String) (c : Composition) (w : World) (o i : GateId)
    → find_output_gate fb fg c w ≡ ok o
    → find_input_gate tb tg c w ≡ ok i
    → create_link fb fg tb tg c w ≡ ok (with_net w (connect o i w.net))
unfolding create_link
create_link_found fb fg tb tg c w o i e f = rw (e, create_link) (rw (f, create_link))

-- Between gates that are found, a link is made: it is recorded once more at both ends, no other link
-- changes, and the gates stay symmetric.
pub create_link_lem :
    (fb fg tb tg : String) (c : Composition) (w : World) (o i : GateId)
    → find_output_gate fb fg c w ≡ ok o
    → find_input_gate tb tg c w ≡ ok i
    → IsSymmetric w.net
    → (n : Net) × (create_link fb fg tb tg c w ≡ ok (with_net w n))
      × ((p j : GateId)
          → peers j (n.out_peers p)
            ≡ peers j (w.net.out_peers p) + (if gate_eq p o && gate_eq j i then 1 else 0))
      × IsSymmetric n
create_link_lem fb fg tb tg c w o i e f s = (
  connect o i w.net,
  create_link_found fb fg tb tg c w o i e f,
  λ p j. (peers-connect o i w.net p j).0,
  connect-IsSymmetric o i w.net s,
)

delete_link_found :
    (fb fg tb tg : String) (c : Composition) (w : World) (o i : GateId) (n : Net)
    → find_output_gate fb fg c w ≡ ok o
    → find_input_gate tb tg c w ≡ ok i
    → disconnect o i w.net ≡ ok n
    → delete_link fb fg tb tg c w ≡ ok (with_net w n)
unfolding delete_link
delete_link_found fb fg tb tg c w o i n e f d =
    rw (e, delete_link)
      (rw (f, delete_link)
        (elim (Result-cases (in_disconnect i o w.net)) [
          | inl (x, g) ↦ absurd (ground (arith, g))
          | inr (n', g) ↦ elim (Result-cases (out_disconnect o i n')) [
            | inl (x, h) ↦ absurd (ground (arith, g, h))
            | inr (n'', h) ↦ rw g (rw h (ground (arith, g, h)))
          ]
        ]))

-- Deleting a link between gates that are linked removes every link between the two, even one that was
-- made several times; all other links stay, and the gates stay symmetric.
pub delete_link_lem :
    (fb fg tb tg : String) (c : Composition) (w : World) (o i : GateId)
    → find_output_gate fb fg c w ≡ ok o
    → find_input_gate tb tg c w ≡ ok i
    → IsSymmetric w.net
    → 0 < peers o (w.net.in_peers i)
    → (n : Net) × (delete_link fb fg tb tg c w ≡ ok (with_net w n))
      × ((p j : GateId)
          → peers j (n.out_peers p)
            ≡ (if gate_eq p o && gate_eq j i then 0 else peers j (w.net.out_peers p)))
      × IsSymmetric n
delete_link_lem fb fg tb tg c w o i e f s linked =
    let (n, d, kept, symmetric) = disconnect_linked o i w.net s linked in
    (n, delete_link_found fb fg tb tg c w o i n e f d, kept, symmetric)

-- Both calls look names up alone, so what makes a link lets it be deleted: between gates that are
-- found, where the gates are symmetric and the two had no link, the two calls leave every link as it
-- was, at its output gate and at its input gate, and the gates symmetric.
pub delete_link-create_link :
    (fb fg tb tg : String) (c : Composition) (w : World) (o i : GateId)
    → find_output_gate fb fg c w ≡ ok o
    → find_input_gate tb tg c w ≡ ok i
    → IsSymmetric w.net
    → peers i (w.net.out_peers o) ≡ 0
    → (n : Net) × (create_link fb fg tb tg c w >>= delete_link fb fg tb tg c ≡ ok (with_net w n))
      × ((p j : GateId)
          → (peers j (n.out_peers p) ≡ peers j (w.net.out_peers p))
            × (peers p (n.in_peers j) ≡ peers p (w.net.in_peers j)))
      × IsSymmetric n
unfolding find_output_gate find_input_gate
delete_link-create_link fb fg tb tg c w o i e f s unlinked =
    let (n, made, added, symmetric) = create_link_lem fb fg tb tg c w o i e f s in
    let linked : 0 < peers o (n.in_peers i) =
      ground (arith, added o i, symmetric o i, gate_eq_self o, gate_eq_self i) in
    let (n', gone, kept, symmetric') =
      delete_link_lem fb fg tb tg c (with_net w n) o i e f symmetric linked in
    let outs : (p j : GateId) → peers j (n'.out_peers p) ≡ peers j (w.net.out_peers p) =
      λ p j. ground (arith, kept p j, added p j, gate_eq_iff p o, gate_eq_iff j i) in
    (n', rw made gone, λ p j. (outs p j, sym (symmetric' p j) ∙ (outs p j ∙ s p j)), symmetric')
