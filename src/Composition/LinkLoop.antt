-- ===== src/Composition/LinkLoop.antt =====
-- core/composition/Composition.cpp: the second loop of `install`, over the connections.
use Prim.Native.String.{String}
use dstreamon.Base.{
  ◌+◌, ◌≤◌, ◌<◌, ◌≡◌, refl, sym, subst, ◌∙◌, ◌&&◌, List, [], ◌∷◌, Result, ok, err, arith,
  if◌then◌else◌, Result-cases, inl, inr,
}
use dstreamon.Gates.{GateId, gate_eq, Net}
use dstreamon.Gates.Peers.{peers, gate_eq_self}
use dstreamon.Gates.Links.{IsSymmetric}
use dstreamon.Composition.{
  Fault, World, Composition, LinkNode, find_output_gate, find_input_gate, create_link, install_link,
  install_links,
}
use dstreamon.Composition.Linking.{with_net, create_link_lem}

-- The two gates of a configured link are found, and linked.
pub record IsLinked (c : Composition) (w : World) (l : LinkNode) : Type 0 where
  pub src : GateId
  pub dst : GateId
  pub finds_src : find_output_gate l.src_block l.src_gate c w ≡ ok src
  pub finds_dst : find_input_gate l.dst_block l.dst_gate c w ≡ ok dst
  pub linked : 0 < peers dst (w.net.out_peers src)

abbrev pub AllLinked : Composition → World → List LinkNode → Type 0
AllLinked c w [] = Unit
AllLinked c w (l ∷ ls) = IsLinked c w l × AllLinked c w ls

-- What a link that is installed adds to the gates.
pub record Grows (c : Composition) (w w' : World) : Type 0 where
  pub same_out : (b g : String) → find_output_gate b g c w' ≡ find_output_gate b g c w
  pub same_in : (b g : String) → find_input_gate b g c w' ≡ find_input_gate b g c w
  pub more : (o i : GateId) → peers i (w.net.out_peers o) ≤ peers i (w'.net.out_peers o)
  pub symmetric : IsSymmetric w'.net

create_link_found :
    (fb fg tb tg : String) (c : Composition) (w w' : World)
    → create_link fb fg tb tg c w ≡ ok w'
    → (o : GateId) × (i : GateId) × (find_output_gate fb fg c w ≡ ok o)
      × (find_input_gate tb tg c w ≡ ok i)
unfolding create_link
create_link_found fb fg tb tg c w w' e = elim (Result-cases (find_output_gate fb fg c w)) [
  | inl (x, f) ↦ absurd (ground (arith, f))
  | inr (o, f) ↦ elim (Result-cases (find_input_gate tb tg c w)) [
    | inl (x, g) ↦ absurd (ground (arith, f, g))
    | inr (i, g) ↦ (o, i, f, g)
  ]
]

install_link-created :
    (l : LinkNode) (c : Composition) (w w' : World)
    → install_link l c w ≡ ok w'
    → create_link l.src_block l.src_gate l.dst_block l.dst_gate c w ≡ ok w'
unfolding install_link
install_link-created l c w w' e = ground arith

with_net-Grows :
    (c : Composition) (w : World) (o i : GateId) (n : Net)
    → ((p j : GateId)
        → peers j (n.out_peers p)
          ≡ peers j (w.net.out_peers p) + (if gate_eq p o && gate_eq j i then 1 else 0))
    → IsSymmetric n
    → Grows c w (with_net w n)
unfolding find_output_gate find_input_gate
with_net-Grows c w o i n added symmetric = record {
  same_out = λ b g. refl;
  same_in = λ b g. refl;
  more = λ p j. omega (arith, added p j);
  symmetric = symmetric;
}

with_net-IsLinked :
    (l : LinkNode) (c : Composition) (w : World) (o i : GateId) (n : Net)
    → find_output_gate l.src_block l.src_gate c w ≡ ok o
    → find_input_gate l.dst_block l.dst_gate c w ≡ ok i
    → ((p j : GateId)
        → peers j (n.out_peers p)
          ≡ peers j (w.net.out_peers p) + (if gate_eq p o && gate_eq j i then 1 else 0))
    → IsLinked c (with_net w n) l
unfolding find_output_gate find_input_gate
with_net-IsLinked l c w o i n f g added = record {
  src = o;
  dst = i;
  finds_src = f;
  finds_dst = g;
  linked = ground (arith, added o i, gate_eq_self o, gate_eq_self i);
}

install_link-Grows :
    (l : LinkNode) (c : Composition) (w w' : World)
    → IsSymmetric w.net
    → install_link l c w ≡ ok w'
    → Grows c w w' × IsLinked c w' l
install_link-Grows l c w w' s e =
    let made = install_link-created l c w w' e in
    let (o, i, f, g) =
      create_link_found l.src_block l.src_gate l.dst_block l.dst_gate c w w' made in
    let (n, run, added, symmetric) =
      create_link_lem l.src_block l.src_gate l.dst_block l.dst_gate c w o i f g s in
    let same : w' ≡ with_net w n = ground (arith, made, run) in
    subst (λ v. Grows c w v × IsLinked c v l) (sym same)
      (with_net-Grows c w o i n added symmetric, with_net-IsLinked l c w o i n f g added)

Grows-refl : (c : Composition) (w : World) → IsSymmetric w.net → Grows c w w
Grows-refl c w s = record {
  same_out = λ b g. refl;
  same_in = λ b g. refl;
  more = λ o i. omega arith;
  symmetric = s;
}

Grows-trans : (c : Composition) (u v w : World) → Grows c u v → Grows c v w → Grows c u w
Grows-trans c u v w a b = record {
  same_out = λ k g. b.same_out k g ∙ a.same_out k g;
  same_in = λ k g. b.same_in k g ∙ a.same_in k g;
  more = λ o i. omega (arith, a.more o i, b.more o i);
  symmetric = b.symmetric;
}

Grows-IsLinked :
    (c : Composition) (v w : World) (l : LinkNode) → Grows c v w → IsLinked c v l → IsLinked c w l
Grows-IsLinked c v w l a k = record {
  src = k.src;
  dst = k.dst;
  finds_src = a.same_out l.src_block l.src_gate ∙ k.finds_src;
  finds_dst = a.same_in l.dst_block l.dst_gate ∙ k.finds_dst;
  linked = omega (arith, a.more k.src k.dst, k.linked);
}

install_links_err :
    (l : LinkNode) (ls : List LinkNode) (c : Composition) (w : World) (e : Fault)
    → install_link l c w ≡ err e
    → install_links (l ∷ ls) c w ≡ (err e, w)
unfolding install_links
install_links_err l ls c w e f = rw (f, install_links)

install_links_nil : (c : Composition) (w : World) → install_links [] c w ≡ (ok tt, w)
unfolding install_links
install_links_nil c w = refl

install_links_ok :
    (l : LinkNode) (ls : List LinkNode) (c : Composition) (w v : World)
    → install_link l c w ≡ ok v
    → install_links (l ∷ ls) c w ≡ install_links ls c v
unfolding install_links
install_links_ok l ls c w v f = rw (f, install_links)

-- What the loop over the links returns: the gates have grown, and on success all links are there.
abbrev pub Linked : List LinkNode → Composition → World → Result Fault (Unit {0}) × World → Type 0
Linked ls c w r = Grows c w r.1 × (r.0 ≡ ok tt → AllLinked c r.1 ls)

pub install_links-Linked :
    (ls : List LinkNode) (c : Composition) (w : World)
    → IsSymmetric w.net
    → Linked ls c w (install_links ls c w)
install_links-Linked [] c w s =
    subst (Linked [] c w) (sym (install_links_nil c w)) (Grows-refl c w s, λ e. tt)
install_links-Linked (l ∷ ls) c w s = elim (Result-cases (install_link l c w)) [
  | inl (x, f) ↦
      subst (Linked (l ∷ ls) c w) (sym (install_links_err l ls c w x f))
        (Grows-refl c w s, λ e. absurd (ground arith))
  | inr (v, f) ↦
      let (a, here) = install_link-Grows l c w v s f in
      let (b, rest) = install_links-Linked ls c v a.symmetric in
      subst (Linked (l ∷ ls) c w) (sym (install_links_ok l ls c w v f))
        (Grows-trans c w v _ a b, λ e. (Grows-IsLinked c v _ l b here, rest e))
]
