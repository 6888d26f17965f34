-- ===== src/Composition/Tests.antt =====
-- core/composition: a configuration of two blocks and a link.
use Prim.Native.String.{String}
use text.Mathlib.Text.{◌==◌ as str_eq}
use dstreamon.Base.{
  ◌+◌, ◌≡◌, refl, Bool, false, List, [], ◌∷◌, ◌&&◌, Option, none, some, Result, ok, if◌then◌else◌,
  ◌>>=◌,
}
use dstreamon.Assoc.{find, put, insert}
use dstreamon.DbQueue
use dstreamon.Gates.{GateId, gate_eq, Net, slots}
use dstreamon.Gates.Peers.{peers}
use dstreamon.Gates.Links.{IsSymmetric, connect}
use dstreamon.Blocks.{
  Block, BlockFault, new_block, register_input_gate, register_output_gate, get_input_gate,
  get_output_gate,
}
use dstreamon.Composition.{
  World, Composition, BlockNode, LinkNode, allocate, find_output_gate, find_input_gate, create_link,
  delete_link, create_block_from_parsed, install_block, install_blocks, install_link, install_links,
  install,
}
use dstreamon.Composition.Linking.{with_net, create_link_lem, delete_link-create_link}
use dstreamon.Composition.LinkLoop.{AllLinked}
use dstreamon.Composition.BlockLoop.{AllNamed}
use dstreamon.Composition.Install.{install-IsSymmetric, install_lem}

-- A factory that knows one type of block, with an input gate and an output gate.
abbrev instantiate : String → String → Bool → Option Block
instantiate type name active =
    if str_eq type "Counter"
    then some (register_output_gate "out" (register_input_gate "in" (new_block name active)).1).1
    else none

abbrev configure : Unit {0} → Block → Result BlockFault Block
configure u b = ok b

abbrev empty_net : Net
empty_net = record {
  in_peers = λ g. [];
  out_peers = λ g. [];
  in_queue = λ g. DbQueue.init 0 slots;
  active = λ b. false;
  calls = [];
}

abbrev empty_world : World
empty_world = record {
  blocks = λ a. new_block "" false;
  next_address = 1;
  net = empty_net;
  pools = [];
}

abbrev empty : Composition
empty = record { composition_id = "test"; map = [] }

abbrev node : String → BlockNode (Unit {0})
node name = record {
  id = name;
  block_type = "Counter";
  threadpool = "";
  sched_type = "";
  params = tt;
}

abbrev nodes : List (BlockNode (Unit {0}))
nodes = node "a" ∷ (node "b" ∷ [])

abbrev link : LinkNode
link = record { src_block = "a"; src_gate = "out"; dst_block = "b"; dst_gate = "in" }

empty-IsSymmetric : IsSymmetric empty_net
unfolding peers
empty-IsSymmetric o i = refl

install-IsSymmetric_example :
    IsSymmetric (install instantiate configure nodes (link ∷ []) empty empty_world).2.net
install-IsSymmetric_example =
    install-IsSymmetric instantiate configure nodes (link ∷ []) empty empty_world empty-IsSymmetric

install_lem_example :
    AllNamed (install instantiate configure nodes (link ∷ []) empty empty_world).1 nodes
    × AllLinked
        (install instantiate configure nodes (link ∷ []) empty empty_world).1
        (install instantiate configure nodes (link ∷ []) empty empty_world).2
        (link ∷ [])
unfolding install install_blocks install_block create_block_from_parsed install_links install_link
    create_link find_output_gate find_input_gate new_block register_input_gate register_output_gate
    get_input_gate get_output_gate find put insert
install_lem_example =
    install_lem instantiate configure nodes (link ∷ []) empty empty_world empty-IsSymmetric refl

abbrev block : String → Block
block name = (register_output_gate "out" (register_input_gate "in" (new_block name false)).1).1

abbrev two : Composition
two = record { composition_id = "test"; map = ("a", 1) ∷ (("b", 2) ∷ []) }

abbrev two_world : World
two_world = allocate (block "b") (allocate (block "a") empty_world)

abbrev from : GateId
from = record { block = 1; index = 0 }

abbrev to : GateId
to = record { block = 2; index = 0 }

from_found : find_output_gate "a" "out" two two_world ≡ ok from
unfolding find_output_gate find get_output_gate register_input_gate register_output_gate new_block
    insert
from_found = refl

to_found : find_input_gate "b" "in" two two_world ≡ ok to
unfolding find_input_gate find get_input_gate register_input_gate register_output_gate new_block
    insert
to_found = refl

create_link_lem_example :
    (n : Net) × (create_link "a" "out" "b" "in" two two_world ≡ ok (with_net two_world n))
    × ((p j : GateId)
        → peers j (n.out_peers p)
          ≡ peers j (two_world.net.out_peers p) + (if gate_eq p from && gate_eq j to then 1 else 0))
    × IsSymmetric n
create_link_lem_example =
    create_link_lem "a" "out" "b" "in" two two_world from to from_found to_found empty-IsSymmetric

delete_link-create_link_example :
    (n : Net) × (create_link "a" "out" "b" "in" two two_world >>= delete_link "a" "out" "b" "in" two
      ≡ ok (with_net two_world n))
    × ((p j : GateId)
        → (peers j (n.out_peers p) ≡ peers j (two_world.net.out_peers p))
          × (peers p (n.in_peers j) ≡ peers p (two_world.net.in_peers j)))
    × IsSymmetric n
unfolding peers
delete_link-create_link_example =
    delete_link-create_link "a" "out" "b" "in" two two_world from to from_found to_found
      empty-IsSymmetric refl

abbrev linked_world : World
linked_world = with_net two_world (connect from to two_world.net)
