-- ===== src/Composition.antt =====
-- core/composition/Composition.hpp and Composition.cpp: blocks by name, and the links between them.
pub mod Linking
pub mod LinkLoop
pub mod BlockLoop
pub mod Install
pub mod Tests
use Prim.Native.String.{String}
use text.Mathlib.Text.{◌==◌ as str_eq}
use dstreamon.Base.{
  ℕ, ◌+◌, Bool, true, false, not, ◌&&◌, ◌||◌, List, [], ◌∷◌, Option, none, some, Result, ok, err,
  or_throw, guard, ◌>>=◌, ◌>>◌, ◌==◌, if◌then◌else◌,
}
use dstreamon.Assoc.{Assoc, find, put, erase}
use dstreamon.Scheduler.Dumb.{dumb_scheduler}
use dstreamon.PoolManager.{Pools, ManagerFault, is_empty, add_to_pool}
use dstreamon.Blocks.{Block, BlockFault, get_input_gate, get_output_gate}
use dstreamon.Gates.{GateId, Net, GateFault, in_connect, out_connect, in_disconnect, out_disconnect}

pub data Fault : Type 0 where
  no_block_in_link unknown_type no_such_block : Fault
  no_name bad_sched_type no_pool_id : Fault
  no_src_block no_src_gate no_dst_block no_dst_gate : Fault
  in_block : BlockFault → Fault
  in_gate : GateFault → Fault
  in_manager : ManagerFault → Fault

abbrev pub of_block : {A : Type 0} → Result BlockFault A → Result Fault A
of_block (ok a) = ok a
of_block (err e) = err (in_block e)

abbrev pub of_gate : {A : Type 0} → Result GateFault A → Result Fault A
of_gate (ok a) = ok a
of_gate (err e) = err (in_gate e)

-- The process: the heap of blocks, the next free address, the gates, and the thread pools. `net`
-- keeps `m_isactive` of the blocks for the gates.
pub record World : Type 0 where
  pub blocks : ℕ → Block
  pub next_address : ℕ
  pub net : Net
  pub pools : Pools dumb_scheduler

-- `m_composition_id` and `m_map`; a shared pointer to a block is its address.
pub record Composition : Type 0 where
  pub composition_id : String
  pub map : Assoc ℕ

abbrev pub allocate : Block → World → World
allocate b w = record w {
  blocks = λ a. if a == w.next_address then b else w.blocks a;
  next_address = w.next_address + 1;
  net = record (w.net) { active = λ a. if a == w.next_address then b.active else w.net.active a };
}

pub find_output_gate : String → String → Composition → World → Result Fault GateId
find_output_gate block gate c w = do
  a ← or_throw (find block c.map) no_block_in_link
  i ← of_block (get_output_gate gate (w.blocks a))
  ok (record { block = a; index = i })

pub find_input_gate : String → String → Composition → World → Result Fault GateId
find_input_gate block gate c w = do
  a ← or_throw (find block c.map) no_block_in_link
  i ← of_block (get_input_gate gate (w.blocks a))
  ok (record { block = a; index = i })

pub create_link : String → String → String → String → Composition → World → Result Fault World
unfolding find_output_gate find_input_gate
create_link from_block from_gate to_block to_gate c w = do
  from ← find_output_gate from_block from_gate c w
  to ← find_input_gate to_block to_gate c w
  ok (record w { net = out_connect from to (in_connect to from w.net) })

-- What the first of the two calls does before the second throws is not modelled.
pub delete_link : String → String → String → String → Composition → World → Result Fault World
unfolding find_output_gate find_input_gate
delete_link from_block from_gate to_block to_gate c w = do
  from ← find_output_gate from_block from_gate c w
  to ← find_input_gate to_block to_gate c w
  net ← of_gate (in_disconnect to from w.net)
  net' ← of_gate (out_disconnect from to net)
  ok (record w { net = net' })

pub delete_block : String → Composition → Result Fault Composition
delete_block name c = elim (find name c.map) [
  | none ↦ err no_such_block
  | some a ↦ ok (record c { map = erase name c.map })
]

pub get_block : String → Composition → Result Fault ℕ
get_block name c = or_throw (find name c.map) no_such_block

-- The elements `block` and `connection` of a configuration; an attribute that is missing is empty.
pub record BlockNode (Params : Type 0) : Type 0 where
  pub id : String
  pub block_type : String
  pub threadpool : String
  pub sched_type : String
  pub params : Params

pub record LinkNode : Type 0 where
  pub src_block : String
  pub src_gate : String
  pub dst_block : String
  pub dst_gate : String

-- The body of the second loop.
pub install_link : LinkNode → Composition → World → Result Fault World
unfolding create_link
install_link l c w = do
  guard (not (is_empty l.src_block)) no_src_block
  guard (not (is_empty l.src_gate)) no_src_gate
  guard (not (is_empty l.dst_block)) no_dst_block
  guard (not (is_empty l.dst_gate)) no_dst_gate
  create_link l.src_block l.src_gate l.dst_block l.dst_gate c w

pub install_links : List LinkNode → Composition → World → Result Fault (Unit {0}) × World
unfolding install_link
install_links [] c w = (ok tt, w)
install_links (l ∷ ls) c w = elim (install_link l c w) [
  | err e ↦ (err e, w)
  | ok w' ↦ install_links ls c w'
]

-- The block factory is third-party code, and `configure` a virtual method of each block: both are
-- parameters.
module _ {Params : Type 0} (instantiate : String → String → Bool → Option Block)
    (configure : Params → Block → Result BlockFault Block) where
  pub create_block_from_parsed :
      String → String → Bool → Params → Composition → World → Result Fault (Composition × World)
  create_block_from_parsed type name active params c w = do
    b ← or_throw (instantiate type name active) unknown_type
    b' ← of_block (configure params b)
    ok (record c { map = put name w.next_address c.map }, allocate b' w)

  -- The body of the first loop of `install`: what it throws, beside the state that it leaves.
  pub install_block :
      BlockNode Params → Composition → World → Result Fault (Unit {0}) × Composition × World
  unfolding create_block_from_parsed
  install_block n c w =
      let active = str_eq n.sched_type "active" in
      if is_empty n.id || is_empty n.block_type
      then (err no_name, c, w)
      else if not (is_empty n.sched_type) && not active
      then (err bad_sched_type, c, w)
      else elim (create_block_from_parsed n.block_type n.id active n.params c w) [
        | err e ↦ (err e, c, w)
        | ok (c', w') ↦
            if not active
            then (ok tt, c', w')
            else if is_empty n.threadpool
            then (err no_pool_id, c', w')
            else elim (add_to_pool dumb_scheduler n.threadpool w.next_address w'.pools) [
              | err e ↦ (err (in_manager e), c', w')
              | ok pools ↦ (ok tt, c', record w' { pools = pools })
            ]
      ]

  pub install_blocks :
      List (BlockNode Params) → Composition → World → Result Fault (Unit {0}) × Composition × World
  unfolding install_block
  install_blocks [] c w = (ok tt, c, w)
  install_blocks (n ∷ ns) c w =
      let (r, c', w') = install_block n c w in
      elim r [ err e ↦ (err e, c', w') | ok _ ↦ install_blocks ns c' w' ]

  pub install :
      List (BlockNode Params)
      → List LinkNode
      → Composition
      → World
      → Result Fault (Unit {0}) × Composition × World
  unfolding install_blocks install_links
  install blocks links c w =
      let (r, c', w') = install_blocks blocks c w in
      elim r [
        | err e ↦ (err e, c', w')
        | ok _ ↦ let (r', w'') = install_links links c' w' in (r', c', w'')
      ]
