-- ===== src/Compositions.antt =====
-- core/composition/CompositionManager.hpp and daemon/backend_glue.cpp: the compositions of the
-- process, by name, and the entry points of the Python binding. The XML of a file or an argument is
-- given as its elements.
pub mod Names
use Prim.Native.String.{String}
use dstreamon.Base.{
  if◌then◌else◌, ◌==◌, ℕ, Bool, true, false, List, [], ◌∷◌, Option, none, some, Result, ok, err,
  or_throw, ◌>>=◌, ◌>>◌,
}
use dstreamon.Assoc.{Assoc, find, put, erase}
use dstreamon.Gates.{GateId, Net, in_connect, out_connect, in_disconnect, out_disconnect}
use dstreamon.Blocks.{
  Block, BlockFault, get_input_gate, get_output_gate, read_variable, write_variable, list_variables,
  set_active,
}
use dstreamon.Scheduler.Dumb.{dumb_scheduler}
use dstreamon.PoolManager.{
  PoolNode, ManagerFault, of_pool, create_pool, add_to_pool, remove_from_pool, delete_pool, start,
  stop_all,
}
use dstreamon.Composition.{
  Composition, World, BlockNode, LinkNode, of_block, of_gate, get_block, delete_block,
  create_block_from_parsed, install,
}
use dstreamon.Composition

pub data Fault : Type 0 where
  no_composition composition_exists bad_file no_composition_node no_install_node no_params_node
        no_pool_node :
      Fault
  in_pools : ManagerFault → Fault
  inside : Composition.Fault → Fault

abbrev pub of_inside : {A : Type 0} → Result Composition.Fault A → Result Fault A
of_inside (ok a) = ok a
of_inside (err e) = err (inside e)

abbrev pub of_manager : {A : Type 0} → Result ManagerFault A → Result Fault A
of_manager (ok a) = ok a
of_manager (err e) = err (in_pools e)

-- `m_config_map`
abbrev pub Manager : Type 0
Manager = Assoc Composition

unfoldable pub delete_composition : String → Manager → Result Fault Manager
delete_composition name m = elim (find name m) [
  | none ↦ err no_composition
  | some c ↦ ok (erase name m)
]

unfoldable pub add_composition : String → Manager → Result Fault Manager
add_composition name m = elim (find name m) [
  | some c ↦ err composition_exists
  | none ↦ ok (put name (record { composition_id = name; map = [] }) m)
]

unfoldable pub get_composition : String → Manager → Result Fault Composition
get_composition name m = or_throw (find name m) no_composition

-- A block by the names of its composition and itself.
unfoldable pub block_of : String → String → Manager → Result Fault ℕ
unfolding get_composition
block_of composition block m = do c ← get_composition composition m; of_inside (get_block block c)

unfoldable pub output_gate_of : String → String → String → Manager → World → Result Fault GateId
unfolding block_of
output_gate_of composition block gate m w = do
  a ← block_of composition block m
  i ← of_inside (of_block (get_output_gate gate (w.blocks a)))
  ok (record { block = a; index = i })

unfoldable pub input_gate_of : String → String → String → Manager → World → Result Fault GateId
unfolding block_of
input_gate_of composition block gate m w = do
  a ← block_of composition block m
  i ← of_inside (of_block (get_input_gate gate (w.blocks a)))
  ok (record { block = a; index = i })

-- `create_connection` and `delete_connection`, between two compositions.
unfoldable pub create_connection :
    String → String → String → String → String → String → Manager → World → Result Fault World
unfolding output_gate_of input_gate_of
create_connection fc fb fg tc tb tg m w = do
  src ← output_gate_of fc fb fg m w
  dst ← input_gate_of tc tb tg m w
  ok (record w { net = in_connect dst src (out_connect src dst w.net) })

-- What the first disconnection does before the second throws is not modelled.
unfoldable pub delete_connection :
    String → String → String → String → String → String → Manager → World → Result Fault World
unfolding output_gate_of input_gate_of
delete_connection fc fb fg tc tb tg m w = do
  src ← output_gate_of fc fb fg m w
  dst ← input_gate_of tc tb tg m w
  net ← of_inside (of_gate (out_disconnect src dst w.net))
  net' ← of_inside (of_gate (in_disconnect dst src net))
  ok (record w { net = net' })

unfoldable pub add_block_to_thread_pool :
    String → String → String → Manager → World → Result Fault World
unfolding block_of
add_block_to_thread_pool composition block pool m w = do
  a ← block_of composition block m
  pools ← of_manager (add_to_pool dumb_scheduler pool a w.pools)
  ok (record w { pools = pools })

unfoldable pub remove_block_from_thread_pool :
    String → String → String → Manager → World → Result Fault World
unfolding block_of
remove_block_from_thread_pool composition block pool m w = do
  a ← block_of composition block m
  pools ← of_manager (remove_from_pool dumb_scheduler pool a w.pools)
  ok (record w { pools = pools })

unfoldable pub read_block_variable :
    String → String → String → Manager → World → Result Fault String
unfolding block_of
read_block_variable composition block variable m w = do
  a ← block_of composition block m
  of_inside (of_block (read_variable variable (w.blocks a)))

unfoldable pub list_block_variables : String → String → Manager → World → Result Fault (List ℕ)
unfolding block_of
list_block_variables composition block m w = do
  a ← block_of composition block m
  of_inside (of_block (list_variables (w.blocks a)))

-- The gates see whether the block is active.
abbrev pub with_active : ℕ → Bool → World → World
with_active a active w = record w {
  net = record (w.net) { active = λ k. if k == a then active else w.net.active k };
}

-- A change to the block at an address.
abbrev pub put_block : ℕ → Block → World → World
put_block a b w = record w { blocks = λ k. if k == a then b else w.blocks k }

unfoldable pub write_block_variable :
    (String → Option String)
    → String
    → String
    → String
    → String
    → Manager
    → World
    → Result Fault World
unfolding block_of
write_block_variable parse composition block variable value m w = do
  a ← block_of composition block m
  b ← of_inside (of_block (write_variable parse variable value (w.blocks a)))
  ok (put_block a b w)

unfoldable pub delete_block_of : String → String → Manager → Result Fault Manager
unfolding get_composition
delete_block_of composition block m = do
  c ← get_composition composition m
  c' ← of_inside (delete_block block c)
  ok (put composition c' m)

-- `update_block`: `none` is a text that cannot be parsed, and then one without `params`. `update` is
-- the virtual `_update_config` of the block, which returns whether it took the parameters.
unfoldable pub update_block :
    {Params : Type 0}
    → (Params → Block → Bool × Block)
    → String
    → String
    → Bool
    → Option (Option Params)
    → Manager
    → World
    → Result Fault (Bool × World)
unfolding block_of
update_block update composition block active config m w = do
  node ← or_throw config bad_file
  params ← or_throw node no_params_node
  a ← block_of composition block m
  b ← of_inside (of_block (set_active active (w.blocks a)))
  let (taken, b') = update params b in ok (taken, with_active a active (put_block a b' w))

unfoldable pub add_thread_pool : Option (Option PoolNode) → World → Result Fault World
add_thread_pool config w = do
  node ← or_throw config bad_file
  n ← or_throw node no_pool_node
  pools ← of_manager (create_pool dumb_scheduler n w.pools)
  ok (record w { pools = pools })

unfoldable pub remove_thread_pool : String → World → World
remove_thread_pool name w = record w { pools = delete_pool dumb_scheduler name w.pools }

-- `start_schedulers` and `stop_schedulers`, with the schedulers that the threads have left when they are
-- joined.
unfoldable pub start_schedulers : World → Result Fault (Unit {0}) × World
start_schedulers w =
    let (r, pools) = start dumb_scheduler w.pools in
    (of_manager (of_pool r), record w { pools = pools })

unfoldable pub stop_schedulers :
    (String → dumb_scheduler.State) → World → Result Fault (Unit {0}) × World
stop_schedulers left w =
    let (r, pools) = stop_all dumb_scheduler left w.pools in
    (of_manager (of_pool r), record w { pools = pools })

-- A configuration file: none where it cannot be parsed; then the `composition` element, if any, and
-- its `install` element, if any.
pub record InstallNode (Params : Type 0) : Type 0 where
  pub threadpools : List PoolNode
  pub blocks : List (BlockNode Params)
  pub connections : List LinkNode

pub record ConfigNode (Params : Type 0) : Type 0 where
  pub id : String
  pub app_id : String
  pub install_node : Option (InstallNode Params)

-- The loop over the thread pools: an exception leaves the pools before it created.
unfoldable pub create_pools : List PoolNode → World → Result Fault (Unit {0}) × World
create_pools [] w = (ok tt, w)
create_pools (n ∷ ns) w = elim (create_pool dumb_scheduler n w.pools) [
  | err e ↦ (err (in_pools e), w)
  | ok pools ↦ create_pools ns (record w { pools = pools })
]

module _ {Params : Type 0} (instantiate : String → String → Bool → Option Block)
    (configure : Params → Block → Result BlockFault Block) where
  -- The new composition is in the map before it is installed, and stays there if that throws.
  unfoldable pub install_new :
      String
      → String
      → InstallNode Params
      → Manager
      → World
      → Result Fault (Unit {0}) × Manager × World
  install_new id app_id n m w = elim (find id m) [
    | some c ↦ (err composition_exists, m, w)
    | none ↦
        let fresh : Composition = record { composition_id = app_id; map = [] } in
        let (r, c, w') = install instantiate configure n.blocks n.connections fresh w in
        (of_inside r, put id c m, w')
  ]

  unfoldable pub add_config_from_file :
      Option (Option (ConfigNode Params))
      → Manager
      → World
      → Result Fault (Unit {0}) × Manager × World
  unfolding create_pools install_new
  add_config_from_file none m w = (err bad_file, m, w)
  add_config_from_file (some none) m w = (err no_composition_node, m, w)
  add_config_from_file (some (some n)) m w = elim n.install_node [
    | none ↦ (err no_install_node, m, w)
    | some i ↦
        let (r, w') = create_pools i.threadpools w in
        elim r [ err e ↦ (err e, m, w') | ok _ ↦ install_new n.id n.app_id i m w' ]
  ]

  -- `create_block`: `none` is a text that cannot be parsed, and then one without `params`.
  unfoldable pub create_block :
      String
      → String
      → String
      → Bool
      → Option (Option Params)
      → Manager
      → World
      → Result Fault (Manager × World)
  unfolding get_composition
  create_block composition name type active config m w = do
    c ← get_composition composition m
    node ← or_throw config bad_file
    params ← or_throw node no_params_node
    (c', w') ←
        of_inside (create_block_from_parsed instantiate configure type name active params c w)
    ok (put composition c' m, w')
