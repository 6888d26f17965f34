-- ===== src/Blocks.antt =====
-- core/block/Block.hpp, Block.cpp and BlockVariable.hpp: a block, without the virtual methods of its
-- class. Locks are not modelled: a call is atomic.
pub mod Registration
pub mod Variables
pub mod RunLoop
pub mod Tests
use Prim.Native.Char.{code}
use Prim.Native.String.{String}
use dstreamon.Base.{
  ℕ, zero, suc, ◌+◌, ◌≤◌, Bool, true, false, ◌||◌, List, [], ◌∷◌, ◌++◌, Option, none, some, Result,
  ok, err, or_throw, ◌>>=◌, ◌>>◌, guard, not, ◌&&◌, ltb, leb, ◌==◌, if◌then◌else◌, length,
}
use dstreamon.Assoc.{Assoc, find, put, insert}
use dstreamon.MsgQueue.{MsgQueue}
use dstreamon.MsgQueue
use dstreamon.Gates.{GateId, Net, dequeue}

pub data BlockFault : Type 0 where
  no_gate no_variable variable_exists not_writable not_readable cannot_write : BlockFault
  assertion_failed still_running : BlockFault

-- `BlockVariable` and its `VariableImpl`s: the value is the text that `operator<<` prints for it.
pub record Variable : Type 0 where
  pub writable : Bool
  pub readable : Bool
  pub dirty : Bool
  pub value : String

-- `make_rd_var` and `make_wr_var`, under any locking policy.
pub make_rd_var : String → Variable
make_rd_var v = record { writable = false; readable = true; dirty = false; value = v }

pub make_wr_var : String → Variable
make_wr_var v = record { writable = true; readable = false; dirty = false; value = v }

-- `BlockVariable::is_readable`, with its assertion.
pub is_readable : Variable → Result BlockFault Bool
is_readable v = do guard v.writable assertion_failed; ok v.readable

pub read : Variable → Result BlockFault String
read v = if v.readable then ok v.value else err not_readable

-- `parse` is `operator>>` followed by `operator<<` at the variable's type; `none` where it fails.
pub write : (String → Option String) → String → Variable → Result BlockFault Variable
write parse s v =
    if v.writable
    then (do value ← or_throw (parse s) cannot_write; ok (record v { value = value; dirty = true }))
    else err not_writable

-- `m_ingates` and `m_outgates` by their sizes: the gates stand on the heap of the gates.
pub record Block : Type 0 where
  pub name : String
  pub active : Bool
  pub running : Bool
  pub input_ids : Assoc ℕ
  pub output_ids : Assoc ℕ
  pub ingates : ℕ
  pub outgates : ℕ
  pub last_in_id : ℕ
  pub last_out_id : ℕ
  pub timer_queue : MsgQueue
  pub variables : Assoc Variable

-- The constructor.
unfoldable pub new_block : String → Bool → Block
new_block name active = record {
  name = name;
  active = active;
  running = false;
  input_ids = [];
  output_ids = [];
  ingates = 0;
  outgates = 0;
  last_in_id = 0;
  last_out_id = 0;
  timer_queue = [];
  variables = [];
}

pub set_active : Bool → Block → Result BlockFault Block
set_active a b = if b.running then err still_running else ok (record b { active = a })

-- `insert` keeps the id of a name that is registered twice.
unfoldable pub register_input_gate : String → Block → ℕ × Block
register_input_gate name b = (
  b.last_in_id,
  record b {
    last_in_id = b.last_in_id + 1;
    ingates = b.ingates + 1;
    input_ids = insert name b.last_in_id b.input_ids;
  },
)

unfoldable pub register_output_gate : String → Block → ℕ × Block
register_output_gate name b = (
  b.last_out_id,
  record b {
    last_out_id = b.last_out_id + 1;
    outgates = b.outgates + 1;
    output_ids = insert name b.last_out_id b.output_ids;
  },
)

unfoldable pub get_input_gate : String → Block → Result BlockFault ℕ
get_input_gate name b = or_throw (find name b.input_ids) no_gate

unfoldable pub get_output_gate : String → Block → Result BlockFault ℕ
get_output_gate name b = or_throw (find name b.output_ids) no_gate

pub register_variable : String → Variable → Block → Result BlockFault Block
register_variable name v b = elim (find name b.variables) [
  | some w ↦ err variable_exists
  | none ↦ ok (record b { variables = put name v b.variables })
]

pub read_variable : String → Block → Result BlockFault String
unfolding read
read_variable name b = do v ← or_throw (find name b.variables) no_variable; read v

pub write_variable : (String → Option String) → String → String → Block → Result BlockFault Block
unfolding write
write_variable parse name s b = do
  v ← or_throw (find name b.variables) no_variable
  v' ← write parse s v
  ok (record b { variables = put name v' b.variables })

-- The code points of a text.
abbrev pub codes : String → List ℕ
codes String.[] = []
codes (String.◌∷◌ c s) = code c ∷ codes s

-- The loop of `list_variables`.
pub list_entries : Assoc Variable → Result BlockFault (List ℕ)
unfolding is_readable
list_entries [] = ok []
list_entries ((k, v) ∷ m) = do
  readable ← is_readable v
  rest ← list_entries m
  ok (
      codes k
      ++ ((if readable then codes ",read" else [])
          ++ ((if v.writable then codes ",write" else []) ++ (codes ";" ++ rest))))

-- `std::isspace` of the classic locale.
abbrev is_space : ℕ → Bool
is_space c = c == 32 || (leb 9 c && leb c 13)

-- `ss >> ret`: white space is skipped, and the word behind it read.
pub read_word : List ℕ → List ℕ
read_word [] = []
read_word (c ∷ s) = let rest = read_word s in if is_space c then [] else c ∷ rest

pub skip_space : List ℕ → List ℕ
skip_space [] = []
skip_space (c ∷ s) = let rest = skip_space s in if is_space c then rest else c ∷ s

pub list_variables : Block → Result BlockFault (List ℕ)
unfolding list_entries read_word skip_space
list_variables b = do text ← list_entries b.variables; ok (read_word (skip_space text))

-- What a block's own code is called with.
pub data Event : Type 0 where
  timer : ℕ → Event
  message : ℕ → ℕ → Event
  async : Event

-- `handle_timer`: the queue of an active block, else a call at once.
pub handle_timer : ℕ → Block → List Event × Block
handle_timer t b =
    if b.active
    then ([], record b { timer_queue = MsgQueue.push t b.timer_queue })
    else (timer t ∷ [], b)

-- The first loop of `run`. It ends when the queue is empty: `fuel` is its length and one more.
pub drain_timers : ℕ → MsgQueue → List Event × MsgQueue
drain_timers zero q = ([], q)
drain_timers (suc fuel) q =
    let (t, q') = MsgQueue.pop q in
    elim t [
      | none ↦ ([], q')
      | some t ↦ let (es, q'') = drain_timers fuel q' in (timer t ∷ es, q'')
    ]

-- The inner loop over one gate, with `n` messages left. The null message ends it.
pub drain_gate : ℕ → GateId → Net → List Event × Net
drain_gate zero g net = ([], net)
drain_gate (suc n) g net =
    let (m, net') = dequeue g net in
    elim m [
      | none ↦ ([], net')
      | some m ↦
          let later = drain_gate n g net' in
          let more : List Event × Net = (message m g.index ∷ later.0, later.1) in
          if m == 0 then ([], net') else more
    ]

-- `MAX_MSG_DEQUEUE`
abbrev pub max_msg_dequeue : ℕ
max_msg_dequeue = 10

-- The loop over the gates, with `n` left from gate `i` on.
pub drain_gates : ℕ → ℕ → ℕ → Net → List Event × Net
unfolding drain_gate
drain_gates block zero i net = ([], net)
drain_gates block (suc n) i net =
    let (es, net') = drain_gate max_msg_dequeue (record { block = block; index = i }) net in
    let (es', net'') = drain_gates block n (i + 1) net' in (es ++ es', net'')

-- `Block::run` of the block at an address. What its code does to the gates is not modelled.
pub run : ℕ → Block → Net → List Event × Block × Net
unfolding drain_timers drain_gates
run address b net =
    let (timers, q) = drain_timers (length b.timer_queue + 1) b.timer_queue in
    let (messages, net') = drain_gates address b.ingates 0 net in
    (timers ++ (messages ++ async ∷ []), record b { timer_queue = q }, net')
