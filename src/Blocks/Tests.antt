-- ===== src/Blocks/Tests.antt =====
-- core/block/Block.cpp: a block with two gates and a variable.

use dstreamon.Base.{◌≡◌, refl, true, [], ◌∷◌, ◌++◌, err, arith, map}
use dstreamon.Assoc.{find}
use dstreamon.DbQueue
use dstreamon.DbQueue.Refine.{init-Holds, push-Holds}
use dstreamon.Gates.{GateId, Net, slots}
use dstreamon.Blocks.{
  Block, assertion_failed, make_rd_var, make_wr_var, new_block, list_variables, timer, async,
  drain_gate, drain_gates, run,
}
use dstreamon.Blocks.Variables.{list_variables_stops}
use dstreamon.Blocks.RunLoop.{Drains, drain_gate-Drains, run_order}

abbrev fresh : Block
fresh = new_block "counter" true

-- A variable that can only be read, between two that can be written.
abbrev readable : Block
readable = record fresh {
  variables =
      ("limit", make_wr_var "1") ∷ (("rate", make_rd_var "7") ∷ (("size", make_wr_var "2") ∷ []));
}

list_variables_stops_example : list_variables readable ≡ err assertion_failed
unfolding find make_rd_var
list_variables_stops_example = list_variables_stops "rate" (make_rd_var "7") readable refl refl

abbrev writable : Block
writable = record fresh { variables = ("rate", make_wr_var "7") ∷ [] }

abbrev written : Block
unfolding make_wr_var
written = record fresh {
  variables = ("rate", record (make_wr_var "7") { value = "9"; dirty = true }) ∷ [];
}

abbrev gate : GateId
gate = record { block = 0; index = 0 }

abbrev net : Net
net = record {
  in_peers = λ g. [];
  out_peers = λ g. [];
  in_queue = λ g. (DbQueue.push 0 slots (DbQueue.init 0 slots) 7).1;
  active = λ b. true;
  calls = [];
}

drain_gate-Drains_example : Drains 10 gate net [] (7 ∷ []) (drain_gate 10 gate net)
drain_gate-Drains_example =
    drain_gate-Drains 10 gate net [] (7 ∷ [])
      (push-Holds 0 slots (omega arith) (omega arith) (DbQueue.init 0 slots) [] [] 7
        (init-Holds 0 slots (omega arith) (omega arith))).1
      ((λ e. absurd (omega (arith, e))), tt)

run_order_example :
    let b : Block = record fresh { timer_queue = 4 ∷ (5 ∷ []) } in
    let (messages, net') = drain_gates 0 b.ingates 0 net in
    run 0 b net
    ≡ (map timer b.timer_queue ++ (messages ++ async ∷ []), record b { timer_queue = [] }, net')
run_order_example = run_order 0 (record fresh { timer_queue = 4 ∷ (5 ∷ []) }) net
