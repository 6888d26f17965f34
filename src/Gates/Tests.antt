-- ===== src/Gates/Tests.antt =====
-- core/block: two blocks with a gate each.
use dstreamon.Base.{ℕ, ◌≡◌, refl, [], ◌∷◌, ◌++◌, ok, err, arith, if◌then◌else◌, ◌==◌, length}
use dstreamon.DbQueue
use dstreamon.DbQueue.Refine.{Holds, init-Holds}
use dstreamon.Gates.{
  GateId, gate_eq, Net, not_connected, slots, deliver, out_disconnect_all, out_connect, in_connect,
}
use dstreamon.Gates.Peers.{peers}
use dstreamon.Gates.Links.{IsSymmetric, connect, connect-IsSymmetric}
use dstreamon.Gates.Detach.{out_disconnect_all_twice, out_disconnect_all_once}
use dstreamon.Gates.Delivery.{push_times, passive_calls, deliver_lem, deliver_queued}

abbrev from : GateId
from = record { block = 0; index = 0 }

abbrev to : GateId
to = record { block = 1; index = 0 }

-- Block 1 alone is active.
abbrev unlinked : Net
unlinked = record {
  in_peers = λ g. [];
  out_peers = λ g. [];
  in_queue = λ g. DbQueue.init 0 slots;
  active = λ b. b == 1;
  calls = [];
}

abbrev once : Net
once = connect from to unlinked

abbrev twice : Net
twice = connect from to once

unlinked-IsSymmetric : IsSymmetric unlinked
unfolding peers
unlinked-IsSymmetric o i = refl

out_disconnect_all_once_example :
    (n' : Net) × (out_disconnect_all from once ≡ (ok tt, n'))
    × ((p j : GateId)
        → peers j (n'.out_peers p) ≡ (if gate_eq p from then 0 else peers j (once.out_peers p)))
    × IsSymmetric n'
unfolding peers out_connect in_connect
out_disconnect_all_once_example =
    out_disconnect_all_once from once (connect-IsSymmetric from to unlinked unlinked-IsSymmetric)
      (λ j. ground arith)

out_disconnect_all_twice_example : (out_disconnect_all from twice).0 ≡ err not_connected
unfolding peers out_connect in_connect
out_disconnect_all_twice_example = out_disconnect_all_twice from to twice (omega arith)

deliver_lem_example :
    (n' : Net) × (deliver from 7 twice ≡ ok n')
    × ((g : GateId)
        → n'.in_queue g ≡ (
            if twice.active g.block
            then push_times (peers g (twice.out_peers from)) (twice.in_queue g) 7
            else twice.in_queue g))
    × (n'.calls ≡ twice.calls ++ passive_calls twice.active (twice.out_peers from) 7)
unfolding out_connect in_connect
deliver_lem_example = deliver_lem from 7 twice (λ e. absurd (ground arith))

deliver_queued_example :
    (n' : Net) × (deliver from 7 once ≡ ok n')
    × Holds slots (n'.in_queue to) [] (if length {A = ℕ} [] == slots then [] else [] ++ 7 ∷ [])
unfolding out_connect in_connect
deliver_queued_example =
    deliver_queued from to 7 once [] [] refl refl (init-Holds 0 slots (omega arith) (omega arith))
