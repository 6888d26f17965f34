-- ===== src/Compositions/Names.antt =====
-- core/composition/CompositionManager.hpp and daemon/backend_glue.cpp: what the calls do to the map
-- of compositions and to the links.
use Prim.Native.String.{String}
use text.Mathlib.Text.{◌==◌ as str_eq}
use text.Mathlib.TextEquality.{eq_iff}
use dstreamon.Base.{
  ◌+◌, ◌≡◌, refl, ◌∙◌, ◌&&◌, Bool, [], Option, none, some, Result, ok, arith, if◌then◌else◌, inl,
  inr, Option-cases,
}
use dstreamon.Assoc.{find, put, erase, find-put, find-erase}
use dstreamon.Blocks.{Block, BlockFault}
use dstreamon.Gates.{GateId, Net, gate_eq, out_connect, in_connect}
use dstreamon.Gates.Peers.{peers}
use dstreamon.Gates.Links.{IsSymmetric, connect, peers-connect, connect-IsSymmetric}
use dstreamon.Composition.{Composition, World, install}
use dstreamon.Composition.Linking.{with_net}
use dstreamon.Composition.Install.{install-IsSymmetric}
use dstreamon.Compositions.{
  Manager, add_composition, delete_composition, create_connection, output_gate_of, input_gate_of,
  InstallNode, install_new,
}

-- A composition of a new name is added; deleting it again leaves every name with what it had.
pub delete_composition-add_composition :
    (name k : String) (m : Manager)
    → find name m ≡ none
    → (m' : Manager) × (m'' : Manager) × (add_composition name m ≡ ok m')
      × (find name m' ≡ some (record { composition_id = name; map = [] }))
      × (delete_composition name m' ≡ ok m'')
      × (find k m'' ≡ find k m)
unfolding add_composition delete_composition
delete_composition-add_composition name k m new =
    let c : Composition = record { composition_id = name; map = [] } in
    let m' = put name c m in
    let there : find name m' ≡ some c = find-put name name c m ∙ rw ((eq_iff name name).1 refl) in
    (
      m',
      erase name m',
      rw (new, add_composition),
      there,
      rw (there, delete_composition),
      find-erase name k m' ∙ ground (arith, eq_iff name k, find-put name k c m, new),
    )

-- Between gates that are found, of any two compositions, a connection is made: it is recorded once
-- more at both ends, no other link changes, and the gates stay symmetric.
pub create_connection_lem :
    (fc fb fg tc tb tg : String) (m : Manager) (w : World) (o i : GateId)
    → output_gate_of fc fb fg m w ≡ ok o
    → input_gate_of tc tb tg m w ≡ ok i
    → IsSymmetric w.net
    → (n : Net) × (create_connection fc fb fg tc tb tg m w ≡ ok (with_net w n))
      × ((p j : GateId)
          → peers j (n.out_peers p)
            ≡ peers j (w.net.out_peers p) + (if gate_eq p o && gate_eq j i then 1 else 0))
      × IsSymmetric n
unfolding create_connection out_connect in_connect
create_connection_lem fc fb fg tc tb tg m w o i e f s = (
  connect o i w.net,
  rw (e, create_connection) (rw (f, create_connection)),
  λ p j. (peers-connect o i w.net p j).0,
  connect-IsSymmetric o i w.net s,
)

module _ {Params : Type 0} (instantiate : String → String → Bool → Option Block)
    (configure : Params → Block → Result BlockFault Block) where
  -- A composition of a new name from a file is in the map afterwards even if its installation
  -- throws; every other name keeps what it had, and the gates stay symmetric. A name that is taken
  -- is refused, and nothing changes.
  pub install_new_lem :
      (id app_id k : String) (n : InstallNode Params) (m : Manager) (w : World)
      → IsSymmetric w.net
      → let (r, m', w') = install_new instantiate configure id app_id n m w in
        IsSymmetric w'.net
        × (find k m' ≡ (elim (find id m) [
          | some old ↦ find k m
          | none ↦
              if str_eq id k
              then some
                  (install instantiate configure n.blocks n.connections
                    (record { composition_id = app_id; map = [] })
                    w).1
              else find k m
        ]))
  unfolding install_new
  install_new_lem id app_id k n m w s = elim (Option-cases (find id m)) [
    | inr (old, taken) ↦ rw (taken, install_new) (s, refl)
    | inl new ↦
        rw (new, install_new)
          ((
            install-IsSymmetric instantiate configure n.blocks n.connections
                (record { composition_id = app_id; map = [] }) w s,
            find-put id k
                (install instantiate configure n.blocks n.connections
                  (record { composition_id = app_id; map = [] }) w).1
                m,
          ))
  ]
