-- ===== src/Blocks/Registration.antt =====
-- core/block/Block.cpp: gates by name.
use Prim.Native.String.{String}
use text.Mathlib.Text.{◌==◌ as str_eq}
use dstreamon.Base.{
  ℕ, ◌+◌, ◌<◌, ◌≡◌, refl, ap, inl, inr, Bool, none, some, ok, arith, if◌then◌else◌, Option-cases,
}
use dstreamon.Assoc.{Assoc, find, insert, find-insert, insert_old}
use dstreamon.Blocks.{Block, new_block, register_input_gate, register_output_gate, get_input_gate}

-- The ids of the gates are the places of the gates in their vectors.
pub record IsRegistered (b : Block) : Type 0 where
  pub in_count : b.last_in_id ≡ b.ingates
  pub out_count : b.last_out_id ≡ b.outgates
  pub in_bounds : (k : String) (i : ℕ) → find k b.input_ids ≡ some i → i < b.ingates
  pub out_bounds : (k : String) (i : ℕ) → find k b.output_ids ≡ some i → i < b.outgates

pub new_block-IsRegistered : (name : String) (active : Bool) → IsRegistered (new_block name active)
unfolding new_block find
new_block-IsRegistered name active = record {
  in_count = refl;
  out_count = refl;
  in_bounds = λ k i e. absurd (ground arith);
  out_bounds = λ k i e. absurd (ground arith);
}

insert_bounds :
    (name : String) (v n : ℕ) (m : Assoc ℕ)
    → v ≡ n
    → ((k : String) (i : ℕ) → find k m ≡ some i → i < n)
    → (k : String) (i : ℕ) → find k (insert name v m) ≡ some i
    → i < n + 1
insert_bounds name v n m same_id bounds k i e = elim (Option-cases (find name m)) [
  | inl new ↦ ground (arith, find-insert name k v m new, bounds k i)
  | inr (old, there) ↦ ground (arith, insert_old name v old m there, bounds k i)
]

-- Registering a gate of either kind keeps the ids of a block the places of its gates: the next id is
-- the number of gates, and every name leads to a gate.
pub register-IsRegistered :
    (name : String) (b : Block)
    → IsRegistered b
    → IsRegistered (register_input_gate name b).1 × IsRegistered (register_output_gate name b).1
unfolding register_input_gate register_output_gate
register-IsRegistered name b r = (
  record {
    in_count = ap (λ n. n + 1) r.in_count;
    out_count = r.out_count;
    in_bounds = insert_bounds name b.last_in_id b.ingates b.input_ids r.in_count r.in_bounds;
    out_bounds = r.out_bounds;
  },
  record {
    in_count = r.in_count;
    out_count = ap (λ n. n + 1) r.out_count;
    in_bounds = r.in_bounds;
    out_bounds = insert_bounds name b.last_out_id b.outgates b.output_ids r.out_count r.out_bounds;
  },
)

-- A name that is registered again keeps its first gate, and the new gate has no name. A new name
-- leads to the new gate, and every other name leads where it led.
pub get-register_input_gate :
    (name k : String) (b : Block)
    → get_input_gate k (register_input_gate name b).1 ≡ (elim (find name b.input_ids) [
      | some old ↦ get_input_gate k b
      | none ↦ if str_eq name k then ok (register_input_gate name b).0 else get_input_gate k b
    ])
unfolding get_input_gate register_input_gate
get-register_input_gate name k b = elim (Option-cases (find name b.input_ids)) [
  | inl new ↦ rw (new, find-insert name k b.last_in_id b.input_ids new) (ground arith)
  | inr (old, there) ↦ rw (there, insert_old name b.last_in_id old b.input_ids there)
]
