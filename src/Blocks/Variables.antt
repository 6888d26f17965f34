-- ===== src/Blocks/Variables.antt =====
-- core/block/Block.cpp and BlockVariable.hpp: variables by name.
use Prim.Native.String.{String}
use text.Mathlib.Text.{◌==◌ as str_eq}
use text.Mathlib.TextEquality.{eq_iff}
use dstreamon.Base.{
  ◌≡◌, refl, ◌∙◌, inl, inr, true, false, [], ◌∷◌, Option, some, ok, err, arith, if◌then◌else◌,
  Option-cases, Bool-cases,
}
use dstreamon.Assoc.{Assoc, find, put, find-put}
use dstreamon.Blocks.{
  Block, assertion_failed, Variable, is_readable, read, write, make_rd_var, register_variable,
  write_variable, list_entries, list_variables,
}

list_entries_stops :
    (k : String) (m : Assoc Variable) {v : Variable}
    → find k m ≡ some v
    → v.writable ≡ false
    → list_entries m ≡ err assertion_failed
unfolding find list_entries is_readable
list_entries_stops k [] e fixed = absurd (ground arith)
list_entries_stops k ((j, w) ∷ m) {v} e fixed = elim (Bool-cases w.writable) [
  | inr stuck ↦ rw stuck
  | inl free ↦ rw free (elim (Bool-cases (str_eq j k)) [
    | inl hit ↦ absurd (ground arith)
    | inr miss ↦ rw (list_entries_stops k m (rw miss at e) fixed)
  ])
]

-- `list_variables` runs into the assertion of `is_readable` as soon as one variable of the block is
-- not writable, wherever in the map it stands and whatever was registered after it.
pub list_variables_stops :
    (name : String) (v : Variable) (b : Block)
    → find name b.variables ≡ some v
    → v.writable ≡ false
    → list_variables b ≡ err assertion_failed
unfolding list_variables
list_variables_stops name v b there fixed = rw (list_entries_stops name b.variables there fixed)

-- So no block with a variable that `make_rd_var` made can be listed.
list_variables-register_variable :
    (name value : String) (b b' : Block)
    → register_variable name (make_rd_var value) b ≡ ok b'
    → list_variables b' ≡ err assertion_failed
unfolding register_variable make_rd_var
list_variables-register_variable name value b b' e = elim (Option-cases (find name b.variables)) [
  | inr (v, taken) ↦ absurd (ground arith)
  | inl new ↦
      let added : b' ≡ record b { variables = put name (make_rd_var value) b.variables } =
        ground arith in
      let there : find name (put name (make_rd_var value) b.variables) ≡ some (make_rd_var value) =
        find-put name name (make_rd_var value) b.variables ∙ rw ((eq_iff name name).1 refl) in
      rw added (
        list_variables_stops name (make_rd_var value)
          (record b { variables = put name (make_rd_var value) b.variables }) there refl)
]

-- A write that succeeds gives the variable what was parsed and marks it dirty, and leaves every other
-- variable as it was.
pub find-write_variable :
    (parse : String → Option String) (name text k : String) (b b' : Block)
    → write_variable parse name text b ≡ ok b'
    → (v : Variable) × (value : String) × (find name b.variables ≡ some v)
      × (v.writable ≡ true)
      × (parse text ≡ some value)
      × (find k b'.variables ≡ (
          if str_eq name k
          then some (record v { value = value; dirty = true })
          else find k b.variables))
unfolding write_variable write
find-write_variable parse name text k b b' e = elim (Option-cases (find name b.variables)) [
  | inl missing ↦ absurd (ground arith)
  | inr (v, there) ↦ elim (Option-cases (parse text)) [
    | inl bad ↦ absurd (ground arith)
    | inr (value, read) ↦
        let v' = record v { value = value; dirty = true } in
        let written : b' ≡ record b { variables = put name v' b.variables } = ground arith in
        (v, value, there, ground arith, read, rw written (find-put name k v' b.variables))
  ]
]
