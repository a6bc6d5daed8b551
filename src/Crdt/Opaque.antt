-- ===== src/Crdt/Opaque.antt =====
-- crates/kyoso_crdt/src/opaque.rs: the state that the server keeps of every field, with values as
-- bytes. Its mutation and delta types have no values.
pub mod Paths
pub mod Install
pub mod Mirror
pub mod Leaves
pub mod SetLeaf
pub mod Hydrate
use kyosync.Prelude.{Option, none, some, List, [], ◌∷◌, Bool, true, false, ◌&&◌, not, if◌then◌else◌}
use mathlib.Core.Option
use kyosync.Prelude.Order.{Ord, same, list_ord, nat_ord}
use kyosync.Table.{Table, get, insert, or_insert, retain}
use kyosync.Table.Merge.{merge}
use kyosync.Crdt.Context.{CausalContext}
use kyosync.Crdt.Delta.{
  Applied, ok, err, Bytes, FieldPath, PathSegment, WireDelta, field, key, push, segment_ord,
  text_of, lww_replace, or_set_add, or_set_remove, pn_counter_delta, sequence_insert,
  sequence_delete, map_put, map_remove, tree_move, type_mismatch,
}
use kyosync.Crdt.Lww.{LwwRegister}
use kyosync.Crdt.Lww
use kyosync.Crdt.OrSet.{OrSet, OrSetDelta}
use kyosync.Crdt.OrSet
use kyosync.Crdt.PnCounter.{PnCounter}
use kyosync.Crdt.PnCounter
use kyosync.Crdt.Sequence.{Sequence, insertion, deletion}
use kyosync.Crdt.Sequence
use kyosync.Crdt.MoveTree.{MoveTree}
use kyosync.Crdt.MoveTree

instance abbrev pub bytes_ord : Ord Bytes
bytes_ord = list_ord

instance abbrev pub path_ord : Ord FieldPath
path_ord = list_ord

pub data OpaqueValue : Type 0 where
  lww : LwwRegister Bytes → OpaqueValue
  or_set : OrSet Bytes → OpaqueValue
  pn_counter : PnCounter → OpaqueValue
  sequence : Sequence Bytes → OpaqueValue
  move_tree : MoveTree → OpaqueValue

-- `OpaqueValue::join`, which leaves the left side where the kinds differ
unfoldable pub join_value : OpaqueValue → OpaqueValue → OpaqueValue
join_value (lww a) (lww b) = lww (Lww.join a b)
join_value (or_set a) (or_set b) = or_set (OrSet.join a b)
join_value (pn_counter a) (pn_counter b) = pn_counter (PnCounter.join a b)
join_value (sequence a) (sequence b) = sequence (Sequence.join a b)
join_value (move_tree a) (move_tree b) = move_tree (MoveTree.join a b)
join_value a b = a

-- `OpaqueRecord`
pub record OpaqueRecord : Type 0 where
  pub fields : Table FieldPath OpaqueValue

abbrev pub new : OpaqueRecord
new = record { fields = [] }

unfoldable pub is_empty : OpaqueRecord → Bool
is_empty r = elim r.fields [ [] ↦ true | x ∷ m ↦ false ]

-- `OpaqueRecord::join`
unfoldable pub join : OpaqueRecord → OpaqueRecord → OpaqueRecord
unfolding join_value
join r other = record { fields = merge join_value r.fields other.fields }

unfoldable pub path_starts_with : FieldPath → FieldPath → Bool
path_starts_with p [] = true
path_starts_with [] (b ∷ prefix) = false
path_starts_with (a ∷ p) (b ∷ prefix) = same a b && path_starts_with p prefix

-- One branch of `apply_wire`: the value at the path, put there where there is none, is brought up
-- to date, unless it is of another kind.
unfoldable pub update_field :
    FieldPath
    → OpaqueValue
    → (OpaqueValue → Option (OpaqueValue × Applied))
    → OpaqueRecord
    → OpaqueRecord × Applied
update_field path fresh step r = elim (step (Option.get_or (get path r.fields) fresh)) [
  | none ↦ (record { fields = or_insert path fresh r.fields }, err type_mismatch)
  | some (v, done) ↦ (record { fields = insert path v r.fields }, done)
]

-- The update of a value of the kind that a delta is for.
unfoldable pub step_value : WireDelta → CausalContext → OpaqueValue → Option (OpaqueValue × Applied)
step_value (lww_replace value) ctx (lww r) =
    let (r', done) = Lww.apply (record { value = value }) ctx r in some (lww r', done)
step_value (or_set_add value) ctx (or_set s) =
    let (s', done) = OrSet.apply (OrSetDelta.add value) ctx s in some (or_set s', done)
step_value (or_set_remove observed) ctx (or_set s) =
    let (s', done) = OrSet.apply (OrSetDelta.remove observed) ctx s in some (or_set s', done)
step_value (pn_counter_delta by) ctx (pn_counter c) =
    let (c', done) = PnCounter.apply (record { by = by }) ctx c in some (pn_counter c', done)
step_value (sequence_insert predecessor value) ctx (sequence s) =
    let (s', done) = Sequence.apply (insertion predecessor value) ctx s in some (sequence s', done)
step_value (sequence_delete targets) ctx (sequence s) =
    let (s', done) = Sequence.apply (deletion targets) ctx s in some (sequence s', done)
step_value (tree_move child new_parent position) ctx (move_tree t) =
    let (t', done) =
      MoveTree.apply (record { child = child; new_parent = new_parent; position = position }) ctx
        t in
    some (move_tree t', done)
step_value delta ctx v = none

-- `drop_prefix`: an empty key drops what lies below the path itself.
unfoldable pub dropped_below : FieldPath → PathSegment → FieldPath
dropped_below path k = elim (text_of k) [ [] ↦ path | c ∷ cs ↦ push path k ]

unfoldable pub apply_wire :
    FieldPath → WireDelta → CausalContext → OpaqueRecord → OpaqueRecord × Applied
unfolding update_field step_value path_starts_with dropped_below
apply_wire path (lww_replace value) ctx r =
    update_field path (lww Lww.empty) (step_value (lww_replace value) ctx) r
apply_wire path (or_set_add value) ctx r =
    update_field path (or_set OrSet.new) (step_value (or_set_add value) ctx) r
apply_wire path (or_set_remove observed) ctx r =
    update_field path (or_set OrSet.new) (step_value (or_set_remove observed) ctx) r
apply_wire path (pn_counter_delta by) ctx r =
    update_field path (pn_counter PnCounter.new) (step_value (pn_counter_delta by) ctx) r
apply_wire path (sequence_insert predecessor value) ctx r =
    update_field path (sequence Sequence.new) (step_value (sequence_insert predecessor value) ctx) r
apply_wire path (sequence_delete targets) ctx r =
    update_field path (sequence Sequence.new) (step_value (sequence_delete targets) ctx) r
apply_wire path (map_put k inner) ctx r = apply_wire (push path k) inner ctx r
apply_wire path (map_remove k observed) ctx r =
    let drop_prefix = dropped_below path k in
    (record { fields = retain (λ p v. not (path_starts_with p drop_prefix)) r.fields }, ok)
apply_wire path (tree_move child new_parent position) ctx r =
    update_field path (move_tree MoveTree.new)
      (step_value (tree_move child new_parent position) ctx) r

-- `install_state`
unfoldable pub install_state : FieldPath → OpaqueValue → OpaqueRecord → OpaqueRecord × Applied
install_state path v r = (record { fields = insert path v r.fields }, ok)
