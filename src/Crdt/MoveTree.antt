-- ===== src/Crdt/MoveTree.antt =====
-- crates/kyoso_crdt/src/types/move_tree.rs: a forest kept as the log of all moves, which a fold in
-- the order of the sequence numbers materialises.
pub mod Placed
pub mod Join
use kyosync.Prelude.{
  ℕ, ◌+◌, Option, none, some, List, [], ◌∷◌, Bool, true, false, length, if◌then◌else◌,
}
use mathlib.Core.Option
use kyosync.Prelude.Order.{nat_ord}
use kyosync.Table.{Table, get, insert, or_insert, values}
use kyosync.Crdt.Ident.{CrdtId, GlobalSeq, id_ord}
use kyosync.Crdt.Context.{CausalContext}
use kyosync.Crdt.Delta.{
  Applied, ok, err, FieldPath, Text, WireDelta, tree_move, invalid, type_mismatch,
}
use kyosync.Crdt.Forest.{walk}
use kyosync.Crdt.Lww.Wire.{Read, read, bad}

pub record MoveRecord : Type 0 where
  pub child : CrdtId
  pub new_parent : Option CrdtId
  pub position : Text

pub record MoveNode : Type 0 where
  pub parent : Option CrdtId
  pub position : Text

pub record MoveTree : Type 0 where
  pub log : Table GlobalSeq MoveRecord

unfoldable pub new : MoveTree
new = record { log = [] }

unfoldable pub is_empty : MoveTree → Bool
is_empty t = elim t.log [ [] ↦ true | _ ∷ _ ↦ false ]

unfoldable pub move_count : MoveTree → ℕ
move_count t = length t.log

abbrev pub Placement : Type 0
Placement = Table CrdtId MoveNode

unfoldable pub parent_in : Placement → CrdtId → Option CrdtId
parent_in tree id = elim (get id tree) [ none ↦ none | some n ↦ n.parent ]

-- The walk has one step for each node of the tree and two more, which is enough on a forest; where
-- the loop of the source would not end the answer here is `true`.
unfoldable pub is_ancestor_or_self : Placement → CrdtId → CrdtId → Bool
is_ancestor_or_self tree ancestor node =
    Option.get_or (walk (parent_in tree) (length tree + 2) ancestor (some node)) true

-- The test at the top of the loop of `forest`.
unfoldable pub forms_cycle : Placement → MoveRecord → Bool
unfolding is_ancestor_or_self
forms_cycle tree rec = elim rec.new_parent [
  | none ↦ false
  | some parent ↦ is_ancestor_or_self tree rec.child parent
]

-- The body of the loop of `forest`.
unfoldable pub place : MoveRecord → Placement → Placement
unfolding forms_cycle
place rec tree =
    if forms_cycle tree rec
    then tree
    else insert rec.child (record { parent = rec.new_parent; position = rec.position }) tree

unfoldable pub place_all : List MoveRecord → Placement → Placement
place_all [] tree = tree
place_all (rec ∷ recs) tree = place_all recs (place rec tree)

unfoldable pub forest : MoveTree → Placement
forest t = place_all (values t.log) []

unfoldable pub parent_of : CrdtId → MoveTree → Option CrdtId
parent_of node t = elim (get node (forest t)) [ none ↦ none | some n ↦ n.parent ]

-- `MoveTreeDelta::Move`
pub record MoveTreeDelta : Type 0 where
  pub child : CrdtId
  pub new_parent : Option CrdtId
  pub position : Text

abbrev pub record_of : MoveTreeDelta → MoveRecord
record_of d = record { child = d.child; new_parent = d.new_parent; position = d.position }

unfoldable pub insert_missing :
    Table GlobalSeq MoveRecord → Table GlobalSeq MoveRecord → Table GlobalSeq MoveRecord
insert_missing log [] = log
insert_missing log ((seq, rec) ∷ other) = insert_missing (or_insert seq rec log) other

unfoldable pub join : MoveTree → MoveTree → MoveTree
join a b = record { log = insert_missing a.log b.log }

unfoldable pub apply : MoveTreeDelta → CausalContext → MoveTree → MoveTree × Applied
apply delta ctx t = elim ctx.seq [
  | none ↦ (t, err invalid)
  | some seq ↦ (record { log = insert seq (record_of delta) t.log }, ok)
]

unfoldable pub mutate : MoveTreeDelta → CausalContext → MoveTree → MoveTree × MoveTreeDelta
mutate m ctx t = elim ctx.seq [
  | none ↦ (t, m)
  | some seq ↦ (record { log = insert seq (record_of m) t.log }, m)
]

unfoldable pub to_wire : MoveTreeDelta → WireDelta
to_wire d = tree_move d.child d.new_parent d.position

unfoldable pub of_wire : WireDelta → Read MoveTreeDelta
of_wire (tree_move child new_parent position) =
    read (record { child = child; new_parent = new_parent; position = position })
of_wire other = bad type_mismatch

unfoldable pub into_wire_op : MoveTreeDelta → FieldPath × WireDelta
into_wire_op d = ([], to_wire d)
