-- ===== src/Graph/Op.antt =====
-- crates/kyoso_graph_crdt/src/op.rs and edge_category.rs: the operations on a graph document.
use kyosync.Prelude.{Option}
use kyosync.Crdt.Ident.{CrdtId}
use kyosync.Crdt.Delta.{FieldPath, Text, WireDelta}

pub data EdgeCategory : Type 0 where
  reference instance_of prototype_link constraint_pin style_ref comment_anchor mention mask_of :
      EdgeCategory
  custom : Text → EdgeCategory

pub data OpKind : Type 0 where
  add_node : OpKind
  remove_node : (target : CrdtId) → OpKind
  move : (target : CrdtId) (new_parent : Option CrdtId) (position : Text) → OpKind
  add_ref_edge : (category : EdgeCategory) (from to : CrdtId) → OpKind
  remove_ref_edge : (target : CrdtId) → OpKind
  set_node_property : (target : CrdtId) (path : FieldPath) (delta : WireDelta) → OpKind
  set_ref_edge_property : (target : CrdtId) (path : FieldPath) (delta : WireDelta) → OpKind
