-- ===== src/Crdt/Topology.antt =====
-- crates/kyoso_crdt/src/topology.rs and schema.rs: what the backend asks of a domain's structure
-- and of the schema of its entities' properties, and what the backend's theorems use of them.
use kyosync.Prelude.{Option}
use kyosync.Crdt.Ident.{CrdtId}
use kyosync.Crdt.Context.{CausalContext}
use kyosync.Crdt.Delta.{Applied, FieldPath, WireDelta}

pub record PropertyOp : Type 0 where
  pub target : CrdtId
  pub path : FieldPath
  pub delta : WireDelta

-- The trait `Topology`; `Self` is `State`, and `initial` its `Default`.
pub record Topology : Type 1 where
  pub OpKind : Type 0
  pub State : Type 0
  pub SnapshotState : Type 0
  pub initial : State
  pub apply_structural_op : OpKind → CausalContext → State → State
  pub snapshot : State → SnapshotState
  pub restore : SnapshotState → State → State
  pub extract_property_op : OpKind → Option PropertyOp
  pub extract_new_entity_id : OpKind → CausalContext → Option CrdtId

-- The traits `Crdt`, `SchemaApply` and `Default` of a schema, and `IntoWireOp` of its delta.
pub record Schema : Type 1 where
  pub State : Type 0
  pub Mutation : Type 0
  pub Delta : Type 0
  pub default : State
  pub mutate : Mutation → CausalContext → State → State × Delta × CausalContext
  pub apply_wire : FieldPath → WireDelta → CausalContext → State → State × Applied
  pub into_wire_op : Delta → FieldPath × WireDelta
