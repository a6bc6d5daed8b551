-- ===== src/Graph/Backend.antt =====
-- crates/kyoso_graph_crdt/src/graph_backend.rs: the domain methods over the generic backend. The
-- struct holds nothing else, so the methods that only pass a call on are those of the backend.
pub mod Local
use kyosync.Prelude.{
  Option, none, some, List, [], ◌∷◌, Bool, true, false, not, ◌&&◌, ◌||◌, if◌then◌else◌,
}
use kyosync.Table.{contains_key}
use kyosync.Crdt.Ident.{CrdtId, id_ord}
use kyosync.Crdt.Delta.{Bytes, FieldPath, PathSegment, Text, lww_replace}
use kyosync.Crdt.Topology.{Schema}
use kyosync.Crdt.Backend.Defs.{Backend}
use kyosync.Crdt.Backend.Defs
use kyosync.Graph.Op.{
  EdgeCategory, OpKind, add_node, remove_node, move, add_ref_edge, remove_ref_edge,
  set_node_property, set_ref_edge_property, reference,
}
use kyosync.Graph.Topology.Defs.{
  graph_topology, is_live_node, edge_endpoints, would_create_cycle, move_blocked,
  track_pending_move,
}

module _ (S : Schema) where
  abbrev pub GraphBackend : Type 0
  GraphBackend = Backend graph_topology S

  -- `add_node`
  unfoldable pub create_node : GraphBackend → CrdtId × GraphBackend
  create_node b =
      let (id, b') = Defs.mint_id graph_topology S b in
      (
        id,
        Defs.enqueue graph_topology S (record { id = id; seq = none; kind = add_node })
            (Defs.ensure_schema graph_topology S id b'),
      )

  -- `remove_node`
  unfoldable pub delete_node : CrdtId → GraphBackend → Bool × GraphBackend
  delete_node target b =
      let topology_says_live = is_live_node target b.topology in
      let schema_exists = contains_key target b.schemas in
      let queued = (Defs.queue_op graph_topology S (remove_node target) b).1 in
      if not topology_says_live && not schema_exists then (false, b) else (true, queued)

  unfoldable pub move_node : CrdtId → Option CrdtId → Text → GraphBackend → Bool × GraphBackend
  unfolding move_blocked
  move_node target new_parent position b =
      let (op_id, b') = Defs.queue_op graph_topology S (move target new_parent position) b in
      if move_blocked target new_parent b.topology
      then (false, b)
      else (true, record b' { topology = track_pending_move op_id target b'.topology })

  unfoldable pub add_ref_edge_with_category :
      CrdtId → CrdtId → EdgeCategory → GraphBackend → CrdtId × GraphBackend
  add_ref_edge_with_category from to category b =
      Defs.queue_op graph_topology S (add_ref_edge category from to) b

  unfoldable pub add_edge : CrdtId → CrdtId → GraphBackend → CrdtId × GraphBackend
  unfolding add_ref_edge_with_category
  add_edge from to b = add_ref_edge_with_category from to reference b

  unfoldable pub remove_edge : CrdtId → GraphBackend → Bool × GraphBackend
  remove_edge target b =
      let queued = (Defs.queue_op graph_topology S (remove_ref_edge target) b).1 in
      elim (edge_endpoints target b.topology) [ none ↦ (false, b) | some _ ↦ (true, queued) ]

  -- `None` where the node has no schema; the mutated copy is thrown away.
  unfoldable pub mutate_node : CrdtId → S.Mutation → GraphBackend → Option (Unit {0}) × GraphBackend
  mutate_node target mutation b = elim (Defs.schema graph_topology S target b) [
    | none ↦ (none, b)
    | some s ↦
        let (op_id, b') = Defs.mint_id graph_topology S b in
        let (throwaway, delta, ctx) =
          S.mutate mutation (record { op_id = op_id; seq = none; state = b'.causal }) s in
        let (path, wire_delta) = S.into_wire_op delta in
        (
          some tt,
          Defs.enqueue graph_topology S
              (record { id = op_id; seq = none; kind = set_node_property target path wire_delta })
              (record b' { causal = ctx.state }),
        )
  ]

  -- `Path::field`
  abbrev field_path : Text → FieldPath
  field_path name = PathSegment.field name ∷ []

  unfoldable pub set_property_of_node : CrdtId → Text → Bytes → GraphBackend → GraphBackend
  set_property_of_node target key value b =
      (Defs.queue_op graph_topology S
        (set_node_property target (field_path key) (lww_replace value)) b).1

  unfoldable pub set_property_of_edge : CrdtId → Text → Bytes → GraphBackend → GraphBackend
  set_property_of_edge target key value b =
      (Defs.queue_op graph_topology S
        (set_ref_edge_property target (field_path key) (lww_replace value)) b).1

  -- `schema`: the properties of a live node.
  unfoldable pub node : CrdtId → GraphBackend → Option S.State
  node id b = if not (is_live_node id b.topology) then none else Defs.schema graph_topology S id b
