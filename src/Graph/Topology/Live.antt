-- ===== src/Graph/Topology/Live.antt =====
-- What the queries answer after each structural op.
use kyosync.Prelude.{
  Option, none, some, true, false, not, ◌&&◌, ◌||◌, ◌≡◌, refl, arith, inl, inr, Option-cases,
  Bool-cases, if◌then◌else◌,
}
use kyosync.Prelude.Order.{same, eq_of_same}
use kyosync.Table.{get}
use kyosync.Table.Laws.{get-insert, get-or_insert, get-modify, get-map_values, get-upsert}
use kyosync.Crdt.Ident.{CrdtId, id_ord}
use kyosync.Crdt.Context.{CausalContext}
use kyosync.Crdt.Delta.{FieldPath, Text, WireDelta}
use kyosync.Graph.Op.{
  EdgeCategory, OpKind, add_node, remove_node, move, add_ref_edge, remove_ref_edge,
  set_node_property, set_ref_edge_property,
}
use kyosync.Graph.Topology.Defs.{
  GraphTopology, tree_parent, is_live_node, edge_endpoints, fresh_node, bury_node, bury_edge,
  bury_incident, placed, apply_structural_op, apply_remove_node, apply_add_ref_edge, apply_move,
  move_blocked,
}

-- An op that leaves the nodes alone.
pub data EdgeOp : OpKind → Type 0 where
  adds : (category : EdgeCategory) (from to : CrdtId) → EdgeOp (add_ref_edge category from to)
  removes : (target : CrdtId) → EdgeOp (remove_ref_edge target)
  sets_node :
      (target : CrdtId) (path : FieldPath) (delta : WireDelta)
      → EdgeOp (set_node_property target path delta)
  sets_edge :
      (target : CrdtId) (path : FieldPath) (delta : WireDelta)
      → EdgeOp (set_ref_edge_property target path delta)

module _ (ctx : CausalContext) (t : GraphTopology) where
  pub tree_parent-add_node :
      (k : CrdtId) → tree_parent (apply_structural_op add_node ctx t) k ≡ tree_parent t k
  unfolding tree_parent apply_structural_op
  tree_parent-add_node k = elim (Option-cases (get ctx.op_id t.nodes)) [
    | inl e ↦ ground (arith, get-or_insert k ctx.op_id fresh_node t.nodes, eq_of_same k ctx.op_id)
    | inr (v, e) ↦
        ground (arith, get-or_insert k ctx.op_id fresh_node t.nodes, eq_of_same k ctx.op_id)
  ]

  pub is_live_node-add_node :
      (k : CrdtId)
      → is_live_node k t ≡ true
      → is_live_node k (apply_structural_op add_node ctx t) ≡ true
  unfolding is_live_node apply_structural_op
  is_live_node-add_node k h =
      ground (arith, get-or_insert k ctx.op_id fresh_node t.nodes, eq_of_same k ctx.op_id)

  module _ (target : CrdtId) where
    pub tree_parent-remove_node :
        (k : CrdtId)
        → tree_parent (apply_structural_op (remove_node target) ctx t) k
          ≡ (if same k target then none else tree_parent t k)
    unfolding tree_parent apply_structural_op apply_remove_node
    tree_parent-remove_node k = elim (Option-cases (get target t.nodes)) [
      | inl e ↦ ground (arith, eq_of_same k target)
      | inr (rec, e) ↦
          ground (arith, get-insert k target (bury_node rec) t.nodes, eq_of_same k target)
    ]

    pub is_live_node-remove_node :
        (k : CrdtId)
        → is_live_node k (apply_structural_op (remove_node target) ctx t)
          ≡ (not (same k target) && is_live_node k t)
    unfolding is_live_node apply_structural_op apply_remove_node
    is_live_node-remove_node k = elim (Option-cases (get target t.nodes)) [
      | inl e ↦ ground (arith, eq_of_same k target)
      | inr (rec, e) ↦
          ground (arith, get-insert k target (bury_node rec) t.nodes, eq_of_same k target)
    ]

    pub edge_endpoints-remove_ref_edge :
        (id : CrdtId)
        → edge_endpoints id (apply_structural_op (remove_ref_edge target) ctx t)
          ≡ (if same id target then none else edge_endpoints id t)
    unfolding edge_endpoints apply_structural_op
    edge_endpoints-remove_ref_edge id = elim (Option-cases (get target t.edges)) [
      | inl e ↦ ground (arith, get-modify id target bury_edge t.edges, eq_of_same id target)
      | inr (rec, e) ↦ ground (arith, get-modify id target bury_edge t.edges, eq_of_same id target)
    ]

    pub is_live_node-move :
        (parent : Option CrdtId) (position : Text) (k : CrdtId)
        → is_live_node k (apply_structural_op (move target parent position) ctx t)
          ≡ is_live_node k t
    unfolding is_live_node apply_structural_op apply_move
    is_live_node-move parent position k = elim (Bool-cases (move_blocked target parent t)) [
      | inl blocked ↦ ground arith
      | inr free ↦ elim (Option-cases (get target t.nodes)) [
        | inl e ↦
            ground
              (arith, get-modify k target (placed parent position) t.nodes, eq_of_same k target)
        | inr (rec, e) ↦
            ground
              (arith, get-modify k target (placed parent position) t.nodes, eq_of_same k target)
      ]
    ]

    pub tree_parent-move_live :
        (parent : Option CrdtId) (position : Text)
        → move_blocked target parent t ≡ false
        → is_live_node target t ≡ true
        → (k : CrdtId)
        → tree_parent (apply_structural_op (move target parent position) ctx t) k
          ≡ (if same k target then parent else tree_parent t k)
    unfolding tree_parent is_live_node apply_structural_op apply_move
    tree_parent-move_live parent position free live k = elim (Option-cases (get target t.nodes)) [
      | inl e ↦ absurd (ground arith)
      | inr (rec, e) ↦
          ground (arith, get-modify k target (placed parent position) t.nodes, eq_of_same k target)
    ]

    -- A move that is blocked, or of a node that is not live, changes no parent.
    pub tree_parent-move_idle :
        (parent : Option CrdtId) (position : Text)
        → (move_blocked target parent t || not (is_live_node target t)) ≡ true
        → (k : CrdtId)
        → tree_parent (apply_structural_op (move target parent position) ctx t) k ≡ tree_parent t k
    unfolding tree_parent is_live_node apply_structural_op apply_move
    tree_parent-move_idle parent position idle k =
        elim (Bool-cases (move_blocked target parent t)) [
          | inl blocked ↦ ground arith
          | inr free ↦ elim (Option-cases (get target t.nodes)) [
            | inl e ↦
                ground
                  (arith, get-modify k target (placed parent position) t.nodes, eq_of_same k target)
            | inr (rec, e) ↦
                ground
                  (arith, get-modify k target (placed parent position) t.nodes, eq_of_same k target)
          ]
        ]

  pub edge_endpoints-add_ref_edge :
      (category : EdgeCategory) (from to id : CrdtId)
      → edge_endpoints id (apply_structural_op (add_ref_edge category from to) ctx t) ≡ (
          if same id ctx.op_id
          then (if is_live_node from t && is_live_node to t then some (from, to) else none)
          else edge_endpoints id t)
  unfolding edge_endpoints apply_structural_op apply_add_ref_edge
  edge_endpoints-add_ref_edge category from to id = ground (
    arith,
    get-upsert id ctx.op_id
        (λ _. record {
          from = from;
          to = to;
          category = category;
          tombstoned = not (is_live_node from t && is_live_node to t);
        })
        t.edges,
  )

  pub edge_endpoints-remove_node :
      (target id from to : CrdtId)
      → edge_endpoints id (apply_structural_op (remove_node target) ctx t) ≡ some (from, to)
      → (edge_endpoints id t ≡ some (from, to))
        × ((is_live_node target t ≡ true) → (same from target || same to target) ≡ false)
  unfolding edge_endpoints is_live_node apply_structural_op apply_remove_node
  edge_endpoints-remove_node target id from to h = elim (Option-cases (get target t.nodes)) [
    | inl e ↦ ground arith
    | inr (rec, e) ↦ elim (Option-cases (get id t.edges)) [
      | inl f ↦ absurd (ground (arith, get-map_values id (bury_incident target) t.edges))
      | inr (edge, f) ↦ (
        ground (arith, get-map_values id (bury_incident target) t.edges),
        λ live. ground (arith, get-map_values id (bury_incident target) t.edges),
      )
    ]
  ]

  pub tree_parent-EdgeOp :
      {op : OpKind}
      → EdgeOp op
      → (k : CrdtId) → tree_parent (apply_structural_op op ctx t) k ≡ tree_parent t k
  unfolding tree_parent apply_structural_op apply_add_ref_edge
  tree_parent-EdgeOp (adds category from to) k = refl
  tree_parent-EdgeOp (removes target) k = refl
  tree_parent-EdgeOp (sets_node target path delta) k = refl
  tree_parent-EdgeOp (sets_edge target path delta) k = refl

  pub is_live_node-EdgeOp :
      {op : OpKind}
      → EdgeOp op
      → (k : CrdtId) → is_live_node k (apply_structural_op op ctx t) ≡ is_live_node k t
  unfolding is_live_node apply_structural_op apply_add_ref_edge
  is_live_node-EdgeOp (adds category from to) k = refl
  is_live_node-EdgeOp (removes target) k = refl
  is_live_node-EdgeOp (sets_node target path delta) k = refl
  is_live_node-EdgeOp (sets_edge target path delta) k = refl

  pub edge_endpoints-set_node :
      (target : CrdtId) (path : FieldPath) (delta : WireDelta) (id : CrdtId)
      → edge_endpoints id (apply_structural_op (set_node_property target path delta) ctx t)
        ≡ edge_endpoints id t
  unfolding apply_structural_op
  edge_endpoints-set_node target path delta id = refl

  pub edge_endpoints-set_edge :
      (target : CrdtId) (path : FieldPath) (delta : WireDelta) (id : CrdtId)
      → edge_endpoints id (apply_structural_op (set_ref_edge_property target path delta) ctx t)
        ≡ edge_endpoints id t
  unfolding apply_structural_op
  edge_endpoints-set_edge target path delta id = refl

  pub edge_endpoints-add_node :
      (id : CrdtId) → edge_endpoints id (apply_structural_op add_node ctx t) ≡ edge_endpoints id t
  unfolding apply_structural_op edge_endpoints
  edge_endpoints-add_node id = refl

  pub edge_endpoints-move :
      (target : CrdtId) (new : Option CrdtId) (position : Text) (id : CrdtId)
      → edge_endpoints id (apply_structural_op (move target new position) ctx t)
        ≡ edge_endpoints id t
  unfolding apply_structural_op apply_move edge_endpoints
  edge_endpoints-move target new position id = elim (Bool-cases (move_blocked target new t)) [
    | inl blocked ↦ ground arith
    | inr free ↦ ground arith
  ]
