-- ===== src/Graph/Topology/Defs.antt =====
-- The state of `GraphTopology`, its queries, and its implementation of `Topology`.
use kyosync.Prelude.{
  ℕ, ◌+◌, Option, none, some, List, [], ◌∷◌, Bool, true, false, not, ◌&&◌, ◌||◌, length,
  if◌then◌else◌,
}
use mathlib.Core.Option
use kyosync.Prelude.Order.{same}
use kyosync.Table.{Table, get, insert, remove, or_insert, modify, map_values, upsert}
use kyosync.Crdt.Ident.{CrdtId, id_ord}
use kyosync.Crdt.Context.{CausalContext}
use kyosync.Crdt.Delta.{Text}
use kyosync.Crdt.Forest.{walk}
use kyosync.Crdt.Topology.{PropertyOp, Topology}
use kyosync.Graph.Op.{
  EdgeCategory, OpKind, add_node, remove_node, move, add_ref_edge, remove_ref_edge,
  set_node_property, set_ref_edge_property,
}

pub record NodeStructure : Type 0 where
  pub tombstoned : Bool
  pub order_key : Option Text
  pub tree_parent : Option CrdtId

pub record EdgeStructure : Type 0 where
  pub from : CrdtId
  pub to : CrdtId
  pub category : EdgeCategory
  pub tombstoned : Bool

pub record GraphTopology : Type 0 where
  pub nodes : Table CrdtId NodeStructure
  pub edges : Table CrdtId EdgeStructure
  pub pending_moves : Table CrdtId CrdtId

pub record NodeSnap : Type 0 where
  pub id : CrdtId
  pub order_key : Option Text
  pub tree_parent : Option CrdtId

pub record EdgeSnap : Type 0 where
  pub id : CrdtId
  pub from : CrdtId
  pub to : CrdtId
  pub category : EdgeCategory

pub record GraphTopologySnapshot : Type 0 where
  pub nodes : List NodeSnap
  pub edges : List EdgeSnap

unfoldable pub default : GraphTopology
default = record { nodes = []; edges = []; pending_moves = [] }

unfoldable pub names_target : CrdtId → Table CrdtId CrdtId → Bool
names_target target [] = false
names_target target ((op, t) ∷ moves) = same t target || names_target target moves

unfoldable pub is_pending_move_target : CrdtId → GraphTopology → Bool
is_pending_move_target target t = names_target target t.pending_moves

unfoldable pub track_pending_move : CrdtId → CrdtId → GraphTopology → GraphTopology
track_pending_move op_id target t = record t { pending_moves = insert op_id target t.pending_moves }

unfoldable pub tree_parent : GraphTopology → CrdtId → Option CrdtId
tree_parent t id = elim (get id t.nodes) [
  | none ↦ none
  | some rec ↦ if rec.tombstoned then none else rec.tree_parent
]

unfoldable pub node_order_key : CrdtId → GraphTopology → Option Text
node_order_key id t = elim (get id t.nodes) [
  | none ↦ none
  | some rec ↦ if rec.tombstoned then none else rec.order_key
]

unfoldable pub is_live_node : CrdtId → GraphTopology → Bool
is_live_node id t = elim (get id t.nodes) [ none ↦ false | some rec ↦ not rec.tombstoned ]

unfoldable pub edge_endpoints : CrdtId → GraphTopology → Option (CrdtId × CrdtId)
edge_endpoints id t = elim (get id t.edges) [
  | none ↦ none
  | some rec ↦ if rec.tombstoned then none else some (rec.from, rec.to)
]

unfoldable pub edge_category : CrdtId → GraphTopology → Option EdgeCategory
edge_category id t = elim (get id t.edges) [
  | none ↦ none
  | some rec ↦ if rec.tombstoned then none else some rec.category
]

unfoldable pub is_live_edge : CrdtId → GraphTopology → Bool
is_live_edge id t = elim (get id t.edges) [ none ↦ false | some rec ↦ not rec.tombstoned ]

-- The keys of the entries that a test keeps, as `filter_map` collects them.
unfoldable pub ids_where {ℓ} : {V : Type ℓ} → (V → Bool) → Table CrdtId V → List CrdtId
ids_where p [] = []
ids_where p ((id, rec) ∷ m) = let rest = ids_where p m in if p rec then id ∷ rest else rest

unfoldable pub live_node_ids : GraphTopology → List CrdtId
live_node_ids t = ids_where (λ (rec : NodeStructure). not rec.tombstoned) t.nodes

unfoldable pub live_edge_ids : GraphTopology → List CrdtId
live_edge_ids t = ids_where (λ (rec : EdgeStructure). not rec.tombstoned) t.edges

unfoldable pub node_count : GraphTopology → ℕ
node_count t = length (live_node_ids t)

unfoldable pub edge_count : GraphTopology → ℕ
edge_count t = length (live_edge_ids t)

unfoldable pub outgoing_edge_ids : CrdtId → GraphTopology → List CrdtId
outgoing_edge_ids n t =
    ids_where (λ (rec : EdgeStructure). not (rec.tombstoned || not (same rec.from n))) t.edges

unfoldable pub incoming_edge_ids : CrdtId → GraphTopology → List CrdtId
incoming_edge_ids n t =
    ids_where (λ (rec : EdgeStructure). not (rec.tombstoned || not (same rec.to n))) t.edges

-- The walk has one step for each node and two more, which is enough on a tree; where the loop of
-- the source would not end the answer here is `true`.
unfoldable pub would_create_cycle : GraphTopology → CrdtId → CrdtId → Bool
would_create_cycle t target proposed_parent =
    if same target proposed_parent
    then true
    else Option.get_or (walk (tree_parent t) (length t.nodes + 2) target (some proposed_parent))
        true

abbrev pub fresh_node : NodeStructure
fresh_node = record { tombstoned = false; order_key = none; tree_parent = none }

-- `rec.tombstoned = true`
abbrev pub bury_node : NodeStructure → NodeStructure
bury_node rec = record rec { tombstoned = true }

abbrev pub bury_edge : EdgeStructure → EdgeStructure
bury_edge rec = record rec { tombstoned = true }

-- The cascade to the edges at a removed node.
abbrev pub bury_incident : CrdtId → EdgeStructure → EdgeStructure
bury_incident target edge =
    if same edge.from target || same edge.to target then bury_edge edge else edge

unfoldable pub apply_remove_node : CrdtId → GraphTopology → GraphTopology
apply_remove_node target t = elim (get target t.nodes) [
  | none ↦ t
  | some rec ↦ record t {
    nodes = insert target (bury_node rec) t.nodes;
    edges = map_values (bury_incident target) t.edges;
  }
]

unfoldable pub apply_add_ref_edge :
    EdgeCategory → CrdtId → CrdtId → CausalContext → GraphTopology → GraphTopology
unfolding is_live_node
apply_add_ref_edge category from to ctx t =
    let cascade_tombstoned = not (is_live_node from t && is_live_node to t) in
    record t {
      edges =
          upsert ctx.op_id
            (λ _. record {
              from = from;
              to = to;
              category = category;
              tombstoned = cascade_tombstoned;
            })
            t.edges;
    }

-- The test at the top of a move.
unfoldable pub move_blocked : CrdtId → Option CrdtId → GraphTopology → Bool
unfolding would_create_cycle
move_blocked target new_parent t = elim new_parent [
  | none ↦ false
  | some parent_id ↦ would_create_cycle t target parent_id
]

abbrev pub placed : Option CrdtId → Text → NodeStructure → NodeStructure
placed new_parent position rec = record rec { tree_parent = new_parent; order_key = some position }

unfoldable pub apply_move :
    CrdtId → Option CrdtId → Text → CausalContext → GraphTopology → GraphTopology
unfolding move_blocked
apply_move target new_parent position ctx t =
    let settled = remove ctx.op_id t.pending_moves in
    if move_blocked target new_parent t then record t { pending_moves = settled } else record t {
      nodes = modify target (placed new_parent position) t.nodes;
      pending_moves = settled;
    }

unfoldable pub apply_structural_op : OpKind → CausalContext → GraphTopology → GraphTopology
unfolding apply_remove_node apply_add_ref_edge apply_move
apply_structural_op add_node ctx t = record t { nodes = or_insert ctx.op_id fresh_node t.nodes }
apply_structural_op (remove_node target) ctx t = apply_remove_node target t
apply_structural_op (add_ref_edge category from to) ctx t =
    apply_add_ref_edge category from to ctx t
apply_structural_op (remove_ref_edge target) ctx t = record t {
  edges = modify target bury_edge t.edges;
}
apply_structural_op (move target new_parent position) ctx t =
    apply_move target new_parent position ctx t
apply_structural_op (set_node_property target path delta) ctx t = t
apply_structural_op (set_ref_edge_property target path delta) ctx t = t

unfoldable pub live_nodes : Table CrdtId NodeStructure → List NodeSnap
live_nodes [] = []
live_nodes ((id, rec) ∷ m) =
    let rest = live_nodes m in
    if rec.tombstoned
    then rest
    else record { id = id; order_key = rec.order_key; tree_parent = rec.tree_parent } ∷ rest

unfoldable pub live_edges : Table CrdtId EdgeStructure → List EdgeSnap
live_edges [] = []
live_edges ((id, rec) ∷ m) =
    let rest = live_edges m in
    if rec.tombstoned
    then rest
    else record { id = id; from = rec.from; to = rec.to; category = rec.category } ∷ rest

-- The tables are read in the order of their keys, so the two sorts change nothing.
unfoldable pub snapshot : GraphTopology → GraphTopologySnapshot
snapshot t = record { nodes = live_nodes t.nodes; edges = live_edges t.edges }

unfoldable pub insert_nodes :
    List NodeSnap → Table CrdtId NodeStructure → Table CrdtId NodeStructure
insert_nodes [] m = m
insert_nodes (n ∷ ns) m = insert_nodes ns (
    insert n.id
      (record { tombstoned = false; order_key = n.order_key; tree_parent = n.tree_parent }) m)

unfoldable pub insert_edges :
    List EdgeSnap → Table CrdtId EdgeStructure → Table CrdtId EdgeStructure
insert_edges [] m = m
insert_edges (e ∷ es) m =
    insert_edges es (
      insert e.id (record { from = e.from; to = e.to; category = e.category; tombstoned = false })
        m)

unfoldable pub restore : GraphTopologySnapshot → GraphTopology → GraphTopology
restore snap t = record {
  nodes = insert_nodes snap.nodes [];
  edges = insert_edges snap.edges [];
  pending_moves = [];
}

unfoldable pub extract_property_op : OpKind → Option PropertyOp
extract_property_op (set_node_property target path delta) =
    some (record { target = target; path = path; delta = delta })
extract_property_op (set_ref_edge_property target path delta) =
    some (record { target = target; path = path; delta = delta })
extract_property_op other = none

unfoldable pub extract_new_entity_id : OpKind → CausalContext → Option CrdtId
extract_new_entity_id add_node ctx = some ctx.op_id
extract_new_entity_id (add_ref_edge category from to) ctx = some ctx.op_id
extract_new_entity_id other ctx = none

-- `impl Topology for GraphTopology`
abbrev pub graph_topology : Topology
graph_topology = record {
  OpKind = OpKind;
  State = GraphTopology;
  SnapshotState = GraphTopologySnapshot;
  initial = default;
  apply_structural_op = apply_structural_op;
  snapshot = snapshot;
  restore = restore;
  extract_property_op = extract_property_op;
  extract_new_entity_id = extract_new_entity_id;
}
