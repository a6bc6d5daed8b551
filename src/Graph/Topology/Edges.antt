-- ===== src/Graph/Topology/Edges.antt =====
-- The conditions that crates/kyoso_graph_crdt/src/invariants.rs checks, of the states that ops reach.
use kyosync.Prelude.{some, List, [], ◌∷◌, true, ◌≡◌, arith}
use kyosync.Prelude.Order.{eq_of_same}
use kyosync.Table.{get}
use kyosync.Crdt.Ident.{CrdtId, id_ord}
use kyosync.Crdt.Context.{CausalContext}
use kyosync.Crdt.Forest.{IsAcyclic}
use kyosync.Graph.Op.{
  OpKind, add_node, remove_node, move, add_ref_edge, remove_ref_edge, set_node_property,
  set_ref_edge_property,
}
use kyosync.Graph.Topology.Defs.{
  GraphTopology, default, tree_parent, is_live_node, edge_endpoints, apply_structural_op,
}
use kyosync.Graph.Topology.Live.{
  is_live_node-add_node, is_live_node-remove_node, is_live_node-move,
  edge_endpoints-remove_ref_edge, edge_endpoints-add_ref_edge, edge_endpoints-remove_node,
  edge_endpoints-add_node, edge_endpoints-move, edge_endpoints-set_node, edge_endpoints-set_edge,
  is_live_node-EdgeOp, EdgeOp, adds, removes, sets_node, sets_edge,
}
use kyosync.Graph.Topology.Acyclic.{apply_structural_op-IsAcyclic, default-IsAcyclic}

-- Every live edge has live endpoints.
abbrev pub NoOrphans : GraphTopology → Type 0
NoOrphans t =
    (id from to : CrdtId)
    → edge_endpoints id t ≡ some (from, to)
    → (is_live_node from t ≡ true) × (is_live_node to t ≡ true)

EdgeOp-NoOrphans :
    {op : OpKind}
    → EdgeOp op
    → (ctx : CausalContext) (t : GraphTopology) (from to : CrdtId)
    → (is_live_node from t ≡ true) × (is_live_node to t ≡ true)
    → (is_live_node from (apply_structural_op op ctx t) ≡ true)
      × (is_live_node to (apply_structural_op op ctx t) ≡ true)
EdgeOp-NoOrphans e ctx t from to (p, q) = (
  ground (arith, is_live_node-EdgeOp ctx t e from),
  ground (arith, is_live_node-EdgeOp ctx t e to),
)

apply_structural_op-NoOrphans :
    (op : OpKind) (ctx : CausalContext) (t : GraphTopology)
    → NoOrphans t
    → NoOrphans (apply_structural_op op ctx t)
apply_structural_op-NoOrphans add_node ctx t n id from to h =
    let (p, q) = n id from to (ground (arith, edge_endpoints-add_node ctx t id)) in
    (is_live_node-add_node ctx t from p, is_live_node-add_node ctx t to q)
apply_structural_op-NoOrphans (remove_node target) ctx t n id from to h =
    let (e, safe) = edge_endpoints-remove_node ctx t target id from to h in
    let (p, q) = n id from to e in
    (
      ground (arith, is_live_node-remove_node ctx t target from, eq_of_same from target),
      ground (arith, is_live_node-remove_node ctx t target to, eq_of_same to target),
    )
apply_structural_op-NoOrphans (move target new position) ctx t n id from to h =
    let (p, q) = n id from to (ground (arith, edge_endpoints-move ctx t target new position id)) in
    (
      ground (arith, is_live_node-move ctx t target new position from),
      ground (arith, is_live_node-move ctx t target new position to),
    )
apply_structural_op-NoOrphans (add_ref_edge category a b) ctx t n id from to h =
    EdgeOp-NoOrphans (adds category a b) ctx t from to
      (ground (arith, edge_endpoints-add_ref_edge ctx t category a b id, n id from to))
apply_structural_op-NoOrphans (remove_ref_edge target) ctx t n id from to h =
    EdgeOp-NoOrphans (removes target) ctx t from to
      (n id from to (ground (arith, edge_endpoints-remove_ref_edge ctx t target id)))
apply_structural_op-NoOrphans (set_node_property target path delta) ctx t n id from to h =
    EdgeOp-NoOrphans (sets_node target path delta) ctx t from to
      (n id from to (ground (arith, edge_endpoints-set_node ctx t target path delta id)))
apply_structural_op-NoOrphans (set_ref_edge_property target path delta) ctx t n id from to h =
    EdgeOp-NoOrphans (sets_edge target path delta) ctx t from to
      (n id from to (ground (arith, edge_endpoints-set_edge ctx t target path delta id)))

unfoldable pub apply_all : List (OpKind × CausalContext) → GraphTopology → GraphTopology
apply_all [] t = t
apply_all ((op, ctx) ∷ ops) t = apply_all ops (apply_structural_op op ctx t)

default-NoOrphans : NoOrphans default
unfolding edge_endpoints default get
default-NoOrphans id from to h = absurd (ground arith)

apply_all-keeps :
    (ops : List (OpKind × CausalContext)) (t : GraphTopology)
    → IsAcyclic (tree_parent t)
    → NoOrphans t
    → IsAcyclic (tree_parent (apply_all ops t)) × NoOrphans (apply_all ops t)
unfolding apply_all
apply_all-keeps [] t a n = (a, n)
apply_all-keeps ((op, ctx) ∷ ops) t a n =
    apply_all-keeps ops (apply_structural_op op ctx t) (apply_structural_op-IsAcyclic op ctx t a)
      (apply_structural_op-NoOrphans op ctx t n)

-- Whatever ops are applied to an empty document in whatever order, its tree has no cycle and every
-- live edge has live endpoints.
pub graph_invariants :
    (ops : List (OpKind × CausalContext))
    → IsAcyclic (tree_parent (apply_all ops default)) × NoOrphans (apply_all ops default)
graph_invariants ops = apply_all-keeps ops default default-IsAcyclic default-NoOrphans
