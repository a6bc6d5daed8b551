-- ===== src/Graph/Invariants.antt =====
-- crates/kyoso_graph_crdt/src/invariants.rs: the checks on a topology. The text of a violation is
-- not modelled. Both walks stop by a count of their steps, which bounds their fuel.
pub mod Clean
use kyosync.Prelude.{
  ℕ, zero, suc, ◌+◌, List, [], ◌∷◌, ◌++◌, Option, none, some, Bool, true, false, length, ltb, leb,
  ◌==◌, if◌then◌else◌,
}
use kyosync.Prelude.Order.{same}
use kyosync.Prelude.Occurs.{flat_map}
use kyosync.Crdt.Ident.{CrdtId, id_ord}
use kyosync.Graph.Topology.Defs.{
  GraphTopology, tree_parent, is_live_node, edge_endpoints, live_node_ids, live_edge_ids,
  node_count, would_create_cycle,
}

pub data ViolationKind : Type 0 where
  tree_cycle orphan_edge cycle_check_inconsistent : ViolationKind

pub record InvariantViolation : Type 0 where
  pub kind : ViolationKind

-- The walk of `check_no_tree_cycles` from one node.
unfoldable pub tree_walk :
    GraphTopology → CrdtId → ℕ → ℕ → ℕ → Option CrdtId → List InvariantViolation
tree_walk t start max_depth zero steps cursor = []
tree_walk t start max_depth (suc fuel) steps none = []
tree_walk t start max_depth (suc fuel) steps (some parent) =
    let rest = tree_walk t start max_depth fuel (suc steps) (tree_parent t parent) in
    if same parent start
    then record { kind = tree_cycle } ∷ []
    else if ltb max_depth (suc steps)
    then record { kind = tree_cycle } ∷ []
    else rest

unfoldable pub check_no_tree_cycles : GraphTopology → List InvariantViolation
unfolding tree_walk
check_no_tree_cycles t =
    let max_depth = node_count t + 1 in
    flat_map (λ start. tree_walk t start max_depth (max_depth + 1) 0 (tree_parent t start))
      (live_node_ids t)

abbrev pub orphan_at : GraphTopology → CrdtId → List InvariantViolation
orphan_at t end = if is_live_node end t then [] else (record { kind = orphan_edge } ∷ [])

unfoldable pub check_no_orphan_edges : GraphTopology → List InvariantViolation
check_no_orphan_edges t =
    flat_map
      (λ edge_id. elim (edge_endpoints edge_id t) [
        | none ↦ []
        | some (from, to) ↦ orphan_at t from ++ orphan_at t to
      ])
      (live_edge_ids t)

unfoldable pub check_topology : GraphTopology → List InvariantViolation
unfolding check_no_tree_cycles check_no_orphan_edges
check_topology t = check_no_tree_cycles t ++ check_no_orphan_edges t

-- The walk of `cross_check_cycle_detection` for one pair.
unfoldable pub cross_walk :
    GraphTopology → CrdtId → ℕ → ℕ → ℕ → Option CrdtId → List InvariantViolation
cross_walk t target nodes zero steps cursor = []
cross_walk t target nodes (suc fuel) steps none = []
cross_walk t target nodes (suc fuel) steps (some id) =
    let rest = cross_walk t target nodes fuel (suc steps) (tree_parent t id) in
    if same id target
    then record { kind = cycle_check_inconsistent } ∷ []
    else if ltb (nodes + 1) (suc steps)
    then []
    else rest

-- `for (j, parent) in nodes.iter().enumerate()`, without the place `i` of the target
unfoldable pub others : ℕ → CrdtId → ℕ → List CrdtId → List (CrdtId × CrdtId)
others i target j [] = []
others i target j (parent ∷ parents) =
    let rest = others i target (suc j) parents in if i == j then rest else (target, parent) ∷ rest

-- The pairs in the order of the two loops.
unfoldable pub pairs : ℕ → List CrdtId → List CrdtId → List (CrdtId × CrdtId)
unfolding others
pairs i nodes [] = []
pairs i nodes (target ∷ targets) = others i target 0 nodes ++ pairs (suc i) nodes targets

unfoldable pub cross_loop :
    GraphTopology → ℕ → ℕ → ℕ → List (CrdtId × CrdtId) → List InvariantViolation
unfolding cross_walk
cross_loop t nodes sample checks [] = []
cross_loop t nodes sample checks ((target, parent) ∷ ps) =
    let skipped = cross_loop t nodes sample checks ps in
    let after = cross_loop t nodes sample (suc checks) ps in
    if would_create_cycle t target parent
    then skipped
    else (cross_walk t target nodes (nodes + 2) 0 (some parent)
        ++ (if leb sample (suc checks) then [] else after))

-- `nodes` are the live nodes in the order in which the hash map gives them, which is not modelled.
unfoldable pub cross_check_cycle_detection :
    GraphTopology → List CrdtId → ℕ → List InvariantViolation
unfolding cross_loop pairs
cross_check_cycle_detection t nodes sample =
    cross_loop t (length nodes) sample 0 (pairs 0 nodes nodes)
