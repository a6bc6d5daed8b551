-- ===== src/Graph/View.antt =====
-- crates/kyoso_graph_crdt/src/view.rs: the walks over anything that can be read as a graph. The
-- fuel of `ancestors` is two more than there are live nodes, and so is that of the two searches.
pub mod Ancestors
pub mod Descendants
use kyosync.Prelude.{
  ℕ, zero, suc, ◌+◌, List, [], ◌∷◌, ◌++◌, Option, none, some, Bool, true, false, not, ◌&&◌, ◌||◌,
  length, if◌then◌else◌,
}
use kyosync.Prelude.Order.{Ord, same}
use kyosync.Table.Set.{listed}
use kyosync.Crdt.Ident.{CrdtId, id_ord}
use kyosync.Graph.Topology.Defs.{
  GraphTopology, tree_parent, is_live_node, is_live_edge, edge_endpoints, outgoing_edge_ids,
  incoming_edge_ids, live_node_ids,
}

-- The trait `GraphView`
pub record GraphView : Type 1 where
  pub NodeId : Type 0
  pub EdgeId : Type 0
  pub live_node : NodeId → Bool
  pub live_edge : EdgeId → Bool
  pub parent : NodeId → Option NodeId
  pub outgoing : NodeId → List (EdgeId × NodeId)
  pub incoming : NodeId → List (EdgeId × NodeId)
  pub nodes : List NodeId

module _ (view : GraphView) ⦃o : Ord view.NodeId⦄ where
  -- The loop of `ancestors`.
  unfoldable pub ancestors_loop :
      view.NodeId → ℕ → List view.NodeId → Option view.NodeId → List view.NodeId
  ancestors_loop start zero out cursor = out
  ancestors_loop start (suc fuel) out none = out
  ancestors_loop start (suc fuel) out (some id) =
      let rest = ancestors_loop start fuel (out ++ id ∷ []) (view.parent id) in
      if listed id out || same id start then out else rest

  unfoldable pub ancestors : view.NodeId → List view.NodeId
  unfolding ancestors_loop
  ancestors start = ancestors_loop start (length view.nodes + 2) [] (view.parent start)

  abbrev pub is_child : view.NodeId → view.NodeId → Bool
  is_child n candidate = elim (view.parent candidate) [ none ↦ false | some p ↦ same p n ]

  -- `for candidate in …`: what is kept and not yet out is put out, and on the frontier, whose last
  -- entry is the first of the list here.
  unfoldable pub visit :
      (view.NodeId → Bool)
      → List view.NodeId
      → List view.NodeId
      → List view.NodeId
      → List view.NodeId × List view.NodeId
  visit keep [] out frontier = (out, frontier)
  visit keep (c ∷ cs) out frontier =
      let kept = keep c && not (listed c out) in
      visit keep cs (if kept then out ++ c ∷ [] else out) (if kept then c ∷ frontier else frontier)

  -- `while let Some(n) = frontier.pop()`
  unfoldable pub descendants_loop : ℕ → List view.NodeId → List view.NodeId → List view.NodeId
  unfolding visit
  descendants_loop zero out frontier = out
  descendants_loop (suc fuel) out [] = out
  descendants_loop (suc fuel) out (n ∷ frontier) =
      let (out', frontier') = visit (is_child n) view.nodes out frontier in
      descendants_loop fuel out' frontier'

  unfoldable pub descendants : view.NodeId → List view.NodeId
  unfolding descendants_loop
  descendants root = descendants_loop (length view.nodes + 2) (root ∷ []) (root ∷ [])

  abbrev pub ends : List (view.EdgeId × view.NodeId) → List view.NodeId
  ends [] = []
  ends ((e, n) ∷ es) = n ∷ ends es

  unfoldable pub component_loop : ℕ → List view.NodeId → List view.NodeId → List view.NodeId
  unfolding visit
  component_loop zero out frontier = out
  component_loop (suc fuel) out [] = out
  component_loop (suc fuel) out (n ∷ frontier) =
      let (out1, frontier1) = visit (λ c. true) (ends (view.outgoing n)) out frontier in
      let (out2, frontier2) = visit (λ c. true) (ends (view.incoming n)) out1 frontier1 in
      component_loop fuel out2 frontier2

  unfoldable pub connected_component_undirected : view.NodeId → List view.NodeId
  unfolding component_loop
  connected_component_undirected start =
      component_loop (length view.nodes + 2) (start ∷ []) (start ∷ [])

-- `filter_map` over the ids of edges, with the end that the walk goes to.
unfoldable pub live_ends :
    (CrdtId × CrdtId → CrdtId) → GraphTopology → List CrdtId → List (CrdtId × CrdtId)
live_ends end t [] = []
live_ends end t (edge_id ∷ ids) =
    let rest = live_ends end t ids in
    elim (edge_endpoints edge_id t) [
      | none ↦ rest
      | some e ↦ if is_live_node (end e) t then (edge_id, end e) ∷ rest else rest
    ]

-- `impl GraphView for GraphTopology`
abbrev pub topology_view : GraphTopology → GraphView
topology_view t = record {
  NodeId = CrdtId;
  EdgeId = CrdtId;
  live_node = λ id. is_live_node id t;
  live_edge = λ id. is_live_edge id t;
  parent = tree_parent t;
  outgoing = λ id. live_ends (λ e. e.1) t (outgoing_edge_ids id t);
  incoming = λ id. live_ends (λ e. e.0) t (incoming_edge_ids id t);
  nodes = live_node_ids t;
}
