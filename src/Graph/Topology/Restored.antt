-- ===== src/Graph/Topology/Restored.antt =====
-- What a topology restored from a snapshot shows, for `snapshot` and `restore` of
-- crates/kyoso_graph_crdt/src/topology.rs.
use kyosync.Prelude.{Option, none, some, [], ◌∷◌, false, ◌≡◌, refl, arith, if◌then◌else◌}
use kyosync.Table.{Table, get, insert}
use kyosync.Table.Laws.{get-insert}
use kyosync.Table.Sorted.{IsSorted, get-Above}
use kyosync.Crdt.Ident.{CrdtId, id_ord}
use kyosync.Graph.Topology.Defs.{
  GraphTopology, NodeStructure, EdgeStructure, live_nodes, live_edges, insert_nodes, insert_edges,
  snapshot, restore, tree_parent, node_order_key, is_live_node, edge_endpoints, edge_category,
  is_live_edge,
}

abbrev live_node : Option NodeStructure → Option NodeStructure → Option NodeStructure
live_node none old = old
live_node (some rec) old = if rec.tombstoned then old else some rec

abbrev live_edge : Option EdgeStructure → Option EdgeStructure → Option EdgeStructure
live_edge none old = old
live_edge (some rec) old = if rec.tombstoned then old else some rec

get-insert_nodes :
    (k : CrdtId) (m acc : Table CrdtId NodeStructure)
    → IsSorted m
    → get k (insert_nodes (live_nodes m) acc) ≡ live_node (get k m) (get k acc)
unfolding live_nodes insert_nodes get
get-insert_nodes k [] acc s = refl
get-insert_nodes k ((j, rec) ∷ m) acc s =
    let snap : NodeStructure = record {
      tombstoned = false;
      order_key = rec.order_key;
      tree_parent = rec.tree_parent;
    } in
    ground (
      arith,
      get-insert_nodes k m acc s.1,
      get-insert_nodes k m (insert j snap acc) s.1,
      get-insert k j snap acc,
      id_ord.eq_of_cmp k j,
      get-Above j m s.0,
    )

get-insert_edges :
    (k : CrdtId) (m acc : Table CrdtId EdgeStructure)
    → IsSorted m
    → get k (insert_edges (live_edges m) acc) ≡ live_edge (get k m) (get k acc)
unfolding live_edges insert_edges get
get-insert_edges k [] acc s = refl
get-insert_edges k ((j, rec) ∷ m) acc s =
    let snap : EdgeStructure = record {
      from = rec.from;
      to = rec.to;
      category = rec.category;
      tombstoned = false;
    } in
    ground (
      arith,
      get-insert_edges k m acc s.1,
      get-insert_edges k m (insert j snap acc) s.1,
      get-insert k j snap acc,
      id_ord.eq_of_cmp k j,
      get-Above j m s.0,
    )

-- A topology restored from the snapshot of one whose tables are sorted by id answers every query
-- about an id as that one did: whether it is a live node, its tree parent and order key, whether
-- it is a live edge, its endpoints and category; whatever was in it before.
pub restore-snapshot :
    (t old : GraphTopology)
    → IsSorted t.nodes
    → IsSorted t.edges
    → (id : CrdtId)
    → (is_live_node id (restore (snapshot t) old) ≡ is_live_node id t)
      × (tree_parent (restore (snapshot t) old) id ≡ tree_parent t id)
      × (node_order_key id (restore (snapshot t) old) ≡ node_order_key id t)
      × (is_live_edge id (restore (snapshot t) old) ≡ is_live_edge id t)
      × (edge_endpoints id (restore (snapshot t) old) ≡ edge_endpoints id t)
      × (edge_category id (restore (snapshot t) old) ≡ edge_category id t)
unfolding restore snapshot is_live_node tree_parent node_order_key is_live_edge edge_endpoints
    edge_category get
restore-snapshot t old s e id =
    let n = get-insert_nodes id t.nodes [] s in
    let d = get-insert_edges id t.edges [] e in
    (
      ground (arith, n),
      ground (arith, n),
      ground (arith, n),
      ground (arith, d),
      ground (arith, d),
      ground (arith, d),
    )
