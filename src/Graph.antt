-- ===== src/Graph.antt =====
-- crates/kyoso_graph_crdt: the graph document, a tree of nodes with reference edges across it.
pub mod Op
pub mod Topology
pub mod View
pub mod Invariants
pub mod Backend
