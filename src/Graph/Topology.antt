-- ===== src/Graph/Topology.antt =====
-- crates/kyoso_graph_crdt/src/topology.rs, with `would_create_cycle` of view.rs.
pub mod Defs
pub mod Live
pub mod Acyclic
pub mod Edges
pub mod Restored
pub use Defs.*
