-- ===== src/Crdt.antt =====
-- crates/kyoso_crdt: the model-agnostic replication framework.
pub mod Ident
pub mod Context
pub mod Op
pub mod OpLog
pub mod Topology
pub mod Backend
pub mod Forest
pub mod Lattice
pub mod Delta
pub mod Lww
pub mod MoveTree
pub mod OrSet
pub mod PnCounter
pub mod Sequence
pub mod Opaque
pub mod CausalMap
