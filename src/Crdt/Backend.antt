-- ===== src/Crdt/Backend.antt =====
-- crates/kyoso_crdt/src/backend.rs: the generic backend, over a topology and a schema.
pub mod Defs
pub mod Replica
pub mod Redelivery
pub use Defs.*
pub mod Extend
