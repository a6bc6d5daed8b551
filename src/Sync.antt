-- ===== src/Sync.antt =====
-- crates/kyoso_sync: what keeps a component and its document together.
pub mod SequenceDiff
