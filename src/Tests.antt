-- ===== src/Tests.antt =====
-- Concrete inputs on which the theorems are run.
pub mod Fixtures
pub mod Types
pub mod Replicas
pub mod Rooms
pub mod Document
pub mod Sequences
pub mod Graphs
pub mod Presence
