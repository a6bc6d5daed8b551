-- ===== src/Server.antt =====
-- apps/kyoso_server/src/services: the log, snapshots and acknowledgements of a room, and the handler
-- of its graph.
pub mod Store
pub mod Handler
pub mod Room
