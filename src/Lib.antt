-- ===== src/Lib.antt =====
-- A model of the replicated document of kyosync, with theorems about it.
--
-- The program. Peers edit one graph document: a tree of nodes with reference edges across it, and
-- properties on both. A peer mints ids (crates/kyoso_crdt/src/id.rs), queues ops and sends them; the
-- server appends each op to a log, numbering it from 1 (log.rs), and sends it back to every peer; a
-- peer applies the ops of the log in the order of their numbers (backend.rs). Ops on the structure
-- go to the topology (crates/kyoso_graph_crdt/src/topology.rs), ops on a property to the schema of
-- its entity, which is built of the types in crates/kyoso_crdt/src/types.
--
-- The files.
--   Prelude and its children: names, Boolean tests, 64-bit words, orders, loops over lists.
--   Table and its children: BTreeMap, HashMap and BTreeSet as sorted association lists.
--   Crdt/Ident, Crdt/Context, Crdt/Delta, Crdt/Lattice: id.rs, context.rs, delta.rs, lattice.rs.
--   Crdt/Op, Crdt/OpLog: op.rs, log.rs. Crdt/Topology: the traits of topology.rs and schema.rs.
--   Crdt/Backend: Backend<T, S> of backend.rs, over any topology and schema.
--   Crdt/Lww, Crdt/OrSet, Crdt/PnCounter, Crdt/MoveTree: lww.rs, or_set.rs, pn_counter.rs and
--     move_tree.rs of types.
--   Crdt/Sequence: sequence.rs of types. Sync/SequenceDiff: crates/kyoso_sync/src/sequence_diff.rs,
--     whose mutations Sync/SequenceDiff/Agree carries out on the sequence.
--   Crdt/Opaque: crates/kyoso_crdt/src/opaque.rs, and install_state of the types.
--   Crdt/Forest: the loops that walk up a tree, and why they end.
--   Crdt/CausalMap: causal_map.rs of types.
--   Graph/View, Graph/Invariants: view.rs and invariants.rs in crates/kyoso_graph_crdt/src.
--   Graph/Op, Graph/Topology: op.rs, edge_category.rs, topology.rs and the cycle test of view.rs in
--     crates/kyoso_graph_crdt/src.
--   Graph/Backend: graph_backend.rs there.
--   Server/Store, Server/Handler: the in-memory store of services/store.rs and the room handler of
--     services/handlers/graph.rs in apps/kyoso_server/src. Server/Room: the room of services/room.rs
--     over handlers of any kind, and the presence that crates/kyoso_sync/src/transport.rs follows.
--   Tests: runs on concrete inputs.
--
-- How code is read. A method that changes `self` is a function from the old state to the new one,
-- with its result beside it; the name is the method's. A `u64` is a natural number, and where the
-- code adds to one the sum wraps at 2^64. A map or set is the list of its entries in the order of
-- the keys. A hash map has no order of its own; here its loops run in the order of the keys, which
-- shows in the loops over a room's handlers and in the order within the lists that view.rs and
-- invariants.rs return. The cross check of invariants.rs takes the nodes in any order, as an
-- argument. Requests of a room are served one at a time. A string is the list of its bytes.
-- A loop that walks up parents has fuel of two more steps than there are nodes, which is enough
-- because a walk without cycles meets each node with a parent once.
--
-- The walk of a sequence has fuel of one more than there are elements, and the loops of the
-- difference have the length of the document. `ancestors` and the searches of view.rs have fuel of
-- two more than there are live nodes; the walks of invariants.rs stop by a count of their own.
--
-- Not modelled: the postcard encoding (a third-party library, a parameter where a type needs it),
-- the text of errors, tracing, locks, the engine's systems, the user interface and network I/O.
pub mod Prelude
pub mod Table
pub mod Crdt
pub mod Graph
pub mod Server
pub mod Sync
pub mod Tests
