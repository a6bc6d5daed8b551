-- ===== src/Tests/Rooms.antt =====
-- A room with two ops, a snapshot, an acknowledgement and a garbage collection.
use kyosync.Prelude.{ℕ, ◌+◌, ◌<◌, ◌≤◌, ◌≡◌, none, List, [], ◌∷◌, ◌++◌, length, drop, arith, u64_mod}
use kyosync.Crdt.Op.{Op}
use kyosync.Graph.Op.{OpKind, add_node}
use kyosync.Graph.Topology.Defs.{graph_topology}
use kyosync.Server.Handler.{
  GraphRoomHandler, submit, stamped, take_snapshot, record_ack, run_gc, welcome_for, catchup,
}
use kyosync.Server.Handler.Sound.{Sound, numbered_op, room}
use kyosync.Server.Handler.Welcome.{
  opened, RoomRun, open_room, submits, snapshots, acks, collects, Complete, RoomRun-Sound,
  submit_answers, catchup_complete, welcome-Complete,
}
use kyosync.Tests.Fixtures.{note_schema, id_of}

abbrev Doc : Type 0
Doc = GraphRoomHandler graph_topology note_schema

abbrev unsent : ℕ → Op OpKind
unsent n = record { id = id_of 1 n; seq = none; kind = add_node }

abbrev one_op : List (Op OpKind)
one_op = numbered_op graph_topology note_schema [] (unsent 0) ∷ []

abbrev both_ops : List (Op OpKind)
both_ops = one_op ++ numbered_op graph_topology note_schema one_op (unsent 1) ∷ []

-- Two nodes, a snapshot between them, and peer 1 has the first.
abbrev busy : Doc
busy =
    (run_gc graph_topology note_schema (
      record_ack graph_topology note_schema 1 1
        (submit graph_topology note_schema (unsent 1) (
          take_snapshot graph_topology note_schema
            (submit graph_topology note_schema (unsent 0)
              (opened graph_topology note_schema [])).0)).0)).1

one_fits : length one_op + 2 < u64_mod
unfolding u64_mod
one_fits = omega arith

none_fits : 0 + 2 < u64_mod
unfolding u64_mod
none_fits = omega arith

busy_run : RoomRun graph_topology note_schema [] both_ops busy
busy_run =
    collects
      (acks (submits (snapshots (submits open_room (unsent 0) none_fits)) (unsent 1) one_fits) 1 1)

RoomRun-Sound_example : Sound graph_topology note_schema both_ops busy
RoomRun-Sound_example = RoomRun-Sound graph_topology note_schema [] busy_run

both_fit : length both_ops + 2 < u64_mod
unfolding u64_mod
both_fit = omega arith

submit_answers_example :
    (submit graph_topology note_schema (unsent 2) busy).1
    ≡ stamped (numbered_op graph_topology note_schema both_ops (unsent 2))
submit_answers_example = submit_answers graph_topology note_schema [] busy_run (unsent 2) both_fit

welcome-Complete_example :
    Complete graph_topology note_schema both_ops 0 (welcome_for graph_topology note_schema 0 busy)
welcome-Complete_example = welcome-Complete graph_topology note_schema [] busy_run 0 (omega arith)

few_compacted : (room graph_topology note_schema busy).compacted_below ≤ 2
few_compacted = (RoomRun-Sound graph_topology note_schema [] busy_run).kept.within

catchup_complete_example :
    ((catchup graph_topology note_schema 2 busy).ops ≡ drop 2 both_ops)
    × ((catchup graph_topology note_schema 2 busy).to_seq ≡ length both_ops)
catchup_complete_example = catchup_complete graph_topology note_schema [] busy_run 2 few_compacted
