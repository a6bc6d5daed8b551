-- ===== src/Tests/Replicas.antt =====
-- The backend's theorems on the log of two ops, which two replicas receive in different ways.
use kyosync.Prelude.{
  ℕ, zero, suc, some, ◌+◌, ◌<◌, ◌≡◌, refl, length, drop, arith, get_elem?, wrap64, u64_mod,
}
use kyosync.Prelude.Reorder.{fold_steps}
use kyosync.Crdt.Op.{Op}
use kyosync.Crdt.Ident.{PeerId}
use kyosync.Crdt.Backend.Defs.{Backend, with_peer, with_shared_ids, apply_remote, route, ok}
use kyosync.Crdt.Backend.Replica.{
  IsLog, Run, start, next, arrive, Synced, run-Synced, replicas_converge, catch_up_complete,
  deliver,
}
use kyosync.Crdt.Backend.Redelivery.{accepted_again}
use kyosync.Graph.Op.{OpKind}
use kyosync.Graph.Topology.Defs.{graph_topology}
use kyosync.Prelude.{◌⊎◌, true, false, ◌++◌, [], ◌∷◌}
use kyosync.Crdt.Op
use kyosync.Crdt.Ident.{mint}
use kyosync.Crdt.Forest.{IsAcyclic}
use kyosync.Graph.Op.{move}
use kyosync.Graph.Topology.Defs.{tree_parent, is_pending_move_target}
use kyosync.Graph.Topology.Acyclic.{default-IsAcyclic}
use kyosync.Graph.Backend.{create_node, move_node}
use kyosync.Graph.Backend.Local.{shared, echo, create_node-echo, MakesCycle, move_node_outcome}
use kyosync.Tests.Fixtures.{id_of, note_schema, first_op, second_op, two_ops}

abbrev Doc : Type 0
Doc = Backend graph_topology note_schema

abbrev receive : Op OpKind → Doc → Doc
receive op b = (apply_remote graph_topology note_schema op b).0

abbrev blank : PeerId → Doc
blank peer = with_peer graph_topology note_schema peer

-- One replica has the first op twice, the other the second op early.
abbrev once_and_again : Doc
once_and_again = receive second_op (receive first_op (receive first_op (blank 1)))

abbrev early_and_late : Doc
early_and_late = receive second_op (receive first_op (receive second_op (blank 2)))

two_ops-IsLog : IsLog two_ops
unfolding u64_mod
two_ops-IsLog = record { numbered = numbers; bounded = omega arith }
  where
    numbers : (i : ℕ) (op : Op OpKind) → get_elem? two_ops i ≡ some op → op.seq ≡ some (suc i)
    numbers zero op e = ground arith
    numbers (suc zero) op e = ground arith
    numbers (suc (suc i)) op e = absurd (ground arith)

abbrev run_one : Run graph_topology note_schema two_ops 1 once_and_again
run_one =
    next (next (next start (arrive 0 first_op refl)) (arrive 0 first_op refl))
      (arrive 1 second_op refl)

abbrev run_two : Run graph_topology note_schema two_ops 2 early_and_late
run_two =
    next (next (next start (arrive 1 second_op refl)) (arrive 0 first_op refl))
      (arrive 1 second_op refl)

same_progress : once_and_again.applied_seq ≡ early_and_late.applied_seq
unfolding apply_remote route with_peer with_shared_ids wrap64 u64_mod
same_progress = refl

replicas_converge_example :
    (once_and_again.topology ≡ early_and_late.topology)
    × (once_and_again.schemas ≡ early_and_late.schemas)
replicas_converge_example =
    replicas_converge graph_topology note_schema two_ops 1 2 two_ops-IsLog run_one run_two
      same_progress

run-Synced_example : Synced graph_topology note_schema two_ops early_and_late
run-Synced_example = run-Synced graph_topology note_schema two_ops 2 two_ops-IsLog run_two

-- A replica that has nothing, and one that lacks the second op.
catch_up_complete_example :
    Synced graph_topology note_schema two_ops
      (fold_steps receive (drop (blank 3).applied_seq two_ops) (blank 3))
    × ((fold_steps receive (drop (blank 3).applied_seq two_ops) (blank 3)).applied_seq
        ≡ length two_ops)
catch_up_complete_example =
    catch_up_complete graph_topology note_schema two_ops (blank 3) two_ops-IsLog
      (run-Synced graph_topology note_schema two_ops 3 two_ops-IsLog start)

two_fit : (blank 1).applied_seq + length (second_op ∷ []) + 1 < u64_mod
unfolding u64_mod with_peer with_shared_ids
two_fit = omega arith

first_accepted : (apply_remote graph_topology note_schema first_op (blank 1)).1 ≡ ok
unfolding apply_remote route with_peer with_shared_ids wrap64 u64_mod
first_accepted = refl

-- The first op arrives again when the replica has the second too.
accepted_again_example :
    apply_remote graph_topology note_schema first_op (
      fold_steps
        (deliver graph_topology note_schema)
        (second_op ∷ [])
        (deliver graph_topology note_schema first_op (blank 1)))
    ≡ (
      fold_steps
          (deliver graph_topology note_schema)
          (second_op ∷ [])
          (deliver graph_topology note_schema first_op (blank 1)),
      ok,
    )
accepted_again_example =
    accepted_again graph_topology note_schema first_op (second_op ∷ []) (blank 1) two_fit
      first_accepted

one_fits : (blank 1).applied_seq + 1 < u64_mod
unfolding u64_mod with_peer with_shared_ids
one_fits = omega arith

create_node-echo_example :
    shared note_schema
      (apply_remote graph_topology note_schema
        (echo note_schema (blank 1))
        (create_node note_schema (blank 1)).1).0
    ≡ shared note_schema
        (apply_remote graph_topology note_schema (echo note_schema (blank 1)) (blank 1)).0
create_node-echo_example = create_node-echo note_schema (blank 1) one_fits

blank_acyclic : IsAcyclic (tree_parent (blank 1).topology)
unfolding with_peer with_shared_ids
blank_acyclic = default-IsAcyclic

move_node_outcome_example :
    (MakesCycle note_schema (blank 1) (id_of 1 0) (some (id_of 1 0))
      × (move_node note_schema (id_of 1 0) (some (id_of 1 0)) [] (blank 1) ≡ (false, blank 1)))
    ⊎ (¬ MakesCycle note_schema (blank 1) (id_of 1 0) (some (id_of 1 0))
        × ((move_node note_schema (id_of 1 0) (some (id_of 1 0)) [] (blank 1)).0 ≡ true)
        × ((move_node note_schema (id_of 1 0) (some (id_of 1 0)) [] (blank 1)).1.pending
            ≡ (blank 1).pending
              ++ Op.new (mint (blank 1).ids).0 (move (id_of 1 0) (some (id_of 1 0)) []) ∷ [])
        × (is_pending_move_target
              (id_of 1 0)
              (move_node note_schema (id_of 1 0) (some (id_of 1 0)) [] (blank 1)).1.topology
            ≡ true))
move_node_outcome_example =
    move_node_outcome note_schema (id_of 1 0) (some (id_of 1 0)) [] (blank 1) blank_acyclic
