-- ===== src/Graph/Backend/Local.antt =====
-- Local work on a document and its echo, for crates/kyoso_graph_crdt/src/graph_backend.rs.
use kyosync.Prelude.{
  ◌+◌, ◌<◌, Option, none, some, [], ◌∷◌, ◌++◌, true, false, ◌⊎◌, ◌≡◌, refl, ap, sym, ◌∙◌, arith,
  inl, inr, Option-cases, u64_mod,
}
use kyosync.Prelude.Order.{same_refl}
use kyosync.Table.{Table, get, insert, or_insert}
use kyosync.Table.Laws.{get-insert}
use kyosync.Crdt.Ident.{CrdtId, id_ord, mint}
use kyosync.Crdt.Delta.{Text}
use kyosync.Crdt.Op.{Op, with_seq}
use kyosync.Crdt.Op
use kyosync.Crdt.Topology.{Schema}
use kyosync.Crdt.Forest.{IsAcyclic, Reaches}
use kyosync.Crdt.Backend.Defs.{Backend, apply_remote, route}
use kyosync.Crdt.Backend.Defs
use kyosync.Crdt.Backend.Replica.{apply_remote_outcome}
use kyosync.Graph.Op.{OpKind, add_node, move}
use kyosync.Graph.Topology.Defs.{
  GraphTopology, graph_topology, tree_parent, move_blocked, track_pending_move,
  is_pending_move_target, names_target, apply_structural_op, extract_property_op,
  extract_new_entity_id,
}
use kyosync.Graph.Topology.Acyclic.{would_create_cycle_decides}
use kyosync.Graph.Backend.{GraphBackend, create_node, move_node}

or_insert_twice {ℓ} :
    {V : Type ℓ} (k : CrdtId) (v : V) (m : Table CrdtId V)
    → or_insert k v (or_insert k v m) ≡ or_insert k v m
unfolding or_insert
or_insert_twice k v m = elim (Option-cases (get k m)) [
  | inl e ↦ ground (arith, get-insert k k v m, same_refl k)
  | inr (w, e) ↦ ground arith
]

names_target-insert :
    (op target : CrdtId) (m : Table CrdtId CrdtId) → names_target target (insert op target m) ≡ true
unfolding names_target insert
names_target-insert op target [] = ground (arith, same_refl target)
names_target-insert op target ((j, t) ∷ m) =
    ground (arith, same_refl target, names_target-insert op target m)

module _ (S : Schema) where
  -- The state of a document that replicas share.
  abbrev pub shared : GraphBackend S → GraphTopology × Table CrdtId S.State
  shared b = (b.topology, b.schemas)

  -- The op that a new node queues, as the log has it next.
  abbrev pub echo : GraphBackend S → Op OpKind
  echo b = with_seq (b.applied_seq + 1) (Op.new (create_node S b).0 add_node)

  echo_alone :
      (b : GraphBackend S)
      → b.applied_seq + 1 < u64_mod
      → shared (apply_remote graph_topology S (echo b) b).0
        ≡ shared (route graph_topology S (echo b) b)
  echo_alone b fits = ground (arith, apply_remote_outcome graph_topology S (echo b) b fits)

  create_seq : (b : GraphBackend S) → (create_node S b).1.applied_seq ≡ b.applied_seq
  unfolding create_node Defs.mint_id Defs.ensure_schema Defs.enqueue
  create_seq b = refl

  echo_after :
      (b : GraphBackend S)
      → b.applied_seq + 1 < u64_mod
      → shared (apply_remote graph_topology S (echo b) (create_node S b).1).0
        ≡ shared (route graph_topology S (echo b) (create_node S b).1)
  echo_after b fits = ground (
    arith,
    create_seq b,
    apply_remote_outcome graph_topology S (echo b) (create_node S b).1
        (omega (arith, create_seq b)),
  )

  route_twice :
      (b : GraphBackend S)
      → shared (route graph_topology S (echo b) (create_node S b).1)
        ≡ shared (route graph_topology S (echo b) b)
  unfolding create_node Defs.mint_id Defs.ensure_schema Defs.enqueue route extract_property_op
      extract_new_entity_id apply_structural_op
  route_twice b =
      ap
        (λ m. (
          apply_structural_op add_node (Defs.context graph_topology S (echo b) b.causal) b.topology,
          m,
        ))
        (or_insert_twice (mint b.ids).0 S.default b.schemas)

  -- The schema that a new node is given before its echo makes no difference after it: where the
  -- echo is the next op of the log, the topology and the schemas are then as on a replica that had
  -- only the echo, while the applied number stays below 2^64 - 1.
  pub create_node-echo :
      (b : GraphBackend S)
      → b.applied_seq + 1 < u64_mod
      → shared (apply_remote graph_topology S (echo b) (create_node S b).1).0
        ≡ shared (apply_remote graph_topology S (echo b) b).0
  create_node-echo b fits = echo_after b fits ∙ route_twice b ∙ sym (echo_alone b fits)

  -- The node is the parent it is to have, or above it.
  abbrev pub MakesCycle : GraphBackend S → CrdtId → Option CrdtId → Type 0
  MakesCycle b target none = ⊥
  MakesCycle b target (some p) = Reaches (tree_parent b.topology) target p

  blocked_cases :
      (target : CrdtId) (parent : Option CrdtId) (b : GraphBackend S)
      → IsAcyclic (tree_parent b.topology)
      → ((move_blocked target parent b.topology ≡ true) × MakesCycle b target parent)
        ⊎ ((move_blocked target parent b.topology ≡ false) × ¬ MakesCycle b target parent)
  unfolding move_blocked
  blocked_cases target none b acyclic = inr (refl, λ h. h)
  blocked_cases target (some p) b acyclic =
      (would_create_cycle_decides b.topology target p acyclic).1

  -- On a tree without cycles, a local move of a node under itself or a node below it is refused
  -- and changes nothing; any other queues its op under the next id and marks the node as moving.
  pub move_node_outcome :
      (target : CrdtId) (parent : Option CrdtId) (position : Text) (b : GraphBackend S)
      → IsAcyclic (tree_parent b.topology)
      → (MakesCycle b target parent × (move_node S target parent position b ≡ (false, b)))
        ⊎ (¬ MakesCycle b target parent
            × ((move_node S target parent position b).0 ≡ true)
            × ((move_node S target parent position b).1.pending
                ≡ b.pending ++ Op.new (mint b.ids).0 (move target parent position) ∷ [])
            × (is_pending_move_target target (move_node S target parent position b).1.topology
                ≡ true))
  unfolding move_node Defs.queue_op Defs.mint_id Defs.enqueue is_pending_move_target
      track_pending_move
  move_node_outcome target parent position b acyclic =
      elim (blocked_cases target parent b acyclic) [
        | inl (blocked, cycle) ↦ inl (cycle, rw (move_node, blocked) refl)
        | inr (free, safe) ↦ inr (
          safe,
          rw (move_node, free) refl,
          rw (move_node, free) refl,
          rw (move_node, free) (names_target-insert (mint b.ids).0 target b.topology.pending_moves),
        )
      ]
