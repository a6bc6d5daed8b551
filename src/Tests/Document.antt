-- ===== src/Tests/Document.antt =====
-- The move log and the graph document on small inputs.
use kyosync.Prelude.{ℕ, some, none, [], ◌∷◌, ◌+◌, ◌≡◌, ◌⊎◌, refl, Bool, true, false, List, length}
use mathlib.Core.List.{Permᴰ}
use kyosync.Prelude.Reorder.{fold_steps}
use kyosync.Crdt.Ident.{GlobalSeq, id_ord}
use kyosync.Crdt.Context.{CausalContext}
use kyosync.Crdt.Forest.{walk, Reaches, IsAcyclic}
use kyosync.Crdt.MoveTree.{
  MoveTree, MoveTreeDelta, new, join, forest, parent_in, is_ancestor_or_self,
}
use kyosync.Crdt.MoveTree.Placed.{forest-IsAcyclic, ancestor_decided}
use kyosync.Crdt.MoveTree.Join.{receive, move_tree-IsSemilattice, move_tree_converges}
use kyosync.Graph.Op.{OpKind, add_node, remove_node, move, add_ref_edge, reference}
use kyosync.Graph.Topology.Defs.{GraphTopology, default, tree_parent, would_create_cycle}
use kyosync.Graph.Topology.Acyclic.{would_create_cycle_decides}
use kyosync.Graph.Topology.Edges.{NoOrphans, apply_all, graph_invariants}
use kyosync.Table.Sorted.{IsSorted}
use kyosync.Graph.Topology.Defs.{
  is_live_node, node_order_key, is_live_edge, edge_endpoints, edge_category, snapshot, restore,
}
use kyosync.Graph.Topology.Restored.{restore-snapshot}
use kyosync.Tests.Fixtures.{id_of, at}

-- Two moves that together would make a cycle.
abbrev crossing : MoveTree
crossing = record {
  log =
      (1, record { child = id_of 1 0; new_parent = some (id_of 1 1); position = [] })
      ∷ (2, record { child = id_of 1 1; new_parent = some (id_of 1 0); position = [] })
      ∷ [];
}

forest-IsAcyclic_example : IsAcyclic (parent_in (forest crossing))
forest-IsAcyclic_example = forest-IsAcyclic crossing

ancestor_decided_example :
    (b : Bool) × (walk
        (parent_in (forest crossing))
        (length (forest crossing) + 2)
        (id_of 1 1)
        (some (id_of 1 0))
      ≡ some b)
    × (is_ancestor_or_self (forest crossing) (id_of 1 1) (id_of 1 0) ≡ b)
    × (((b ≡ true) × Reaches (parent_in (forest crossing)) (id_of 1 1) (id_of 1 0))
        ⊎ ((b ≡ false) × ¬ Reaches (parent_in (forest crossing)) (id_of 1 1) (id_of 1 0)))
ancestor_decided_example =
    ancestor_decided (forest crossing) (id_of 1 1) (id_of 1 0) (forest-IsAcyclic crossing)

abbrev under_its_number : GlobalSeq → MoveTreeDelta
under_its_number seq = record { child = id_of 1 seq; new_parent = none; position = seq ∷ [] }

abbrev sent : ℕ → CausalContext × GlobalSeq
sent seq = (at (id_of 1 seq) none, seq)

move_tree_converges_example :
    (fold_steps (receive under_its_number) (sent 4 ∷ sent 9 ∷ []) new
      ≡ fold_steps (receive under_its_number) (sent 9 ∷ sent 4 ∷ []) new)
    × (forest (fold_steps (receive under_its_number) (sent 4 ∷ sent 9 ∷ []) new)
        ≡ forest (fold_steps (receive under_its_number) (sent 9 ∷ sent 4 ∷ []) new))
unfolding new
move_tree_converges_example = move_tree_converges under_its_number (Permᴰ.swap refl refl) new tt

move_tree-IsSemilattice_example : join crossing crossing ≡ crossing
move_tree-IsSemilattice_example = move_tree-IsSemilattice.idem crossing ((refl, tt), (tt, tt))

-- Two nodes, each moved under the other, and an edge whose end is removed.
abbrev ops : List (OpKind × CausalContext)
ops =
    (add_node, at (id_of 1 0) (some 1))
    ∷ (add_node, at (id_of 1 1) (some 2))
    ∷ (move (id_of 1 0) (some (id_of 1 1)) [], at (id_of 1 2) (some 3))
    ∷ (move (id_of 1 1) (some (id_of 1 0)) [], at (id_of 2 0) (some 4))
    ∷ (add_ref_edge reference (id_of 1 0) (id_of 1 1), at (id_of 2 1) (some 5))
    ∷ (remove_node (id_of 1 1), at (id_of 2 2) (some 6))
    ∷ []

abbrev document : GraphTopology
document = apply_all ops default

graph_invariants_example : IsAcyclic (tree_parent document) × NoOrphans document
graph_invariants_example = graph_invariants ops

would_create_cycle_decides_example :
    ((b : Bool) × (walk
          (tree_parent document)
          (length document.nodes + 2)
          (id_of 1 1)
          (some (id_of 1 0))
        ≡ some b))
    × (((would_create_cycle document (id_of 1 1) (id_of 1 0) ≡ true)
          × Reaches (tree_parent document) (id_of 1 1) (id_of 1 0))
        ⊎ ((would_create_cycle document (id_of 1 1) (id_of 1 0) ≡ false)
            × ¬ Reaches (tree_parent document) (id_of 1 1) (id_of 1 0)))
would_create_cycle_decides_example =
    would_create_cycle_decides document (id_of 1 1) (id_of 1 0) (graph_invariants ops).0

-- A removed node and one that was under it.
abbrev half : GraphTopology
half = record {
  nodes =
      (id_of 1 0, record { tombstoned = true; order_key = none; tree_parent = none })
      ∷ (
        id_of 1 1,
        record { tombstoned = false; order_key = some []; tree_parent = some (id_of 1 0) },
      )
      ∷ [];
  edges = [];
  pending_moves = [];
}

half_sorted : IsSorted half.nodes
unfolding id_ord
half_sorted = ((refl, tt), (tt, tt))

restore-snapshot_example :
    (is_live_node (id_of 1 1) (restore (snapshot half) default) ≡ is_live_node (id_of 1 1) half)
    × (tree_parent (restore (snapshot half) default) (id_of 1 1) ≡ tree_parent half (id_of 1 1))
    × (node_order_key (id_of 1 1) (restore (snapshot half) default)
        ≡ node_order_key (id_of 1 1) half)
    × (is_live_edge (id_of 1 1) (restore (snapshot half) default) ≡ is_live_edge (id_of 1 1) half)
    × (edge_endpoints (id_of 1 1) (restore (snapshot half) default)
        ≡ edge_endpoints (id_of 1 1) half)
    × (edge_category (id_of 1 1) (restore (snapshot half) default) ≡ edge_category (id_of 1 1) half)
restore-snapshot_example = restore-snapshot half default half_sorted tt (id_of 1 1)
