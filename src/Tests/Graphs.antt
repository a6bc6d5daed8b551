-- ===== src/Tests/Graphs.antt =====
-- The walks and checks on a graph, and maps of registers, on small inputs.
use kyosync.Prelude.{some, List, [], ◌∷◌, ◌≡◌, true}
use kyosync.Table.Set.{listed}
use kyosync.Crdt.Ident.{CrdtId, id_ord}
use kyosync.Crdt.Context.{CausalContext}
use kyosync.Crdt.Forest.{Reaches}
use kyosync.Crdt.CausalMap.{MapDelta, put, new, apply, apply_wire, into_wire_op}
use kyosync.Crdt.CausalMap.Wired.{map_lands, map-IsWired, register-IsWired, register_of, map_of}
use kyosync.Graph.Op.{OpKind, add_node, move}
use kyosync.Graph.Topology.Defs.{default, tree_parent}
use kyosync.Graph.Topology.Edges.{apply_all}
use kyosync.Graph.Invariants.{check_topology, cross_check_cycle_detection}
use kyosync.Graph.Invariants.Clean.{checks_clean}
use kyosync.Graph.View.{ancestors, descendants, topology_view}
use kyosync.Graph.View.Ancestors.{ancestors_decided}
use kyosync.Graph.View.Descendants.{descendants_decided}
use kyosync.Tests.Fixtures.{id_of, at, number_codec}

-- Two nodes, and the first moved under the second and then the second under the first.
abbrev moves : List (OpKind × CausalContext)
moves =
    (add_node, at (id_of 1 0) (some 1))
    ∷ (add_node, at (id_of 1 1) (some 2))
    ∷ (move (id_of 1 0) (some (id_of 1 1)) [], at (id_of 1 2) (some 3))
    ∷ (move (id_of 1 1) (some (id_of 1 0)) [], at (id_of 2 0) (some 4))
    ∷ []

checks_clean_example :
    (check_topology (apply_all moves default) ≡ [])
    × (cross_check_cycle_detection (apply_all moves default) (id_of 1 1 ∷ id_of 1 0 ∷ []) 10 ≡ [])
checks_clean_example = checks_clean moves (id_of 1 1 ∷ id_of 1 0 ∷ []) 10

ancestors_decided_example :
    (listed (id_of 1 1) (ancestors (topology_view (apply_all moves default)) (id_of 1 0)) ≡ true
      → (p : CrdtId) × (tree_parent (apply_all moves default) (id_of 1 0) ≡ some p)
        × Reaches (tree_parent (apply_all moves default)) (id_of 1 1) p)
    × ((p : CrdtId)
        → tree_parent (apply_all moves default) (id_of 1 0) ≡ some p
        → Reaches (tree_parent (apply_all moves default)) (id_of 1 1) p
        → listed (id_of 1 1) (ancestors (topology_view (apply_all moves default)) (id_of 1 0))
          ≡ true)
ancestors_decided_example = ancestors_decided moves (id_of 1 0) (id_of 1 1)

descendants_decided_example :
    (listed (id_of 1 0) (descendants (topology_view (apply_all moves default)) (id_of 1 1)) ≡ true
      → Reaches (tree_parent (apply_all moves default)) (id_of 1 1) (id_of 1 0))
    × (Reaches (tree_parent (apply_all moves default)) (id_of 1 1) (id_of 1 0)
        → listed (id_of 1 0) (descendants (topology_view (apply_all moves default)) (id_of 1 1))
          ≡ true)
descendants_decided_example = descendants_decided (apply_all moves default) (id_of 1 1) (id_of 1 0)

-- A write to the register at key 2 of the map at key 1.
abbrev inner_write : MapDelta (map_of (register_of number_codec))
inner_write = put (1 ∷ []) (put (2 ∷ []) (record { value = 7 }))

map_lands_example :
    apply_wire
      (map_of (register_of number_codec))
      (into_wire_op (map_of (register_of number_codec)) inner_write).0
      (into_wire_op (map_of (register_of number_codec)) inner_write).1
      (at (id_of 1 0) (some 1))
      (new (map_of (register_of number_codec)))
    ≡ apply
        (map_of (register_of number_codec))
        inner_write
        (at (id_of 1 0) (some 1))
        (new (map_of (register_of number_codec)))
map_lands_example =
    map_lands (map_of (register_of number_codec)) inner_write (at (id_of 1 0) (some 1))
      (new (map_of (register_of number_codec)))
      (map-IsWired (register_of number_codec) (register-IsWired number_codec))
