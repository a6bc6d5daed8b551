-- ===== src/Graph/Topology/Acyclic.antt =====
-- The tree of crates/kyoso_graph_crdt/src/topology.rs and its cycle test, `would_create_cycle` of
-- view.rs.
use kyosync.Prelude.{
  ◌+◌, suc, zero, Option, none, some, [], ◌∷◌, Bool, true, false, ◌≡◌, ◌⊎◌, refl, ap, arith, length,
  inl, inr, Option-cases, Bool-cases,
}
use kyosync.Prelude.Order.{same, eq_of_same}
use kyosync.Table.{Table, get, keys}
use kyosync.Table.Set.{listed}
use kyosync.Crdt.Ident.{CrdtId, id_ord}
use kyosync.Crdt.Context.{CausalContext}
use kyosync.Crdt.Forest.{walk, Reaches, IsAcyclic, root, here}
use kyosync.Crdt.Forest.Depth.{Steps-bound, walk_decides}
use kyosync.Crdt.Forest.Reparent.{acyclic_moved, acyclic_same}
use kyosync.Graph.Op.{
  OpKind, add_node, remove_node, move, add_ref_edge, remove_ref_edge, set_node_property,
  set_ref_edge_property,
}
use kyosync.Graph.Topology.Defs.{
  GraphTopology, default, tree_parent, is_live_node, would_create_cycle, move_blocked,
  apply_structural_op,
}
use kyosync.Graph.Topology.Live.{
  EdgeOp, adds, removes, sets_node, sets_edge, tree_parent-EdgeOp, tree_parent-add_node,
  tree_parent-remove_node, tree_parent-move_live, tree_parent-move_idle,
}

listed-keys {ℓ} :
    {V : Type ℓ} (k : CrdtId) (v : V) (m : Table CrdtId V)
    → get k m ≡ some v
    → listed k (keys m) ≡ true
unfolding get keys
listed-keys k v [] h = absurd (ground arith)
listed-keys k v ((j, w) ∷ m) h = ground (arith, listed-keys k v m)

length-keys {ℓ} : {V : Type ℓ} (m : Table CrdtId V) → length (keys m) ≡ length m
unfolding keys
length-keys [] = refl
length-keys ((j, w) ∷ m) = ap suc (length-keys m)

parent_listed :
    (t : GraphTopology) (k p : CrdtId) → tree_parent t k ≡ some p → listed k (keys t.nodes) ≡ true
unfolding tree_parent
parent_listed t k p h = elim (Option-cases (get k t.nodes)) [
  | inl e ↦ absurd (ground arith)
  | inr (v, e) ↦ listed-keys k v t.nodes e
]

-- On a tree without cycles the loop of would_create_cycle ends within the fuel of two more steps
-- than there are nodes, and the answer is true exactly where the target is the proposed parent or
-- above it.
pub would_create_cycle_decides :
    (t : GraphTopology) (target parent : CrdtId)
    → IsAcyclic (tree_parent t)
    → ((b : Bool) × (walk (tree_parent t) (length t.nodes + 2) target (some parent) ≡ some b))
      × (((would_create_cycle t target parent ≡ true) × Reaches (tree_parent t) target parent)
          ⊎ ((would_create_cycle t target parent ≡ false)
              × ¬ Reaches (tree_parent t) target parent))
unfolding IsAcyclic would_create_cycle
would_create_cycle_decides t target parent acyclic =
    let (n, s) = acyclic parent in
    let enough = Steps-bound (tree_parent t) (keys t.nodes) (parent_listed t) s in
    elim (walk_decides (tree_parent t) (length t.nodes + 2) target s
      (omega (arith, length-keys t.nodes))) [
        | inl (w, r) ↦ ((true, w), inl (ground (arith, w), r))
        | inr (w, r) ↦ (
          (false, w),
          inr (elim (Bool-cases (same target parent)) [
            | inl hit ↦ absurd (r (rw (eq_of_same target parent hit) here))
            | inr miss ↦ (ground (arith, w), r)
          ]),
        )
      ]

-- A move that is not blocked is not under the node's own subtree.
safe_move :
    (t : GraphTopology) (target : CrdtId) (new : Option CrdtId)
    → IsAcyclic (tree_parent t)
    → move_blocked target new t ≡ false
    → (p : CrdtId) → new ≡ some p
    → ¬ Reaches (tree_parent t) target p
unfolding move_blocked
safe_move t target new acyclic free p e =
    let no : would_create_cycle t target p ≡ false = rw e at free in
    elim (would_create_cycle_decides t target p acyclic).1 [
      | inl (hit, r) ↦ absurd (ground arith)
      | inr (miss, r) ↦ r
    ]

EdgeOp-IsAcyclic :
    {op : OpKind}
    → EdgeOp op
    → (ctx : CausalContext) (t : GraphTopology) → IsAcyclic (tree_parent t)
    → IsAcyclic (tree_parent (apply_structural_op op ctx t))
EdgeOp-IsAcyclic {op} e ctx t a =
    acyclic_same (tree_parent t) (tree_parent (apply_structural_op op ctx t))
      (tree_parent-EdgeOp ctx t e) a

-- No op makes a cycle in the tree.
pub apply_structural_op-IsAcyclic :
    (op : OpKind) (ctx : CausalContext) (t : GraphTopology)
    → IsAcyclic (tree_parent t)
    → IsAcyclic (tree_parent (apply_structural_op op ctx t))
apply_structural_op-IsAcyclic add_node ctx t a =
    acyclic_same (tree_parent t) (tree_parent (apply_structural_op add_node ctx t))
      (tree_parent-add_node ctx t) a
apply_structural_op-IsAcyclic (remove_node target) ctx t a =
    acyclic_moved (tree_parent t) (tree_parent (apply_structural_op (remove_node target) ctx t))
      target none (tree_parent-remove_node ctx t target) (λ p e. absurd (ground arith)) a
apply_structural_op-IsAcyclic (move target new position) ctx t a =
    let moved = tree_parent (apply_structural_op (move target new position) ctx t) in
    elim (Bool-cases (move_blocked target new t)) [
      | inl blocked ↦
          acyclic_same (tree_parent t) moved
            (tree_parent-move_idle ctx t target new position (ground arith)) a
      | inr free ↦ elim (Bool-cases (is_live_node target t)) [
        | inl live ↦
            acyclic_moved (tree_parent t) moved target new
              (tree_parent-move_live ctx t target new position free live)
              (safe_move t target new a free) a
        | inr dead ↦
            acyclic_same (tree_parent t) moved
              (tree_parent-move_idle ctx t target new position (ground arith)) a
      ]
    ]
apply_structural_op-IsAcyclic (add_ref_edge category from to) ctx t a =
    EdgeOp-IsAcyclic (adds category from to) ctx t a
apply_structural_op-IsAcyclic (remove_ref_edge target) ctx t a =
    EdgeOp-IsAcyclic (removes target) ctx t a
apply_structural_op-IsAcyclic (set_node_property target path delta) ctx t a =
    EdgeOp-IsAcyclic (sets_node target path delta) ctx t a
apply_structural_op-IsAcyclic (set_ref_edge_property target path delta) ctx t a =
    EdgeOp-IsAcyclic (sets_edge target path delta) ctx t a

pub default-IsAcyclic : IsAcyclic (tree_parent default)
unfolding IsAcyclic tree_parent get default
default-IsAcyclic k = (zero, root refl)
