-- ===== src/Crdt/MoveTree/Placed.antt =====
-- The placement that `forest` of crates/kyoso_crdt/src/types/move_tree.rs computes.
use kyosync.Prelude.{
  ◌+◌, suc, zero, ◌≡◌, refl, ap, some, List, [], ◌∷◌, Bool, true, false, length, arith, inl, inr,
  ◌⊎◌, Bool-cases, Option-cases, if◌then◌else◌,
}
use kyosync.Prelude.Order.{same}
use kyosync.Table.{get, insert, keys, values}
use kyosync.Table.Laws.{get-insert}
use kyosync.Table.Set.{listed}
use kyosync.Crdt.Ident.{CrdtId, id_ord}
use kyosync.Crdt.Forest.{walk, Reaches, IsAcyclic, root}
use kyosync.Crdt.Forest.Depth.{Steps-bound, walk_decides}
use kyosync.Crdt.Forest.Reparent.{acyclic_moved}
use kyosync.Crdt.MoveTree.{
  MoveRecord, MoveNode, MoveTree, Placement, parent_in, is_ancestor_or_self, forms_cycle, place,
  place_all, forest,
}

listed-keys :
    (k : CrdtId) (v : MoveNode) (tree : Placement)
    → get k tree ≡ some v
    → listed k (keys tree) ≡ true
unfolding get keys
listed-keys k v [] h = absurd (ground arith)
listed-keys k v ((j, w) ∷ tree) h = ground (arith, listed-keys k v tree)

length-keys : (tree : Placement) → length (keys tree) ≡ length tree
unfolding keys
length-keys [] = refl
length-keys ((j, w) ∷ tree) = ap suc (length-keys tree)

parent_listed :
    (tree : Placement) (k p : CrdtId) → parent_in tree k ≡ some p → listed k (keys tree) ≡ true
unfolding parent_in
parent_listed tree k p h = elim (Option-cases (get k tree)) [
  | inl e ↦ absurd (ground arith)
  | inr (v, e) ↦ listed-keys k v tree e
]

-- On a forest the loop of is_ancestor_or_self ends within the fuel of two more steps than there
-- are nodes, and its answer says whether the first node is the second or above it.
pub ancestor_decided :
    (tree : Placement) (ancestor node : CrdtId)
    → IsAcyclic (parent_in tree)
    → (b : Bool) × (walk (parent_in tree) (length tree + 2) ancestor (some node) ≡ some b)
      × (is_ancestor_or_self tree ancestor node ≡ b)
      × (((b ≡ true) × Reaches (parent_in tree) ancestor node)
          ⊎ ((b ≡ false) × ¬ Reaches (parent_in tree) ancestor node))
unfolding IsAcyclic is_ancestor_or_self
ancestor_decided tree ancestor node acyclic =
    let (n, s) = acyclic node in
    let enough = Steps-bound (parent_in tree) (keys tree) (parent_listed tree) s in
    elim (walk_decides (parent_in tree) (length tree + 2) ancestor s
      (omega (arith, length-keys tree))) [
        | inl (w, r) ↦ (true, w, rw w refl, inl (refl, r))
        | inr (w, r) ↦ (false, w, rw w refl, inr (refl, r))
      ]

parent_moved :
    (tree : Placement) (rec : MoveRecord) (k : CrdtId)
    → parent_in
        (insert rec.child (record { parent = rec.new_parent; position = rec.position }) tree)
        k
      ≡ (if same k rec.child then rec.new_parent else parent_in tree k)
unfolding parent_in
parent_moved tree rec k = ground (
  arith,
  get-insert k rec.child (record { parent = rec.new_parent; position = rec.position }) tree,
)

-- A move that passes the test is not under the node's own subtree.
safe_move :
    (tree : Placement) (rec : MoveRecord)
    → IsAcyclic (parent_in tree)
    → forms_cycle tree rec ≡ false
    → (p : CrdtId) → rec.new_parent ≡ some p
    → ¬ Reaches (parent_in tree) rec.child p
unfolding forms_cycle
safe_move tree rec acyclic pass p e =
    let (b, w, answer, cases) = ancestor_decided tree rec.child p acyclic in
    let no : is_ancestor_or_self tree rec.child p ≡ false = rw e at pass in
    elim cases [ inl (hit, r) ↦ absurd (ground arith) | inr (miss, r) ↦ r ]

place-IsAcyclic :
    (rec : MoveRecord) (tree : Placement)
    → IsAcyclic (parent_in tree)
    → IsAcyclic (parent_in (place rec tree))
unfolding place
place-IsAcyclic rec tree acyclic = elim (Bool-cases (forms_cycle tree rec)) [
  | inl cycle ↦ rw cycle acyclic
  | inr pass ↦ rw pass (
      acyclic_moved (parent_in tree)
        (parent_in
          (insert rec.child (record { parent = rec.new_parent; position = rec.position }) tree))
        rec.child rec.new_parent (parent_moved tree rec) (safe_move tree rec acyclic pass) acyclic)
]

place_all-IsAcyclic :
    (recs : List MoveRecord) (tree : Placement)
    → IsAcyclic (parent_in tree)
    → IsAcyclic (parent_in (place_all recs tree))
unfolding place_all
place_all-IsAcyclic [] tree acyclic = acyclic
place_all-IsAcyclic (rec ∷ recs) tree acyclic =
    place_all-IsAcyclic recs (place rec tree) (place-IsAcyclic rec tree acyclic)

nothing_placed : IsAcyclic (parent_in [])
unfolding IsAcyclic parent_in get
nothing_placed k = (zero, root refl)

-- Whatever moves a log holds, the forest that it materialises has no cycle.
pub forest-IsAcyclic : (t : MoveTree) → IsAcyclic (parent_in (forest t))
unfolding forest
forest-IsAcyclic t = place_all-IsAcyclic (values t.log) [] nothing_placed
