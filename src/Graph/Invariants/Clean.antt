-- ===== src/Graph/Invariants/Clean.antt =====
-- What the checks of crates/kyoso_graph_crdt/src/invariants.rs find in the states that ops reach.
use kyosync.Prelude.{
  ℕ, zero, suc, ◌+◌, ◌≤◌, ◌<◌, ◌≡◌, refl, ap, ap₂, sym, subst, ◌∙◌, List, [], ◌∷◌, ◌++◌, none, some,
  Bool, true, false, not, length, arith, inl, inr, Bool-cases, Option-cases, ltb, leb,
}
use kyosync.Prelude.Order.{same, eq_of_same}
use kyosync.Prelude.Occurs.{flat_map}
use kyosync.Table.{Table, get}
use kyosync.Table.Set.{listed}
use kyosync.Crdt.Ident.{CrdtId, id_ord}
use kyosync.Crdt.Context.{CausalContext}
use kyosync.Crdt.Forest.{Steps, Reaches, IsAcyclic, root, up, here, above}
use kyosync.Crdt.Forest.Depth.{Steps-unique, Steps-bound}
use kyosync.Graph.Op.{OpKind}
use kyosync.Graph.Topology.Defs.{
  GraphTopology, NodeStructure, default, tree_parent, edge_endpoints, live_node_ids, live_edge_ids,
  node_count, ids_where,
}
use kyosync.Graph.Topology.Acyclic.{would_create_cycle_decides}
use kyosync.Graph.Topology.Edges.{NoOrphans, apply_all, graph_invariants}
use kyosync.Graph.Invariants.{
  tree_walk, check_no_tree_cycles, orphan_at, check_no_orphan_edges, check_topology, cross_walk,
  cross_loop, pairs, cross_check_cycle_detection,
}

flat_map-nothing {ℓ κ} :
    {A : Type ℓ} {B : Type κ} (f : A → List B) (xs : List A)
    → ((x : A) → f x ≡ [])
    → flat_map f xs ≡ []
flat_map-nothing f [] h = refl
flat_map-nothing f (x ∷ xs) h = rw (h x) (flat_map-nothing f xs h)

listed-ids_where {ℓ} :
    {V : Type ℓ} (p : V → Bool) (k : CrdtId) (v : V) (m : Table CrdtId V)
    → get k m ≡ some v
    → p v ≡ true
    → listed k (ids_where p m) ≡ true
unfolding get ids_where
listed-ids_where p k v [] h e = absurd (ground arith)
listed-ids_where p k v ((j, w) ∷ m) h e = ground (arith, listed-ids_where p k v m)

-- Only live nodes have a parent.
pub live_has_parent :
    (t : GraphTopology) (k p : CrdtId)
    → tree_parent t k ≡ some p
    → listed k (live_node_ids t) ≡ true
unfolding tree_parent live_node_ids
live_has_parent t k p h = elim (Option-cases (get k t.nodes)) [
  | inl absent ↦ absurd (ground arith)
  | inr (rec, there) ↦ elim (Bool-cases rec.tombstoned) [
    | inl dead ↦ absurd (ground arith)
    | inr live ↦
        listed-ids_where (λ (rec : NodeStructure). not rec.tombstoned) k rec t.nodes there
          (rw live refl)
  ]
]

tree_walk-none :
    (t : GraphTopology) (start : CrdtId) (max_depth fuel steps : ℕ)
    → tree_walk t start max_depth fuel steps none ≡ []
unfolding tree_walk
tree_walk-none t start max_depth zero steps = refl
tree_walk-none t start max_depth (suc fuel) steps = refl

not_start :
    (t : GraphTopology) {n m : ℕ} (p start : CrdtId)
    → Steps (tree_parent t) m start
    → Steps (tree_parent t) n p
    → n < m
    → same p start ≡ false
not_start t {n} p start sm sn less = elim (Bool-cases (same p start)) [
  | inl hit ↦
      let again = subst (Steps (tree_parent t) n) (eq_of_same p start hit) sn in
      absurd (omega (arith, less, Steps-unique (tree_parent t) again sm))
  | inr miss ↦ miss
]

-- A walk up a tree never comes back to where it started, and ends within the bound.
tree_walk-clean :
    (t : GraphTopology) (start : CrdtId) (max_depth fuel steps : ℕ) {n m : ℕ} {p : CrdtId}
    → Steps (tree_parent t) m start
    → Steps (tree_parent t) n p
    → n < m
    → steps + suc n ≤ max_depth
    → tree_walk t start max_depth fuel steps (some p) ≡ []
unfolding tree_walk
tree_walk-clean t start max_depth zero steps sm sn less bound = refl
tree_walk-clean t start max_depth (suc fuel) steps {p = p} sm (root e) less bound =
    let within : ltb max_depth (suc steps) ≡ false = ground (arith, bound) in
    rw (not_start t p start sm (root e) less, within, e)
      (tree_walk-none t start max_depth fuel (suc steps))
tree_walk-clean t start max_depth (suc fuel) steps {p = p} sm (up e s) less bound =
    let within : ltb max_depth (suc steps) ≡ false = ground (arith, bound) in
    rw (not_start t p start sm (up e s) less, within, e)
      (tree_walk-clean t start max_depth fuel (suc steps) sm s (omega arith) (omega arith))

deep : (t : GraphTopology) {n : ℕ} {k : CrdtId} → Steps (tree_parent t) n k → n ≤ node_count t
unfolding node_count
deep t s = Steps-bound (tree_parent t) (live_node_ids t) (live_has_parent t) s

tree_walk-start :
    (t : GraphTopology) (start : CrdtId) (fuel : ℕ) {n : ℕ}
    → Steps (tree_parent t) n start
    → tree_walk t start (node_count t + 1) fuel 0 (tree_parent t start) ≡ []
tree_walk-start t start fuel (root e) =
    ap (tree_walk t start (node_count t + 1) fuel 0) e
    ∙ tree_walk-none t start (node_count t + 1) fuel 0
tree_walk-start t start fuel (up {n = n} e s) =
    let bound : suc n ≤ node_count t = deep t (up e s) in
    ap (tree_walk t start (node_count t + 1) fuel 0) e
    ∙ tree_walk-clean t start (node_count t + 1) fuel 0 (up e s) s (omega arith)
        (omega (arith, bound))

check_no_tree_cycles-clean :
    (t : GraphTopology) → IsAcyclic (tree_parent t) → check_no_tree_cycles t ≡ []
unfolding check_no_tree_cycles IsAcyclic
check_no_tree_cycles-clean t acyclic =
    flat_map-nothing _ (live_node_ids t)
      λ start. tree_walk-start t start (node_count t + 1 + 1) (acyclic start).1

check_no_orphan_edges-clean : (t : GraphTopology) → NoOrphans t → check_no_orphan_edges t ≡ []
unfolding check_no_orphan_edges
check_no_orphan_edges-clean t n = flat_map-nothing _ (live_edge_ids t) at_edge
  where
    at_edge :
        (id : CrdtId)
        → elim (edge_endpoints id t) [
          | none ↦ []
          | some (from, to) ↦ orphan_at t from ++ orphan_at t to
        ]
          ≡ []
    at_edge id = elim (Option-cases (edge_endpoints id t)) [
      | inl e ↦ rw e refl
      | inr (x, e) ↦ let (p, q) = n id x.0 x.1 e in rw (e, p, q) refl
    ]

cross_walk-none :
    (t : GraphTopology) (target : CrdtId) (nodes fuel steps : ℕ)
    → cross_walk t target nodes fuel steps none ≡ []
unfolding cross_walk
cross_walk-none t target nodes zero steps = refl
cross_walk-none t target nodes (suc fuel) steps = refl

-- A walk from a node that is not below the target does not meet it.
cross_walk-clean :
    (t : GraphTopology) (target : CrdtId) (nodes fuel steps : ℕ) (id : CrdtId)
    → ¬ Reaches (tree_parent t) target id
    → cross_walk t target nodes fuel steps (some id) ≡ []
unfolding cross_walk
cross_walk-clean t target nodes zero steps id r = refl
cross_walk-clean t target nodes (suc fuel) steps id r =
    let apart : same id target ≡ false = elim (Bool-cases (same id target)) [
      | inl hit ↦
          absurd (r (subst (Reaches (tree_parent t) target) (sym (eq_of_same id target hit)) here))
      | inr miss ↦ miss
    ] in
    let rest : cross_walk t target nodes fuel (suc steps) (tree_parent t id) ≡ [] =
      elim (Option-cases (tree_parent t id)) [
        | inl e ↦
            ap (cross_walk t target nodes fuel (suc steps)) e
            ∙ cross_walk-none t target nodes fuel (suc steps)
        | inr (p, e) ↦
            ap (cross_walk t target nodes fuel (suc steps)) e
            ∙ cross_walk-clean t target nodes fuel (suc steps) p (λ q. r (above e q))
      ] in
    elim (Bool-cases (ltb (nodes + 1) (suc steps))) [
      | inl long ↦ rw (apart, long) refl
      | inr short ↦ rw (apart, short) rest
    ]

cross_loop-clean :
    (t : GraphTopology) (nodes sample checks : ℕ) (ps : List (CrdtId × CrdtId))
    → IsAcyclic (tree_parent t)
    → cross_loop t nodes sample checks ps ≡ []
unfolding cross_loop
cross_loop-clean t nodes sample checks [] acyclic = refl
cross_loop-clean t nodes sample checks ((target, parent) ∷ ps) acyclic =
    elim (would_create_cycle_decides t target parent acyclic).1 [
      | inl (cycle, r) ↦ rw cycle (cross_loop-clean t nodes sample checks ps acyclic)
      | inr (safe, r) ↦
          let walked = cross_walk-clean t target nodes (nodes + 2) 0 parent r in
          elim (Bool-cases (leb sample (suc checks))) [
            | inl done ↦ rw (safe, walked, done) refl
            | inr more ↦
                rw (safe, walked, more) (cross_loop-clean t nodes sample (suc checks) ps acyclic)
          ]
    ]

-- Whatever ops are applied to an empty document in whatever order, the checks for cycles of the
-- tree and for orphaned edges report nothing, nor does the cross check of the cycle test, whatever
-- the sample and the order in which the hash map gives the nodes.
pub checks_clean :
    (ops : List (OpKind × CausalContext)) (nodes : List CrdtId) (sample : ℕ)
    → (check_topology (apply_all ops default) ≡ [])
      × (cross_check_cycle_detection (apply_all ops default) nodes sample ≡ [])
unfolding check_topology cross_check_cycle_detection
checks_clean ops nodes sample =
    let (acyclic, no_orphans) = graph_invariants ops in
    let t = apply_all ops default in
    (
      ap₂ (λ xs ys. xs ++ ys) (check_no_tree_cycles-clean t acyclic)
          (check_no_orphan_edges-clean t no_orphans),
      cross_loop-clean t (length nodes) sample 0 (pairs 0 nodes nodes) acyclic,
    )
