-- ===== src/Graph/View/Descendants.antt =====
-- What `descendants` of crates/kyoso_graph_crdt/src/view.rs lists, and why its loop ends.
use kyosync.Prelude.{
  ℕ, zero, suc, ◌+◌, ◌≤◌, ◌<◌, ◌≡◌, ◌⊎◌, ap, sym, subst, ◌∙◌, List, [], ◌∷◌, ◌++◌, some, Bool, true,
  false, not, ◌&&◌, length, arith, inl, inr, Bool-cases, Option-cases, if◌then◌else◌,
}
use kyosync.Prelude.Order.{Ord, same, same_refl, eq_of_same}
use kyosync.Table.Set.{listed}
use kyosync.Crdt.Forest.{Reaches, here, above}
use kyosync.Crdt.Ident.{CrdtId, id_ord}
use kyosync.Graph.Topology.Defs.{GraphTopology, tree_parent}
use kyosync.Graph.Invariants.Clean.{live_has_parent}
use kyosync.Graph.View.{GraphView, topology_view, visit, is_child, descendants, descendants_loop}
use kyosync.Graph.View.Ancestors.{listed-append}

module _ (view : GraphView) ⦃o : Ord view.NodeId⦄ where
  -- How many entries of a list are not out yet.
  unseen : List view.NodeId → List view.NodeId → ℕ
  unseen out [] = 0
  unseen out (c ∷ cs) = let rest = unseen out cs in if listed c out then rest else suc rest

  unseen-more :
      (out : List view.NodeId) (c : view.NodeId) (cs : List view.NodeId)
      → unseen (out ++ c ∷ []) cs ≤ unseen out cs
  unfolding unseen
  unseen-more out c [] = omega arith
  unseen-more out c (d ∷ ds) = ground (arith, unseen-more out c ds, listed-append d out (c ∷ []))

  unseen-less :
      (out : List view.NodeId) (c : view.NodeId) (cs : List view.NodeId)
      → listed c out ≡ false
      → listed c cs ≡ true
      → unseen (out ++ c ∷ []) cs < unseen out cs
  unfolding unseen
  unseen-less out c [] h k = absurd (ground arith)
  unseen-less out c (d ∷ ds) h k = ground (
    arith,
    unseen-less out c ds h,
    unseen-more out c ds,
    listed-append d out (c ∷ []),
    o.eq_of_cmp c d,
    o.cmp_refl c,
  )

  -- What one run of the inner loop does to what is out and to the frontier.
  record Visited (keep : view.NodeId → Bool) (cs out frontier : List view.NodeId)
      (r : List view.NodeId × List view.NodeId) : Type 0 where
    fewer : length r.1 + unseen r.0 view.nodes ≤ length frontier + unseen out view.nodes
    kept_out : (x : view.NodeId) → listed x out ≡ true → listed x r.0 ≡ true
    kept_frontier : (x : view.NodeId) → listed x frontier ≡ true → listed x r.1 ≡ true
    all_out : (x : view.NodeId) → listed x cs ≡ true → keep x ≡ true → listed x r.0 ≡ true
    from_frontier :
        (x : view.NodeId) → listed x r.1 ≡ true → (listed x frontier ≡ true) ⊎ (listed x r.0 ≡ true)
    only_new :
        (x : view.NodeId)
        → listed x r.0 ≡ true
        → (listed x out ≡ true) ⊎ ((keep x ≡ true) × (listed x r.1 ≡ true))

  Visited-old :
      (keep : view.NodeId → Bool) (c : view.NodeId) (cs out frontier : List view.NodeId)
      (r : List view.NodeId × List view.NodeId)
      → (keep c && not (listed c out)) ≡ false
      → Visited keep cs out frontier r
      → Visited keep (c ∷ cs) out frontier r
  Visited-old keep c cs out frontier r old v = record {
    fewer = v.fewer;
    kept_out = v.kept_out;
    kept_frontier = v.kept_frontier;
    all_out = λ x h k. elim (Bool-cases (same x c)) [
      | inl hit ↦
          let this : x ≡ c = eq_of_same x c hit in
          let kept : keep c ≡ true = ap keep (sym this) ∙ k in
          let was : listed c out ≡ true = ground (arith, kept, old) in
          v.kept_out x (ap (λ y. listed y out) this ∙ was)
      | inr miss ↦ v.all_out x (ground (arith, miss)) k
    ];
    from_frontier = v.from_frontier;
    only_new = v.only_new;
  }

  Visited-new :
      (keep : view.NodeId → Bool) (c : view.NodeId) (cs out frontier : List view.NodeId)
      (r : List view.NodeId × List view.NodeId)
      → listed c view.nodes ≡ true
      → (keep c && not (listed c out)) ≡ true
      → Visited keep cs (out ++ c ∷ []) (c ∷ frontier) r
      → Visited keep (c ∷ cs) out frontier r
  Visited-new keep c cs out frontier r present new v =
      let unlisted : listed c out ≡ false = ground arith in
      let kept : keep c ≡ true = ground arith in
      record {
        fewer = omega (arith, v.fewer, unseen-less out c view.nodes unlisted present);
        kept_out = λ x h. v.kept_out x (ground (arith, listed-append x out (c ∷ [])));
        kept_frontier = λ x h. v.kept_frontier x (ground arith);
        all_out = λ x h k. elim (Bool-cases (same x c)) [
          | inl hit ↦ v.kept_out x (ground (arith, listed-append x out (c ∷ [])))
          | inr miss ↦ v.all_out x (ground (arith, miss)) k
        ];
        from_frontier = λ x h. elim (v.from_frontier x h) [
          | inr found ↦ inr found
          | inl earlier ↦ elim (Bool-cases (same x c)) [
            | inl hit ↦ inr (v.kept_out x (ground (arith, listed-append x out (c ∷ []))))
            | inr miss ↦ inl (ground arith)
          ]
        ];
        only_new = λ x h. elim (v.only_new x h) [
          | inr found ↦ inr found
          | inl earlier ↦ elim (Bool-cases (same x c)) [
            | inl hit ↦
                let this : x ≡ c = eq_of_same x c hit in
                inr (ap keep this ∙ kept, v.kept_frontier x (ground arith))
            | inr miss ↦ inl (ground (arith, listed-append x out (c ∷ [])))
          ]
        ];
      }

  visit_lem :
      (keep : view.NodeId → Bool) (cs out frontier : List view.NodeId)
      → ((c : view.NodeId) → listed c cs ≡ true → listed c view.nodes ≡ true)
      → Visited keep cs out frontier (visit view keep cs out frontier)
  unfolding visit
  visit_lem keep [] out frontier within = record {
    fewer = omega arith;
    kept_out = λ x h. h;
    kept_frontier = λ x h. h;
    all_out = λ x h k. absurd (ground arith);
    from_frontier = λ x h. inl h;
    only_new = λ x h. inl h;
  }
  visit_lem keep (c ∷ cs) out frontier within =
      let later : (d : view.NodeId) → listed d cs ≡ true → listed d view.nodes ≡ true =
        λ d h. within d (ground arith) in
      elim (Bool-cases (keep c && not (listed c out))) [
        | inl new ↦ rw new (
            Visited-new keep c cs out frontier _ (within c (ground (arith, same_refl c))) new
              (visit_lem keep cs (out ++ c ∷ []) (c ∷ frontier) later))
        | inr old ↦
            rw old (Visited-old keep c cs out frontier _ old (visit_lem keep cs out frontier later))
      ]

  -- Every node out is below the root, and one that is off the frontier has its children out.
  record Explored (root : view.NodeId) (out frontier : List view.NodeId) : Type 0 where
    below : (x : view.NodeId) → listed x out ≡ true → Reaches view.parent root x
    waiting_out : (x : view.NodeId) → listed x frontier ≡ true → listed x out ≡ true
    children_out :
        (n c : view.NodeId)
        → listed n out ≡ true
        → listed c view.nodes ≡ true
        → is_child view n c ≡ true
        → (listed n frontier ≡ true) ⊎ (listed c out ≡ true)

  is_child-parent : (n c : view.NodeId) → is_child view n c ≡ true → view.parent c ≡ some n
  is_child-parent n c h = elim (Option-cases (view.parent c)) [
    | inl e ↦ absurd (ground arith)
    | inr (p, e) ↦ e ∙ ap some (eq_of_same p n (ground arith))
  ]

  explore :
      (root n : view.NodeId) (out frontier : List view.NodeId)
      (r : List view.NodeId × List view.NodeId)
      → listed n out ≡ true
      → Explored root out (n ∷ frontier)
      → Visited (is_child view n) view.nodes out frontier r
      → Explored root r.0 r.1
  explore root n out frontier r met e v = record {
    below = λ x h. elim (v.only_new x h) [
      | inl old ↦ e.below x old
      | inr (child, f) ↦ above (is_child-parent n x child) (e.below n met)
    ];
    waiting_out = λ x h. elim (v.from_frontier x h) [
      | inl old ↦ v.kept_out x (e.waiting_out x (ground arith))
      | inr new ↦ new
    ];
    children_out = λ m c h present child. elim (v.only_new m h) [
      | inr (k, f) ↦ inl f
      | inl old ↦ elim (e.children_out m c old present child) [
        | inr there ↦ inr (v.kept_out c there)
        | inl waiting ↦ elim (Bool-cases (same m n)) [
          | inl hit ↦
              let this : m ≡ n = eq_of_same m n hit in
              inr (v.all_out c present (ap (λ y. is_child view y c) (sym this) ∙ child))
          | inr miss ↦ inl (v.kept_frontier m (ground (arith, miss)))
        ]
      ]
    ];
  }

  -- With fuel for what is on the frontier and what is not out yet, the loop ends with the frontier
  -- empty.
  explore_all :
      (root : view.NodeId) (fuel : ℕ) (out frontier : List view.NodeId)
      → length frontier + unseen out view.nodes < fuel
      → listed root out ≡ true
      → Explored root out frontier
      → Explored root (descendants_loop view fuel out frontier) []
        × (listed root (descendants_loop view fuel out frontier) ≡ true)
  unfolding descendants_loop
  explore_all root zero out frontier h met e = absurd (omega arith)
  explore_all root (suc fuel) out [] h met e = (e, met)
  explore_all root (suc fuel) out (n ∷ frontier) h met e =
      let r = visit view (is_child view n) view.nodes out frontier in
      let v = visit_lem (is_child view n) view.nodes out frontier (λ c present. present) in
      let n_out : listed n out ≡ true = e.waiting_out n (ground (arith, same_refl n)) in
      explore_all root fuel r.0 r.1 (omega (arith, v.fewer, h)) (v.kept_out root met)
        (explore root n out frontier r n_out e v)

  unseen-length : (out cs : List view.NodeId) → unseen out cs ≤ length cs
  unfolding unseen
  unseen-length out [] = omega arith
  unseen-length out (c ∷ cs) = ground (arith, unseen-length out cs)

  start-Explored : (root : view.NodeId) → Explored root (root ∷ []) (root ∷ [])
  start-Explored root = record {
    below = λ x h.
        let this : x ≡ root = eq_of_same x root (ground arith) in
        subst (Reaches view.parent root) (sym this) here;
    waiting_out = λ x h. h;
    children_out = λ n c h present child. inl h;
  }

  descendants_lem :
      (root x : view.NodeId)
      → ((k p : view.NodeId) → view.parent k ≡ some p → listed k view.nodes ≡ true)
      → (listed x (descendants view root) ≡ true → Reaches view.parent root x)
        × (Reaches view.parent root x → listed x (descendants view root) ≡ true)
  unfolding descendants
  descendants_lem root x all = (explored.below x, complete x)
    where
      finished :
          Explored root (descendants_loop view (length view.nodes + 2) (root ∷ []) (root ∷ [])) []
          × (listed root (descendants_loop view (length view.nodes + 2) (root ∷ []) (root ∷ []))
              ≡ true)
      finished =
          explore_all root (length view.nodes + 2) (root ∷ []) (root ∷ [])
            (omega (arith, unseen-length (root ∷ []) view.nodes)) (ground (arith, same_refl root))
            (start-Explored root)

      explored :
          Explored root (descendants_loop view (length view.nodes + 2) (root ∷ []) (root ∷ [])) []
      explored = finished.0

      complete :
          (y : view.NodeId)
          → Reaches view.parent root y
          → listed y (descendants_loop view (length view.nodes + 2) (root ∷ []) (root ∷ [])) ≡ true
      complete y here = finished.1
      complete y (above {p = p} e r) =
          let child : is_child view p y ≡ true = rw (e, is_child) (same_refl p) in
          elim (explored.children_out p y (complete p r) (all y p e) child) [
            | inl waiting ↦ absurd (ground arith)
            | inr found ↦ found
          ]

-- On any topology, a node is listed among the descendants of another exactly if it is that node or
-- below it by tree parents.
pub descendants_decided :
    (t : GraphTopology) (root x : CrdtId)
    → (listed x (descendants (topology_view t) root) ≡ true → Reaches (tree_parent t) root x)
      × (Reaches (tree_parent t) root x → listed x (descendants (topology_view t) root) ≡ true)
descendants_decided t root x = descendants_lem (topology_view t) root x (live_has_parent t)
