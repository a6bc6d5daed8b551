-- ===== src/Graph/View/Ancestors.antt =====
-- What `ancestors` of crates/kyoso_graph_crdt/src/view.rs lists.
use kyosync.Prelude.{
  ℕ, zero, suc, ◌+◌, ◌<◌, ◌≡◌, ◌⊎◌, refl, ap, sym, subst, ◌∙◌, List, [], ◌∷◌, ◌++◌, none, some,
  true, false, ◌||◌, length, arith, inl, inr, Bool-cases,
}
use kyosync.Prelude.Order.{Ord, same, same_refl, eq_of_same}
use kyosync.Prelude.Occurs.{append_assoc}
use kyosync.Table.Set.{listed}
use kyosync.Crdt.Forest.{Steps, Reaches, IsAcyclic, root, up, here, above}
use kyosync.Crdt.Forest.Depth.{Steps-unique, Steps-bound}
use kyosync.Crdt.Ident.{CrdtId, id_ord}
use kyosync.Crdt.Context.{CausalContext}
use kyosync.Graph.Op.{OpKind}
use kyosync.Graph.Topology.Defs.{tree_parent, default}
use kyosync.Graph.Topology.Edges.{apply_all, graph_invariants}
use kyosync.Graph.Invariants.Clean.{live_has_parent}
use kyosync.Graph.View.{topology_view, GraphView, ancestors, ancestors_loop}

pub listed-append {ℓ} :
    {K : Type ℓ} ⦃o : Ord K⦄ (x : K) (ys zs : List K)
    → listed x (ys ++ zs) ≡ (listed x ys || listed x zs)
listed-append x [] zs = refl
listed-append x (y ∷ ys) zs = ground (arith, listed-append x ys zs)

module _ (view : GraphView) ⦃o : Ord view.NodeId⦄ where
  -- A node and what is above it.
  chain : {n : ℕ} {k : view.NodeId} → Steps view.parent n k → List view.NodeId
  chain (root {k = k} e) = k ∷ []
  chain (up {k = k} e s) = k ∷ chain s

  of_chain :
      {n : ℕ} {k : view.NodeId} (x : view.NodeId) (s : Steps view.parent n k)
      → listed x (chain s) ≡ true
      → Reaches view.parent x k
  unfolding chain
  of_chain x (root {k = k} e) h =
      let this : k ≡ x = sym (eq_of_same x k (ground arith)) in
      subst (Reaches view.parent x) (sym this) here
  of_chain x (up {k = k} e s) h = elim (Bool-cases (same x k)) [
    | inl hit ↦ subst (Reaches view.parent x) (eq_of_same x k hit) here
    | inr miss ↦ above e (of_chain x s (ground arith))
  ]

  to_chain :
      {n : ℕ} {k : view.NodeId} (x : view.NodeId) (s : Steps view.parent n k)
      → Reaches view.parent x k
      → listed x (chain s) ≡ true
  unfolding chain
  to_chain x (root e) here = ground (arith, same_refl x)
  to_chain x (root e) (above f r) = absurd (ground arith)
  to_chain x (up e s) here = ground (arith, same_refl x)
  to_chain x (up {p = p} e s) (above {p = q} f r) =
      let same_parent : q ≡ p = ground arith in
      ground (arith, to_chain x s (subst (Reaches view.parent x) same_parent r))

  -- What the loop has met lies further down than the cursor.
  IsLower : ℕ → view.NodeId → List view.NodeId → Type 0
  IsLower n start out =
      (x : view.NodeId)
      → (listed x out ≡ true) ⊎ (x ≡ start)
      → (m : ℕ) × (n < m) × Steps view.parent m x

  unmet :
      {n : ℕ} {id : view.NodeId} (start : view.NodeId) (out : List view.NodeId)
      → Steps view.parent n id
      → IsLower n start out
      → (listed id out || same id start) ≡ false
  unfolding IsLower
  unmet {n} {id} start out s low = elim (Bool-cases (listed id out)) [
    | inl hit ↦
        let (m, less, t) = low id (inl hit) in
        absurd (omega (arith, less, Steps-unique view.parent s t))
    | inr miss ↦ elim (Bool-cases (same id start)) [
      | inl hit ↦
          let (m, less, t) = low id (inr (eq_of_same id start hit)) in
          absurd (omega (arith, less, Steps-unique view.parent s t))
      | inr other ↦ rw (miss, other) refl
    ]
  ]

  append-IsLower :
      {n : ℕ} {id : view.NodeId} (start : view.NodeId) (out : List view.NodeId)
      → Steps view.parent (suc n) id
      → IsLower (suc n) start out
      → IsLower n start (out ++ id ∷ [])
  unfolding IsLower
  append-IsLower {n} {id} start out s low x (inr e) =
      let (m, less, t) = low x (inr e) in (m, omega (arith, less), t)
  append-IsLower {n} {id} start out s low x (inl h) = elim (Bool-cases (listed x out)) [
    | inl old ↦ let (m, less, t) = low x (inl old) in (m, omega (arith, less), t)
    | inr young ↦
        let this : x ≡ id = eq_of_same x id (ground (arith, listed-append x out (id ∷ []))) in
        (suc n, omega arith, subst (Steps view.parent (suc n)) (sym this) s)
  ]

  ancestors_loop-chain :
      (start : view.NodeId) (fuel : ℕ) (out : List view.NodeId) {n : ℕ} {id : view.NodeId}
      (s : Steps view.parent n id)
      → suc n < fuel
      → IsLower n start out
      → ancestors_loop view start fuel out (some id) ≡ out ++ chain s
  unfolding ancestors_loop chain
  ancestors_loop-chain start zero out s h low = absurd (omega arith)
  ancestors_loop-chain start (suc zero) out s h low = absurd (omega arith)
  ancestors_loop-chain start (suc (suc fuel)) out (root e) h low =
      rw (unmet start out (root e) low, e) refl
  ancestors_loop-chain start (suc (suc fuel)) out (up {p = p} e s) h low =
      rw (unmet start out (up e s) low, e)
        (ancestors_loop-chain start (suc fuel) (out ++ _ ∷ []) s (omega arith)
            (append-IsLower start out (up e s) low)
          ∙ append_assoc out (_ ∷ []) (chain s))

  loop_ends : (start : view.NodeId) (fuel : ℕ) → ancestors_loop view start fuel [] none ≡ []
  unfolding ancestors_loop
  loop_ends start zero = refl
  loop_ends start (suc fuel) = refl

  start-IsLower :
      {n : ℕ} (start : view.NodeId) → Steps view.parent (suc n) start → IsLower n start []
  unfolding IsLower
  start-IsLower start s x (inl h) = absurd (ground arith)
  start-IsLower {n} start s x (inr e) =
      (suc n, omega arith, subst (Steps view.parent (suc n)) (sym e) s)

  -- The ancestors are those nodes that
  pub ancestors_lem :
      (start x : view.NodeId)
      → IsAcyclic view.parent
      → ((k p : view.NodeId) → view.parent k ≡ some p → listed k view.nodes ≡ true)
      → (listed x (ancestors view start) ≡ true
          → (p : view.NodeId) × (view.parent start ≡ some p) × Reaches view.parent x p)
        × ((p : view.NodeId)
            → view.parent start ≡ some p
            → Reaches view.parent x p
            → listed x (ancestors view start) ≡ true)
  unfolding ancestors IsAcyclic
  ancestors_lem start x acyclic all = from_steps (acyclic start).1
    where
      from_steps :
          {n : ℕ}
          → Steps view.parent n start
          → (listed x (ancestors view start) ≡ true
              → (p : view.NodeId) × (view.parent start ≡ some p) × Reaches view.parent x p)
            × ((p : view.NodeId)
                → view.parent start ≡ some p
                → Reaches view.parent x p
                → listed x (ancestors view start) ≡ true)
      from_steps (root e) =
          let nothing : ancestors view start ≡ [] =
            ap (ancestors_loop view start (length view.nodes + 2) []) e
            ∙ loop_ends start (length view.nodes + 2) in
          (λ h. absurd (ground (arith, ap (listed x) nothing)), λ p f r. absurd (ground arith))
      from_steps (up {n = n} {p = p} e s) =
          let bound = Steps-bound view.parent view.nodes all (up e s) in
          let listed_chain : ancestors view start ≡ chain s =
            ap (ancestors_loop view start (length view.nodes + 2) []) e
            ∙ ancestors_loop-chain start (length view.nodes + 2) [] s (omega (arith, bound))
                (start-IsLower start (up e s)) in
          (
            λ h. (p, e, of_chain x s (subst (λ l. listed x l ≡ true) listed_chain h)),
            λ q f r.
                let same_parent : q ≡ p = ground arith in
                subst (λ l. listed x l ≡ true) (sym listed_chain)
                  (to_chain x s (subst (Reaches view.parent x) same_parent r)),
          )

-- In whatever state ops bring an empty document to, a node is listed among the ancestors of
-- another exactly if that one has a tree parent and the node is the parent or above it.
pub ancestors_decided :
    (ops : List (OpKind × CausalContext)) (start x : CrdtId)
    → (listed x (ancestors (topology_view (apply_all ops default)) start) ≡ true
        → (p : CrdtId) × (tree_parent (apply_all ops default) start ≡ some p)
          × Reaches (tree_parent (apply_all ops default)) x p)
      × ((p : CrdtId)
          → tree_parent (apply_all ops default) start ≡ some p
          → Reaches (tree_parent (apply_all ops default)) x p
          → listed x (ancestors (topology_view (apply_all ops default)) start) ≡ true)
ancestors_decided ops start x =
    ancestors_lem (topology_view (apply_all ops default)) start x (graph_invariants ops).0
      (live_has_parent (apply_all ops default))
