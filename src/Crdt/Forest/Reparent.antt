-- ===== src/Crdt/Forest/Reparent.antt =====
-- Walks up the parents after one node was given a new one, for move_tree.rs and topology.rs.
use kyosync.Prelude.{
  ℕ, zero, suc, ◌≡◌, refl, sym, ◌∙◌, subst, Option, none, some, false, if◌then◌else◌, Bool-cases,
  inl, inr, arith,
}
use kyosync.Prelude.Order.{Ord, same, same_refl, eq_of_same}
use kyosync.Crdt.Forest.{Steps, Reaches, root, up, here, above, IsAcyclic}

module _ {ℓ} {K : Type ℓ} (parent parent' : K → Option K) where
  -- Pointers that read the same walk the same.
  pub acyclic_same : ((k : K) → parent' k ≡ parent k) → IsAcyclic parent → IsAcyclic parent'
  unfolding IsAcyclic
  acyclic_same h a k = let (n, s) = a k in (n, go s)
    where
      go : {n : ℕ} {k : K} → Steps parent n k → Steps parent' n k
      go {k = k} (root e) = root (h k ∙ e)
      go {k = k} (up e s) = up (h k ∙ e) (go s)

module _ {ℓ} {K : Type ℓ} ⦃o : Ord K⦄ (parent parent' : K → Option K) (child : K) (new : Option K)
    (moved : (k : K) → parent' k ≡ (if same k child then new else parent k)) where
  kept : (k : K) → same k child ≡ false → parent' k ≡ parent k
  kept k h = ground (arith, moved k)

  -- A walk that does not pass the node is as before.
  Steps-avoid : {n : ℕ} {k : K} → Steps parent n k → ¬ Reaches parent child k → Steps parent' n k
  Steps-avoid {k = k} (root e) avoids = elim (Bool-cases (same k child)) [
    | inl hit ↦ absurd (avoids (subst (Reaches parent child) (sym (eq_of_same k child hit)) here))
    | inr miss ↦ root (kept k miss ∙ e)
  ]
  Steps-avoid {k = k} (up e s) avoids = elim (Bool-cases (same k child)) [
    | inl hit ↦ absurd (avoids (subst (Reaches parent child) (sym (eq_of_same k child hit)) here))
    | inr miss ↦ up (kept k miss ∙ e) (Steps-avoid s (λ r. avoids (above e r)))
  ]

  Steps-moved :
      ((n : ℕ) × Steps parent' n child)
      → {n : ℕ} {k : K} → Steps parent n k
      → (m : ℕ) × Steps parent' m k
  Steps-moved c {k = k} (root e) = elim (Bool-cases (same k child)) [
    | inl hit ↦ (c.0, subst (Steps parent' c.0) (sym (eq_of_same k child hit)) c.1)
    | inr miss ↦ (zero, root (kept k miss ∙ e))
  ]
  Steps-moved c {k = k} (up e s) = elim (Bool-cases (same k child)) [
    | inl hit ↦ (c.0, subst (Steps parent' c.0) (sym (eq_of_same k child hit)) c.1)
    | inr miss ↦ let (m, t) = Steps-moved c s in (suc m, up (kept k miss ∙ e) t)
  ]

  at_child : parent' child ≡ new
  at_child = ground (arith, moved child, same_refl child)

  -- Moving a node to the root, or under a node that is not it or below it, makes no cycle.
  pub acyclic_moved :
      ((p : K) → new ≡ some p → ¬ Reaches parent child p) → IsAcyclic parent → IsAcyclic parent'
  unfolding IsAcyclic
  acyclic_moved safe a k = Steps-moved (lands new refl) (a k).1
    where
      lands : (target : Option K) → new ≡ target → (n : ℕ) × Steps parent' n child
      lands none e = (zero, root (at_child ∙ e))
      lands (some p) e = let (n, s) = a p in (suc n, up (at_child ∙ e) (Steps-avoid s (safe p e)))
