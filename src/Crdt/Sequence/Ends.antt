-- ===== src/Crdt/Sequence/Ends.antt =====
-- Why the walk of crates/kyoso_crdt/src/types/sequence.rs ends.
use kyosync.Prelude.{
  ℕ, zero, suc, ◌+◌, ◌≤◌, ◌<◌, ◌≡◌, refl, ap, sym, ◌∙◌, List, [], ◌∷◌, Option, none, some, arith,
  inl, inr, Option-cases, length, true, subst,
}
use kyosync.Prelude.Occurs.{occurrences}
use kyosync.Table.{Table, get, keys}
use kyosync.Table.Set.{listed}
use kyosync.Table.Sorted.{IsSorted}
use kyosync.Crdt.Context.{SubDot, dot_ord, cmp_dot-IsLawful}
use kyosync.Crdt.Forest.{Steps, root, up}
use kyosync.Crdt.Forest.Depth.{Steps-bound}
use kyosync.Crdt.Sequence.{Element, same_place, children, visit_each, walk}
use kyosync.Crdt.Sequence.Walk.{eq_of_same_place, hangs_at, occurrences-children, visit_each-cong}

module _ {ℓ} {T : Type ℓ} (m : Table SubDot (Element T)) where
  predecessor_of : SubDot → Option SubDot
  predecessor_of k = elim (get k m) [ none ↦ none | some e ↦ e.predecessor ]

  predecessor_at :
      (k : SubDot) (e : Element T) → get k m ≡ some e → predecessor_of k ≡ e.predecessor
  unfolding predecessor_of
  predecessor_at k e h = rw (h, predecessor_of) refl

  -- The place that this many elements lie above: none at the start, and one more at an element than
  -- at its predecessor.
  pub data Placed : ℕ → Option SubDot → Type ℓ where
    start : Placed zero none
    after :
        {d : ℕ} {k : SubDot} {e : Element T}
        → get k m ≡ some e
        → Placed d e.predecessor
        → Placed (suc d) (some k)

  start_depth : {d : ℕ} {p : Option SubDot} → p ≡ none → Placed d p → d ≡ 0
  start_depth h start = refl
  start_depth h (after g pl) = absurd (ground arith)

  -- A placed element is as many steps up as elements lie above it.
  to_Steps :
      {d : ℕ} {p : Option SubDot} (k : SubDot)
      → p ≡ some k
      → Placed d p
      → (n : ℕ) × Steps predecessor_of n k × (d ≡ suc n)
  to_Steps k h start = absurd (ground arith)
  to_Steps k h (after {d = d} {k = j} {e = e} g pl) =
      let this : j ≡ k = ground arith in
      let at_k : get k m ≡ some e = ap (λ x. get x m) (sym this) ∙ g in
      elim (Option-cases e.predecessor) [
        | inl first ↦ (0, root (predecessor_at k e at_k ∙ first), ap suc (start_depth first pl))
        | inr (y, later) ↦
            let (n, steps, depth) = to_Steps y later pl in
            (suc n, up (predecessor_at k e at_k ∙ later) steps, ap suc depth)
      ]

  listed-keys :
      (k : SubDot) (e : Element T) (t : Table SubDot (Element T))
      → get k t ≡ some e
      → listed k (keys t) ≡ true
  unfolding get keys
  listed-keys k e [] h = cc
  listed-keys k e ((j, w) ∷ t) h = ground (arith, listed-keys k e t)

  length-keys : (t : Table SubDot (Element T)) → length (keys t) ≡ length t
  unfolding keys
  length-keys [] = refl
  length-keys ((k, e) ∷ t) = ap suc (length-keys t)

  -- No place lies below more elements than there are, and one that does has no children left.
  Placed-bound : {d : ℕ} {p : Option SubDot} → Placed d p → d ≤ suc (length m)
  unfolding predecessor_of
  Placed-bound start = omega arith
  Placed-bound (after {k = k} g pl) =
      let (n, steps, depth) = to_Steps k refl (after g pl) in
      let bound = Steps-bound predecessor_of (keys m) (λ j y h. listed_parent j y h) steps in
      omega (arith, bound, depth, length-keys m)
    where
      listed_parent : (j y : SubDot) → predecessor_of j ≡ some y → listed j (keys m) ≡ true
      listed_parent j y h = elim (Option-cases (get j m)) [
        | inl absent ↦ absurd (ground arith)
        | inr (e, there) ↦ listed-keys j e m there
      ]

module _ {ℓ} {T : Type ℓ} (m : Table SubDot (Element T)) (s : IsSorted m) where
  -- A child of a place lies below one element more.
  pub child-Placed :
      {d : ℕ} {p : Option SubDot} (c : SubDot)
      → Placed m d p
      → 0 < occurrences c (children m p)
      → Placed m (suc d) (some c)
  child-Placed {d} {p} c pl h = elim (Option-cases (get c m)) [
    | inl absent ↦ absurd (omega (arith, at_none absent))
    | inr (e, there) ↦
        let same_p : e.predecessor ≡ p = eq_of_same_place e.predecessor p (hangs e there) in
        after there (subst (λ q. Placed m d q) (sym same_p) pl)
  ]
    where
      at_none : get c m ≡ none → occurrences c (children m p) ≡ 0
      at_none absent = rw (occurrences-children c p m s, absent) refl

      hangs : (e : Element T) → get c m ≡ some e → same_place e.predecessor p ≡ true
      hangs e there =
          let at_e : occurrences c (children m p) ≡ hangs_at p (some e) =
            rw (occurrences-children c p m s, there) refl in
          ground arith

  pub no_occurrence : (cs : List SubDot) → ((c : SubDot) → 0 < occurrences c cs → ⊥) → cs ≡ []
  unfolding dot_ord
  no_occurrence [] h = refl
  no_occurrence (c ∷ cs) h = absurd (h c (ground (arith, cmp_dot-IsLawful.cmp_refl c)))

  pub no_children :
      {d : ℕ} {p : Option SubDot} → Placed m d p → suc (length m) ≤ d → children m p ≡ []
  no_children {d} {p} pl h =
      no_occurrence (children m p)
        λ c there. omega (arith, Placed-bound m (child-Placed c pl there))

  -- With fuel for the elements that are left, more of it changes nothing.
  walk_stable {κ} :
      {X : Type κ} (emit : SubDot → List X) (n k : ℕ) {d : ℕ} {p : Option SubDot}
      → Placed m d p
      → suc (length m) ≤ d + n
      → suc (length m) ≤ d + k
      → walk emit m n p ≡ walk emit m k p
  unfolding walk visit_each
  walk_stable emit zero zero pl h i = refl
  walk_stable emit zero (suc k) pl h i = rw (no_children pl (omega (arith, h))) refl
  walk_stable emit (suc n) zero pl h i = rw (no_children pl (omega (arith, i))) refl
  walk_stable emit (suc n) (suc k) {p = p} pl h i =
      visit_each-cong emit _ _ (children m p)
        λ c there. walk_stable emit n k (child-Placed c pl there) (omega arith) (omega arith)

  -- On elements sorted by id, the walk from a place that predecessors connect to the start ends
  -- within one call more than there are elements: with that fuel it puts out what the loop over
  -- the children does that calls it again with the same fuel, and any more fuel changes nothing.
  pub walk_ends {κ} :
      {X : Type κ} (emit : SubDot → List X) {d : ℕ} {p : Option SubDot} (more : ℕ)
      → Placed m d p
      → (walk emit m (suc (length m)) p
          ≡ visit_each emit (λ c. walk emit m (suc (length m)) (some c)) (children m p))
        × (walk emit m (suc (length m) + more) p ≡ walk emit m (suc (length m)) p)
  unfolding walk
  walk_ends emit {p = p} more pl = (
    visit_each-cong emit _ _ (children m p) (λ c there.
        walk_stable emit (length m) (suc (length m)) (child-Placed c pl there) (omega arith)
          (omega arith)),
    walk_stable emit (suc (length m) + more) (suc (length m)) pl (omega arith) (omega arith),
  )
