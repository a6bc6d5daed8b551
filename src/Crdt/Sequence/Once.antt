-- ===== src/Crdt/Sequence/Once.antt =====
-- How often the walk of crates/kyoso_crdt/src/types/sequence.rs meets an element.
use kyosync.Prelude.{
  ℕ, zero, suc, ◌+◌, ◌≤◌, ◌≡◌, refl, ◌∙◌, List, [], ◌∷◌, Option, none, some, arith, inl, inr,
  Option-cases, ◌<◌,
}
use kyosync.Prelude.Order.{same}
use kyosync.Prelude.Occurs.{one_if, occurrences, occurrences-append}
use kyosync.Table.{Table, get}
use kyosync.Table.Sorted.{IsSorted}
use kyosync.Crdt.Context.{SubDot, dot_ord}
use kyosync.Crdt.Sequence.{Element, same_place, children, visit_each, walk}
use kyosync.Crdt.Sequence.Walk.{itself, order, hangs_at, occurrences-children}

total : (SubDot → ℕ) → List SubDot → ℕ
total f [] = 0
total f (c ∷ cs) = f c + total f cs

occurrences-visit_each :
    (x : SubDot) (below : SubDot → List SubDot) (cs : List SubDot)
    → occurrences x (visit_each itself below cs)
      ≡ occurrences x cs + total (λ c. occurrences x (below c)) cs
unfolding visit_each total
occurrences-visit_each x below [] = refl
occurrences-visit_each x below (c ∷ cs) = omega (
  arith,
  occurrences-append x (below c) (visit_each itself below cs),
  occurrences-visit_each x below cs,
)

total_zero : (f : SubDot → ℕ) (cs : List SubDot) → ((c : SubDot) → f c ≡ 0) → total f cs ≡ 0
unfolding total
total_zero f [] h = refl
total_zero f (c ∷ cs) h = omega (arith, h c, total_zero f cs h)

total_plus :
    (y : SubDot) (f g : SubDot → ℕ) (cs : List SubDot)
    → ((c : SubDot) → f c ≡ one_if (same y c) + g c)
    → total f cs ≡ occurrences y cs + total g cs
unfolding total
total_plus y f g [] h = refl
total_plus y f g (c ∷ cs) h = omega (arith, h c, total_plus y f g cs h)

module _ {ℓ} {T : Type ℓ} (m : Table SubDot (Element T)) (s : IsSorted m) where
  occurrences-order :
      (x : SubDot) (n : ℕ) (parent : Option SubDot)
      → occurrences x (order m (suc n) parent)
        ≡ hangs_at parent (get x m)
          + total (λ c. occurrences x (order m n (some c))) (children m parent)
  unfolding walk
  occurrences-order x n parent = omega (
    arith,
    occurrences-visit_each x (λ c. order m n (some c)) (children m parent),
    occurrences-children x parent m s,
  )

  pub never_absent :
      (x : SubDot) (n : ℕ) (parent : Option SubDot)
      → get x m ≡ none
      → occurrences x (order m n parent) ≡ 0
  unfolding walk
  never_absent x zero parent h = refl
  never_absent x (suc n) parent h =
      rw (occurrences-order x n parent, h)
        (omega (arith, total_zero _ (children m parent) (λ c. never_absent x n (some c) h)))

  -- What stands at the start is met among the children of the start only.
  first_met :
      (x : SubDot) (e : Element T) (n : ℕ) (parent : Option SubDot)
      → get x m ≡ some e
      → e.predecessor ≡ none
      → occurrences x (order m (suc n) parent) ≡ one_if (same_place e.predecessor parent)
  unfolding walk
  first_met x e zero parent h p =
      rw (occurrences-order x zero parent, h)
        (omega (arith, total_zero (λ c. 0) (children m parent) (λ c. refl)))
  first_met x e (suc n) parent h p =
      let nowhere : (c : SubDot) → occurrences x (order m (suc n) (some c)) ≡ 0 =
        λ c. first_met x e n (some c) h p ∙ ap_none c in
      rw (occurrences-order x (suc n) parent, h)
        (omega (arith, total_zero _ (children m parent) nowhere))
    where
      ap_none : (c : SubDot) → one_if (same_place e.predecessor (some c)) ≡ 0
      ap_none c = rw p refl

  -- What follows an element is met as often as the element is, one level down.
  later_met :
      (x y : SubDot) (e : Element T) (n : ℕ) (parent : Option SubDot)
      → get x m ≡ some e
      → e.predecessor ≡ some y
      → occurrences x (order m (suc n) parent)
        ≡ one_if (same_place e.predecessor parent) + occurrences y (order m n parent)
  unfolding walk
  later_met x y e zero parent h p =
      rw (occurrences-order x zero parent, h)
        (omega (arith, total_zero (λ c. 0) (children m parent) (λ c. refl)))
  later_met x y e (suc n) parent h p =
      let below : (c : SubDot)
          → occurrences x (order m (suc n) (some c))
            ≡ one_if (same y c) + occurrences y (order m n (some c)) =
        λ c. later_met x y e n (some c) h p ∙ at_child c n in
      rw (occurrences-order x (suc n) parent, h)
        (omega (
          arith,
          total_plus y (λ c. occurrences x (order m (suc n) (some c)))
              (λ c. occurrences y (order m n (some c))) (children m parent) below,
          occurrences-visit_each y (λ c. order m n (some c)) (children m parent),
        ))
    where
      at_child :
          (c : SubDot) (k : ℕ)
          → one_if (same_place e.predecessor (some c)) + occurrences y (order m k (some c))
            ≡ one_if (same y c) + occurrences y (order m k (some c))
      at_child c k = rw p refl

  -- The walk from the start meets no element twice.
  pub met_once : (x : SubDot) (n : ℕ) → occurrences x (order m n none) ≤ 1
  unfolding walk
  met_once x zero = omega arith
  met_once x (suc n) = elim (Option-cases (get x m)) [
    | inl absent ↦ omega (arith, never_absent x (suc n) none absent)
    | inr (e, h) ↦ elim (Option-cases e.predecessor) [
      | inl p ↦ rw (first_met x e n none h p, p) (omega arith)
      | inr (y, p) ↦ rw (later_met x y e n none h p, p) (omega (arith, met_once y n))
    ]
  ]

  -- What the walk meets is an element.
  pub met_is_there :
      (x : SubDot) (n : ℕ) (parent : Option SubDot)
      → 0 < occurrences x (order m n parent)
      → (e : Element T) × (get x m ≡ some e)
  met_is_there x n parent p = elim (Option-cases (get x m)) [
    | inl absent ↦ absurd (omega (arith, never_absent x n parent absent))
    | inr there ↦ there
  ]
