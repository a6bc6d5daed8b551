-- ===== src/Crdt/Sequence/Entomb.antt =====
-- What crates/kyoso_crdt/src/types/sequence.rs changes when it marks elements as deleted.
use kyosync.Prelude.{
  ℕ, zero, suc, ◌≡◌, refl, ap, ◌∙◌, List, [], ◌∷◌, Option, none, some, arith, inl, inr,
  Option-cases, length, if◌then◌else◌,
}
use kyosync.Prelude.Order.{same}
use kyosync.Table.{Table, get, insert, modify}
use kyosync.Table.Laws.{get-modify, modify-absent, modify-there}
use kyosync.Table.Set.{listed}
use kyosync.Table.Sorted.{IsSorted, modify-IsSorted, get-Above, Above-trans}
use kyosync.Crdt.Context.{SubDot, dot_ord, cmp_dot-IsLawful}
use kyosync.Crdt.Sequence.{
  Element, emit_value, entomb, entomb_all, children_of, children, sort_desc, walk,
}
use kyosync.Crdt.Sequence.Walk.{itself, order, visit_each-cong}

module _ {ℓ} {T : Type ℓ} where
  -- Replacing an element by one with the same predecessor.
  children_of-replace :
      (parent : Option SubDot) (k : SubDot) (v w : Element T) (m : Table SubDot (Element T))
      → IsSorted m
      → get k m ≡ some w
      → v.predecessor ≡ w.predecessor
      → (children_of parent (insert k v m) ≡ children_of parent m)
        × (length (insert k v m) ≡ length m)
  unfolding children_of get insert dot_ord
  children_of-replace parent k v w [] s h q = absurd (ground arith)
  children_of-replace parent k v w ((j, u) ∷ m) s h q = ground (
    arith,
    children_of-replace parent k v w m s.1,
    cmp_dot-IsLawful.eq_of_cmp k j,
    get-Above k m,
    Above-trans k j m,
  )

  -- Two tables with the same tree below every place.
  unfoldable pub SameTree : Table SubDot (Element T) → Table SubDot (Element T) → Type 0
  SameTree m n =
      ((parent : Option SubDot) → children m parent ≡ children n parent) × (length m ≡ length n)

  pub order-SameTree :
      (m n : Table SubDot (Element T)) (fuel : ℕ) (parent : Option SubDot)
      → SameTree m n
      → order m fuel parent ≡ order n fuel parent
  unfolding walk SameTree
  order-SameTree m n zero parent t = refl
  order-SameTree m n (suc fuel) parent t =
      rw (t.0 parent)
        (visit_each-cong itself _ _ (children n parent) (λ c p. order-SameTree m n fuel (some c) t))

  modify-SameTree :
      (k : SubDot) (m : Table SubDot (Element T)) → IsSorted m → SameTree (modify k entomb m) m
  unfolding SameTree children
  modify-SameTree k m s = elim (Option-cases (get k m)) [
    | inl absent ↦ rw (modify-absent k entomb m absent) ((λ parent. refl), refl)
    | inr (w, there) ↦ rw (modify-there k entomb w m there) (
      (λ parent. ap sort_desc (children_of-replace parent k (entomb w) w m s there refl).0),
      (children_of-replace none k (entomb w) w m s there refl).1,
    )
  ]

  pub entomb_all-SameTree :
      (ts : List SubDot) (m : Table SubDot (Element T))
      → IsSorted m
      → SameTree (entomb_all ts m) m × IsSorted (entomb_all ts m)
  unfolding entomb_all SameTree
  entomb_all-SameTree [] m s = (((λ parent. refl), refl), s)
  entomb_all-SameTree (t ∷ ts) m s =
      let (rest, sorted) =
        entomb_all-SameTree ts (modify t entomb m) (modify-IsSorted t entomb m s) in
      let first = modify-SameTree t m s in
      (((λ parent. rest.0 parent ∙ first.0 parent), rest.1 ∙ first.1), sorted)

  emit_value-modify :
      (x t : SubDot) (m : Table SubDot (Element T))
      → emit_value (modify t entomb m) x ≡ (if same x t then [] else emit_value m x)
  unfolding emit_value
  emit_value-modify x t m = elim (Option-cases (get t m)) [
    | inl absent ↦ ground (arith, get-modify x t entomb m)
    | inr (w, there) ↦ ground (arith, get-modify x t entomb m)
  ]

  -- An entombed element shows nothing, any other what it showed.
  pub emit_value-entomb_all :
      (x : SubDot) (ts : List SubDot) (m : Table SubDot (Element T))
      → emit_value (entomb_all ts m) x ≡ (if listed x ts then [] else emit_value m x)
  unfolding entomb_all
  emit_value-entomb_all x [] m = refl
  emit_value-entomb_all x (t ∷ ts) m =
      ground (arith, emit_value-entomb_all x ts (modify t entomb m), emit_value-modify x t m)
