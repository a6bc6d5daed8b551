-- ===== src/Crdt/Sequence/Walk.antt =====
-- The walk of crates/kyoso_crdt/src/types/sequence.rs: who a place's children are, how the walks
-- that put out values or ids come from the walk in the order of the elements, and what it visits.
use kyosync.Prelude.{
  ℕ, zero, suc, ◌+◌, ◌<◌, ◌≡◌, refl, ap, ◌∙◌, List, [], ◌∷◌, Option, none, some, true, arith,
}
use kyosync.Prelude.Order.{same, same_refl, eq_of_same}
use kyosync.Prelude.Occurs.{flat_map, flat_map-append, one_if, occurrences}
use kyosync.Table.{Table, get}
use kyosync.Table.Sorted.{IsSorted, get-Above}
use kyosync.Crdt.Context.{SubDot, dot_ord, cmp_dot-IsLawful}
use kyosync.Crdt.Sequence.{
  Element, same_place, insert_desc, sort_desc, children_of, children, visit_each, walk,
}

abbrev pub itself : SubDot → List SubDot
itself c = c ∷ []

-- The elements in the order of the walk.
abbrev pub order {ℓ} : {T : Type ℓ} → Table SubDot (Element T) → ℕ → Option SubDot → List SubDot
order m fuel parent = walk itself m fuel parent

pub eq_of_same_place : (a b : Option SubDot) → same_place a b ≡ true → a ≡ b
unfolding dot_ord
eq_of_same_place none none h = refl
eq_of_same_place none (some b) h = absurd (ground arith)
eq_of_same_place (some a) none h = absurd (ground arith)
eq_of_same_place (some a) (some b) h = ap some (eq_of_same a b h)

pub same_place_refl : (a : Option SubDot) → same_place a a ≡ true
unfolding dot_ord
same_place_refl none = refl
same_place_refl (some a) = same_refl a

occurrences-insert_desc :
    (x a : SubDot) (bs : List SubDot)
    → occurrences x (insert_desc a bs) ≡ one_if (same x a) + occurrences x bs
unfolding insert_desc
occurrences-insert_desc x a [] = refl
occurrences-insert_desc x a (b ∷ bs) = ground (arith, occurrences-insert_desc x a bs)

occurrences-sort_desc :
    (x : SubDot) (bs : List SubDot) → occurrences x (sort_desc bs) ≡ occurrences x bs
unfolding sort_desc
occurrences-sort_desc x [] = refl
occurrences-sort_desc x (b ∷ bs) =
    omega (arith, occurrences-insert_desc x b (sort_desc bs), occurrences-sort_desc x bs)

module _ {ℓ} {T : Type ℓ} where
  abbrev pub hangs_at : Option SubDot → Option (Element T) → ℕ
  hangs_at parent none = 0
  hangs_at parent (some e) = one_if (same_place e.predecessor parent)

  pub occurrences-children_of :
      (x : SubDot) (parent : Option SubDot) (m : Table SubDot (Element T))
      → IsSorted m
      → occurrences x (children_of parent m) ≡ hangs_at parent (get x m)
  unfolding children_of get dot_ord
  occurrences-children_of x parent [] s = refl
  occurrences-children_of x parent ((j, e) ∷ m) s = ground (
    arith,
    occurrences-children_of x parent m s.1,
    cmp_dot-IsLawful.eq_of_cmp x j,
    get-Above j m s.0,
  )

  -- An element is a child of its predecessor, once, and of no other place.
  pub occurrences-children :
      (x : SubDot) (parent : Option SubDot) (m : Table SubDot (Element T))
      → IsSorted m
      → occurrences x (children m parent) ≡ hangs_at parent (get x m)
  unfolding children
  occurrences-children x parent m s =
      occurrences-sort_desc x (children_of parent m) ∙ occurrences-children_of x parent m s

pub visit_each-cong {ℓ} :
    {X : Type ℓ} (emit below below' : SubDot → List X) (cs : List SubDot)
    → ((c : SubDot) → 0 < occurrences c cs → below c ≡ below' c)
    → visit_each emit below cs ≡ visit_each emit below' cs
unfolding visit_each dot_ord
visit_each-cong emit below below' [] h = refl
visit_each-cong emit below below' (c ∷ cs) h = cc (
  h c (ground (arith, cmp_dot-IsLawful.cmp_refl c)),
  visit_each-cong emit below below' cs (λ x p. h x (omega (arith, p))),
)

visit_each-flat_map {ℓ} :
    {X : Type ℓ} (emit : SubDot → List X) (below : SubDot → List SubDot) (cs : List SubDot)
    → visit_each emit (λ c. flat_map emit (below c)) cs ≡ flat_map emit (visit_each itself below cs)
unfolding visit_each
visit_each-flat_map emit below [] = refl
visit_each-flat_map emit below (c ∷ cs) =
    cc (
      visit_each-flat_map emit below cs,
      flat_map-append emit (below c) (visit_each itself below cs),
    )

-- A walk that puts out something for each element does so in the order of the elements.
pub walk-flat_map {ℓ κ} :
    {T : Type ℓ} {X : Type κ} (emit : SubDot → List X) (m : Table SubDot (Element T)) (fuel : ℕ)
    (parent : Option SubDot)
    → walk emit m fuel parent ≡ flat_map emit (order m fuel parent)
unfolding walk
walk-flat_map emit m zero parent = refl
walk-flat_map emit m (suc fuel) parent =
    visit_each-cong emit _ _ (children m parent) (λ c p. walk-flat_map emit m fuel (some c))
    ∙ visit_each-flat_map emit (λ c. order m fuel (some c)) (children m parent)
