-- ===== src/Crdt/Sequence/Place.antt =====
-- Where crates/kyoso_crdt/src/types/sequence.rs puts a new element in the order.
use kyosync.Prelude.{
  ℕ, zero, suc, ◌+◌, ◌≤◌, ◌<◌, ◌≡◌, refl, ap, sym, ap₂, ◌∙◌, List, [], ◌∷◌, ◌++◌, Option, none,
  some, arith, inl, inr, Option-cases, Bool-cases, length, true, false, lt, subst, if◌then◌else◌,
}
use kyosync.Prelude.Occurs.{append-nil, append_assoc, occurrences, occurs_first}
use kyosync.Table.{Table, get, insert}
use kyosync.Table.Sorted.{IsSorted}
use kyosync.Crdt.Context.{SubDot, cmp_dot, dot_ord, cmp_dot-IsLawful}
use kyosync.Crdt.Sequence.{
  Element, same_place, insert_desc, sort_desc, children_of, children, visit_each, walk,
}
use kyosync.Crdt.Sequence.Walk.{
  eq_of_same_place, itself, order, visit_each-cong, occurrences-children, occurrences-children_of,
  hangs_at,
}
use kyosync.Crdt.Sequence.Ends.{Placed, child-Placed, no_children, no_occurrence}

abbrev IsBelow : SubDot → List SubDot → Type 0
IsBelow id [] = Unit
IsBelow id (a ∷ bs) = (cmp_dot a id ≡ lt) × IsBelow id bs

IsBelow-insert_desc :
    (id a : SubDot) (bs : List SubDot)
    → cmp_dot a id ≡ lt
    → IsBelow id bs
    → IsBelow id (insert_desc a bs)
unfolding insert_desc
IsBelow-insert_desc id a [] h k = (h, tt)
IsBelow-insert_desc id a (b ∷ bs) h k = ground (arith, IsBelow-insert_desc id a bs h k.1)

IsBelow-sort_desc : (id : SubDot) (bs : List SubDot) → IsBelow id bs → IsBelow id (sort_desc bs)
unfolding sort_desc
IsBelow-sort_desc id [] h = tt
IsBelow-sort_desc id (b ∷ bs) h =
    IsBelow-insert_desc id b (sort_desc bs) h.0 (IsBelow-sort_desc id bs h.1)

insert_desc-newest : (id : SubDot) (bs : List SubDot) → IsBelow id bs → insert_desc id bs ≡ id ∷ bs
unfolding insert_desc
insert_desc-newest id [] h = refl
insert_desc-newest id (b ∷ bs) h = ground (arith, cmp_dot-IsLawful.gt_of_lt b id h.0)

all-IsBelow :
    (id : SubDot) (bs : List SubDot)
    → ((c : SubDot) → 0 < occurrences c bs → cmp_dot c id ≡ lt)
    → IsBelow id bs
all-IsBelow id [] h = tt
all-IsBelow id (b ∷ bs) h =
    (h b (occurs_first b bs), all-IsBelow id bs (λ c p. h c (omega (arith, p))))

module _ {ℓ} {T : Type ℓ} (id : SubDot) (e : Element T) where
  -- The new id is above those of the elements that hang at the same place.
  unfoldable pub IsNewest : Table SubDot (Element T) → Type ℓ
  IsNewest m =
      (c : SubDot) (w : Element T)
      → get c m ≡ some w
      → same_place w.predecessor e.predecessor ≡ true
      → cmp_dot c id ≡ lt

  -- No element follows the new id yet.
  unfoldable pub IsUnknown : Table SubDot (Element T) → Type ℓ
  IsUnknown m =
      (get id m ≡ none)
      × ((c : SubDot) (w : Element T)
          → get c m ≡ some w
          → same_place w.predecessor (some id) ≡ false)

  children_of-other :
      (parent : Option SubDot) (m : Table SubDot (Element T))
      → same_place e.predecessor parent ≡ false
      → get id m ≡ none
      → children_of parent (insert id e m) ≡ children_of parent m
  unfolding children_of insert get
  children_of-other parent [] h a = ground arith
  children_of-other parent ((j, w) ∷ m) h a = ground (arith, children_of-other parent m h)

  children_of-same :
      (parent : Option SubDot) (m : Table SubDot (Element T))
      → same_place e.predecessor parent ≡ true
      → get id m ≡ none
      → IsBelow id (children_of parent m)
      → sort_desc (children_of parent (insert id e m)) ≡ id ∷ sort_desc (children_of parent m)
  unfolding children_of insert get sort_desc insert_desc
  children_of-same parent [] h a b = ground arith
  children_of-same parent ((j, w) ∷ m) h a b = ground (
    arith,
    children_of-same parent m h,
    insert_desc-newest id (sort_desc (children_of parent ((j, w) ∷ m)))
        (IsBelow-sort_desc id (children_of parent ((j, w) ∷ m)) b),
    cmp_dot-IsLawful.gt_of_lt j id,
  )

  children-IsBelow :
      (m : Table SubDot (Element T)) (parent : Option SubDot)
      → IsSorted m
      → IsNewest m
      → same_place e.predecessor parent ≡ true
      → IsBelow id (children_of parent m)
  unfolding IsNewest
  children-IsBelow m parent s new h = all-IsBelow id (children_of parent m) λ c p.
      elim (Option-cases (get c m)) [
        | inl absent ↦ absurd (omega (arith, at_none c absent))
        | inr (w, there) ↦ new c w there (hangs c w there p)
      ]
    where
      at_none : (c : SubDot) → get c m ≡ none → occurrences c (children_of parent m) ≡ 0
      at_none c absent = rw (occurrences-children_of c parent m s, absent) refl

      hangs :
          (c : SubDot) (w : Element T)
          → get c m ≡ some w
          → 0 < occurrences c (children_of parent m)
          → same_place w.predecessor e.predecessor ≡ true
      hangs c w there p =
          let at_w : occurrences c (children_of parent m) ≡ hangs_at parent (some w) =
            rw (occurrences-children_of c parent m s, there) refl in
          let same_parent : e.predecessor ≡ parent = eq_of_same_place e.predecessor parent h in
          subst (λ q. same_place w.predecessor q ≡ true) (sym same_parent) (ground arith)

  -- Where the element goes, it goes first.
  unfoldable pub at_front : Option SubDot → List SubDot
  at_front parent = if same_place e.predecessor parent then id ∷ [] else []

  children-insert :
      (m : Table SubDot (Element T)) (parent : Option SubDot)
      → IsSorted m
      → IsNewest m
      → get id m ≡ none
      → children (insert id e m) parent ≡ at_front parent ++ children m parent
  unfolding children at_front
  children-insert m parent s new a = elim (Bool-cases (same_place e.predecessor parent)) [
    | inl here ↦ rw here (children_of-same parent m here a (children-IsBelow m parent s new here))
    | inr other ↦ rw other (ap sort_desc (children_of-other parent m other a))
  ]

  -- The order with the new element after the one that it follows.
  unfoldable pub after_all : List SubDot → List SubDot
  unfolding at_front
  after_all [] = []
  after_all (x ∷ xs) = x ∷ (at_front (some x) ++ after_all xs)

  after_all-append : (xs ys : List SubDot) → after_all (xs ++ ys) ≡ after_all xs ++ after_all ys
  unfolding after_all
  after_all-append [] ys = refl
  after_all-append (x ∷ xs) ys =
      cc (after_all-append xs ys, append_assoc (at_front (some x)) (after_all xs) (after_all ys))

  visit_each-append :
      (emit below : SubDot → List SubDot) (xs ys : List SubDot)
      → visit_each emit below (xs ++ ys) ≡ visit_each emit below xs ++ visit_each emit below ys
  unfolding visit_each
  visit_each-append emit below [] ys = refl
  visit_each-append emit below (x ∷ xs) ys = cc (
    visit_each-append emit below xs ys,
    append_assoc (below x) (visit_each emit below xs) (visit_each emit below ys),
    append_assoc (emit x) (below x ++ visit_each emit below xs) (visit_each emit below ys),
  )

  visit_each-after_all :
      (below : SubDot → List SubDot) (cs : List SubDot)
      → visit_each itself (λ c. at_front (some c) ++ after_all (below c)) cs
        ≡ after_all (visit_each itself below cs)
  unfolding visit_each after_all
  visit_each-after_all below [] = refl
  visit_each-after_all below (c ∷ cs) = cc (
    visit_each-after_all below cs,
    after_all-append (below c) (visit_each itself below cs),
    append_assoc (at_front (some c)) (after_all (below c))
        (visit_each itself (λ c. at_front (some c) ++ after_all (below c)) cs),
  )

  module _ (m : Table SubDot (Element T)) (s : IsSorted m) (new : IsNewest m) (u : IsUnknown m)
      (other : same_place e.predecessor (some id) ≡ false) where
    leaf : (n : ℕ) → order (insert id e m) n (some id) ≡ []
    unfolding walk visit_each IsUnknown at_front
    leaf zero = refl
    leaf (suc n) =
        let none_left : children (insert id e m) (some id) ≡ [] =
          children-insert m (some id) s new u.0
          ∙ rw other (no_occurrence m s (children m (some id)) (λ c p. follows c p)) in
        rw none_left refl
      where
        follows : (c : SubDot) → 0 < occurrences c (children m (some id)) → ⊥
        follows c p = elim (Option-cases (get c m)) [
          | inl absent ↦ omega (arith, at_none absent)
          | inr (w, there) ↦ omega (arith, at_some w there)
        ]
          where
            at_none : get c m ≡ none → occurrences c (children m (some id)) ≡ 0
            at_none absent = rw (occurrences-children c (some id) m s, absent) refl

            at_some : (w : Element T) → get c m ≡ some w → occurrences c (children m (some id)) ≡ 0
            at_some w there = rw (occurrences-children c (some id) m s, there, u.1 c w there) refl

    front_visited :
        (n : ℕ) (p : Option SubDot)
        → visit_each itself (λ c. order (insert id e m) n (some c)) (at_front p) ≡ at_front p
    unfolding visit_each at_front
    front_visited n p = elim (Bool-cases (same_place e.predecessor p)) [
      | inl here ↦ rw (here, leaf n) refl
      | inr there ↦ rw there refl
    ]

    -- A new element that is the newest at its place comes first there.
    pub order-insert :
        (n : ℕ) {d : ℕ} {p : Option SubDot}
        → Placed m d p
        → suc (length m) ≤ d + n
        → order (insert id e m) (suc n) p ≡ at_front p ++ after_all (order m n p)
    unfolding walk IsUnknown at_front after_all
    order-insert zero {p = p} pl h =
        let children_left : children (insert id e m) p ≡ at_front p ++ [] =
          children-insert m p s new u.0
          ∙ ap (λ cs. at_front p ++ cs) (no_children m s pl (omega (arith, h))) in
        rw (children_left, append-nil (at_front p)) (front_visited 0 p)
    order-insert (suc n) {p = p} pl h =
        let at_child : (c : SubDot)
            → 0 < occurrences c (children m p)
            → order (insert id e m) (suc n) (some c)
              ≡ at_front (some c) ++ after_all (order m n (some c)) =
          λ c there. order-insert n (child-Placed m s c pl there) (omega arith) in
        ap (visit_each itself (below (suc n))) (children-insert m p s new u.0)
        ∙ visit_each-append itself (below (suc n)) (at_front p) (children m p)
        ∙ ap₂ (λ xs ys. xs ++ ys) (front_visited (suc n) p)
            (visit_each-cong itself (below (suc n)) _ (children m p) at_child
              ∙ visit_each-after_all (λ c. order m n (some c)) (children m p))
      where
        below : ℕ → SubDot → List SubDot
        below k c = order (insert id e m) k (some c)
