-- ===== src/Table/Merge.antt =====
-- `for (k, v) in other { … }` where the body joins `v` into the entry at `k`, or inserts it.
-- Every state-based join of the library is this loop, and has its laws from the values' join.
use kyosync.Prelude.{[], ◌∷◌, Option, none, some, ◌≡◌, refl, subst, arith}
use kyosync.Prelude.Order.{Ord}
use kyosync.Table.{Table, get, upsert}
use kyosync.Table.Laws.{get-upsert}
use kyosync.Table.Sorted.{IsSorted, get-Above, upsert-IsSorted, ext}

-- The two sides of one key.
abbrev pub join_entry {κ} : {V : Type κ} → (V → V → V) → Option V → Option V → Option V
join_entry g x none = x
join_entry g none (some v) = some v
join_entry g (some u) (some v) = some (g u v)

abbrev pub joined {κ} : {V : Type κ} → (V → V → V) → V → Option V → V
joined g v none = v
joined g v (some u) = g u v

module _ {ℓ κ} {K : Type ℓ} {V : Type κ} ⦃o : Ord K⦄ (g : V → V → V) where
  unfoldable pub merge : Table K V → Table K V → Table K V
  merge a [] = a
  merge a ((k, v) ∷ b) = merge (upsert k (joined g v) a) b

  pub merge-IsSorted : (a b : Table K V) → IsSorted a → IsSorted (merge a b)
  unfolding merge
  merge-IsSorted a [] s = s
  merge-IsSorted a ((k, v) ∷ b) s =
      merge-IsSorted (upsert k (joined g v) a) b (upsert-IsSorted k (joined g v) a s)

  -- The merge joins the two sides at each key.
  pub get-merge :
      (k : K) (a b : Table K V) → IsSorted b → get k (merge a b) ≡ join_entry g (get k a) (get k b)
  unfolding merge get
  get-merge k a [] s = refl
  get-merge k a ((j, v) ∷ b) s = ground (
    arith,
    get-merge k (upsert j (joined g v) a) b s.1,
    get-upsert k j (joined g v) a,
    o.eq_of_cmp k j,
    get-Above j b s.0,
  )

  -- A join of values that is commutative where both sides have one gives a commutative merge.
  pub merge_comm :
      (a b : Table K V)
      → IsSorted a
      → IsSorted b
      → ((k : K) (x y : V) → get k a ≡ some x → get k b ≡ some y → g x y ≡ g y x)
      → merge a b ≡ merge b a
  merge_comm a b s t c =
      ext (merge a b) (merge b a) (merge-IsSorted a b s) (merge-IsSorted b a t)
        λ k. rw (get-merge k a b t, get-merge k b a s) (at_key (get k a) (get k b) (c k))
    where
      at_key :
          (p q : Option V)
          → ((x y : V) → p ≡ some x → q ≡ some y → g x y ≡ g y x)
          → join_entry g p q ≡ join_entry g q p
      at_key none none h = refl
      at_key none (some y) h = refl
      at_key (some x) none h = refl
      at_key (some x) (some y) h = cc (h x y refl refl)

  -- An associative join of values gives an associative merge.
  pub merge_assoc :
      (a b c : Table K V)
      → IsSorted a
      → IsSorted b
      → IsSorted c
      → ((k : K) (x y z : V)
          → get k a ≡ some x
          → get k b ≡ some y
          → get k c ≡ some z
          → g (g x y) z ≡ g x (g y z))
      → merge (merge a b) c ≡ merge a (merge b c)
  merge_assoc a b c s t u h =
      ext (merge (merge a b) c) (merge a (merge b c))
        (merge-IsSorted (merge a b) c (merge-IsSorted a b s)) (merge-IsSorted a (merge b c) s)
        λ k.
          rw
            (
              get-merge k (merge a b) c u,
              get-merge k a b t,
              get-merge k a (merge b c) (merge-IsSorted b c t),
              get-merge k b c u,
            )
            (at_key (get k a) (get k b) (get k c) (h k))
    where
      at_key :
          (p q r : Option V)
          → ((x y z : V) → p ≡ some x → q ≡ some y → r ≡ some z → g (g x y) z ≡ g x (g y z))
          → join_entry g (join_entry g p q) r ≡ join_entry g p (join_entry g q r)
      at_key none none none h = refl
      at_key none none (some z) h = refl
      at_key none (some y) none h = refl
      at_key none (some y) (some z) h = refl
      at_key (some x) none none h = refl
      at_key (some x) none (some z) h = refl
      at_key (some x) (some y) none h = refl
      at_key (some x) (some y) (some z) h = cc (h x y z refl refl refl)

  -- An idempotent join of values gives an idempotent merge.
  pub merge_idem :
      (a : Table K V)
      → IsSorted a
      → ((k : K) (x : V) → get k a ≡ some x → g x x ≡ x)
      → merge a a ≡ a
  merge_idem a s h =
      ext (merge a a) a (merge-IsSorted a a s) s
        λ k. rw (get-merge k a a s) (at_key (get k a) (h k))
    where
      at_key : (p : Option V) → ((x : V) → p ≡ some x → g x x ≡ x) → join_entry g p p ≡ p
      at_key none h = refl
      at_key (some x) h = cc (h x refl)

  -- The empty table is the bottom.
  pub merge_bottom : (a : Table K V) → IsSorted a → merge [] a ≡ a
  unfolding get
  merge_bottom a s =
      ext (merge [] a) a (merge-IsSorted [] a tt) s λ k. rw (get-merge k [] a s) (at_key (get k a))
    where
      at_key : (p : Option V) → join_entry g none p ≡ p
      at_key none = refl
      at_key (some x) = refl

  -- A property of the values that the join keeps holds of the merge.
  pub merge_values {μ} :
      (P : V → Type μ) (a b : Table K V)
      → IsSorted b
      → ((x y : V) → P x → P y → P (g x y))
      → ((k : K) (v : V) → get k a ≡ some v → P v)
      → ((k : K) (v : V) → get k b ≡ some v → P v)
      → (k : K) (v : V) → get k (merge a b) ≡ some v
      → P v
  merge_values P a b s keep pa pb k v h =
      at_key (get k a) (get k b) (pa k) (pb k) (rw (get-merge k a b s) at h)
    where
      at_key :
          (p q : Option V)
          → ((x : V) → p ≡ some x → P x)
          → ((y : V) → q ≡ some y → P y)
          → join_entry g p q ≡ some v
          → P v
      at_key none none f g' e = cc
      at_key none (some y) f g' e = g' v e
      at_key (some x) none f g' e = f v e
      at_key (some x) (some y) f g' e =
          let same_value : g x y ≡ v = cc e in subst P same_value (keep x y (f x refl) (g' y refl))
