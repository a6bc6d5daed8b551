-- ===== src/Table/Sorted.antt =====
-- A table's keys rise strictly. Operations keep that, and two sorted tables that read the same
-- are the same table.
use kyosync.Prelude.{
  [], ◌∷◌, Option, none, some, Bool, lt, eq, gt, ◌≡◌, refl, sym, ◌∙◌, Ordering, arith,
  if◌then◌else◌, inl, inr, Option-cases,
}
use kyosync.Prelude.Order.{Ord}
use kyosync.Table.Laws.{insert_all, get-insert}
use kyosync.Table.{Table, get, insert, remove, upsert, or_insert, modify, retain}

module _ {ℓ κ} {K : Type ℓ} {V : Type κ} ⦃o : Ord K⦄ where
  -- `k` comes before every key of the table.
  abbrev pub Above : K → Table K V → Type 0
  Above k [] = Unit
  Above k ((j, v) ∷ m) = (o.cmp k j ≡ lt) × Above k m

  abbrev pub IsSorted : Table K V → Type 0
  IsSorted [] = Unit
  IsSorted ((k, v) ∷ m) = Above k m × IsSorted m

  pub Above-trans : (i k : K) (m : Table K V) → o.cmp i k ≡ lt → Above k m → Above i m
  Above-trans i k [] h a = tt
  Above-trans i k ((j, v) ∷ m) h a = (o.cmp_trans i k j h a.0, Above-trans i k m h a.1)

  pub get-Above : (k : K) (m : Table K V) → Above k m → get k m ≡ none
  unfolding get
  get-Above k [] a = refl
  get-Above k ((j, v) ∷ m) a = ground (arith, a.0, get-Above k m a.1)

  Above-insert :
      (i k : K) (v : V) (m : Table K V) → o.cmp i k ≡ lt → Above i m → Above i (insert k v m)
  unfolding insert
  Above-insert i k v [] h a = (h, tt)
  Above-insert i k v ((j, w) ∷ m) h a = ground (arith, Above-insert i k v m h a.1)

  pub insert-IsSorted : (k : K) (v : V) (m : Table K V) → IsSorted m → IsSorted (insert k v m)
  unfolding insert
  insert-IsSorted k v [] s = (tt, tt)
  insert-IsSorted k v ((j, w) ∷ m) s = ground (
    arith,
    insert-IsSorted k v m s.1,
    Above-insert j k v m,
    Above-trans k j m,
    o.lt_of_gt k j,
    o.eq_of_cmp k j,
  )

  Above-remove : (i k : K) (m : Table K V) → Above i m → Above i (remove k m)
  unfolding remove
  Above-remove i k [] a = tt
  Above-remove i k ((j, w) ∷ m) a = ground (arith, Above-remove i k m a.1)

  pub remove-IsSorted : (k : K) (m : Table K V) → IsSorted m → IsSorted (remove k m)
  unfolding remove
  remove-IsSorted k [] s = tt
  remove-IsSorted k ((j, w) ∷ m) s = ground (arith, remove-IsSorted k m s.1, Above-remove j k m s.0)

  Above-retain : (i : K) (p : K → V → Bool) (m : Table K V) → Above i m → Above i (retain p m)
  unfolding retain
  Above-retain i p [] a = tt
  Above-retain i p ((j, w) ∷ m) a = ground (arith, Above-retain i p m a.1)

  pub retain-IsSorted : (p : K → V → Bool) (m : Table K V) → IsSorted m → IsSorted (retain p m)
  unfolding retain
  retain-IsSorted p [] s = tt
  retain-IsSorted p ((j, w) ∷ m) s = ground (arith, retain-IsSorted p m s.1, Above-retain j p m s.0)

  pub modify-IsSorted : (k : K) (f : V → V) (m : Table K V) → IsSorted m → IsSorted (modify k f m)
  unfolding modify
  modify-IsSorted k f m s = elim (Option-cases (get k m)) [
    | inl e ↦ ground arith
    | inr (v, e) ↦ ground (arith, insert-IsSorted k (f v) m s)
  ]

  pub or_insert-IsSorted : (k : K) (v : V) (m : Table K V) → IsSorted m → IsSorted (or_insert k v m)
  unfolding or_insert
  or_insert-IsSorted k v m s = ground (arith, insert-IsSorted k v m s)

  pub upsert-IsSorted :
      (k : K) (f : Option V → V) (m : Table K V) → IsSorted m → IsSorted (upsert k f m)
  unfolding upsert
  upsert-IsSorted k f m s = insert-IsSorted k (f (get k m)) m s

  -- What is left after a filter.
  pub get-retain :
      (k : K) (p : K → V → Bool) (m : Table K V)
      → IsSorted m
      → get k (retain p m)
        ≡ elim (get k m) [ none ↦ none | some v ↦ if p k v then some v else none ]
  unfolding get retain
  get-retain k p [] s = refl
  get-retain k p ((j, w) ∷ m) s =
      ground (arith, get-retain k p m s.1, o.eq_of_cmp k j, get-Above k m)

  -- Reading below a first key that two sorted tables share.
  get_tail :
      (k j : K) (v w : V) (m n : Table K V)
      → k ≡ j
      → Above k m
      → Above j n
      → ((i : K) → get i ((k, v) ∷ m) ≡ get i ((j, w) ∷ n))
      → (i : K) → get i m ≡ get i n
  unfolding get
  get_tail k j v w m n e a b h i =
      ground (arith, h i, o.eq_of_cmp i k, o.eq_of_cmp i j, get-Above k m a, get-Above j n b)

  first_lt :
      (k j : K) (v w : V) (m n : Table K V)
      → o.cmp k j ≡ lt
      → Above j n
      → ((i : K) → get i ((k, v) ∷ m) ≡ get i ((j, w) ∷ n))
      → ⊥
  unfolding get
  first_lt k j v w m n l b h =
      ground (arith, h k, o.cmp_refl k, get-Above k n (Above-trans k j n l b))

  -- Two sorted tables that read the same at every key are equal.
  pub ext : (m n : Table K V) → IsSorted m → IsSorted n → ((k : K) → get k m ≡ get k n) → m ≡ n
  unfolding get
  ext [] [] s t h = refl
  ext [] ((j, w) ∷ n) s t h = ground (arith, h j, o.cmp_refl j)
  ext ((k, v) ∷ m) [] s t h = ground (arith, h k, o.cmp_refl k)
  ext ((k, v) ∷ m) ((j, w) ∷ n) s t h = go (o.cmp k j) refl (ext m n s.1 t.1)
    where
      go :
          (c : Ordering)
          → o.cmp k j ≡ c
          → (((i : K) → get i m ≡ get i n) → m ≡ n)
          → (k, v) ∷ m ≡ (j, w) ∷ n
      go lt e rest = absurd (first_lt k j v w m n e t.0 h)
      go gt e rest = absurd (first_lt j k w v n m (o.lt_of_gt k j e) s.0 (λ i. sym (h i)))
      go eq e rest =
          let same_key = o.eq_of_cmp k j e in
          let head : v ≡ w = ground (arith, h k, o.cmp_refl k) in
          cc (same_key, head, rest (get_tail k j v w m n same_key s.0 t.0 h))

  insert_all-IsSorted : (m acc : Table K V) → IsSorted acc → IsSorted (insert_all acc m)
  unfolding insert_all
  insert_all-IsSorted [] acc s = s
  insert_all-IsSorted ((k, v) ∷ m) acc s =
      insert_all-IsSorted m (insert k v acc) (insert-IsSorted k v acc s)

  get-insert_all :
      (i : K) (m acc : Table K V)
      → IsSorted m
      → get i (insert_all acc m) ≡ elim (get i m) [ none ↦ get i acc | some v ↦ some v ]
  unfolding insert_all get
  get-insert_all i [] acc s = refl
  get-insert_all i ((k, v) ∷ m) acc s = ground (
    arith,
    get-insert_all i m (insert k v acc) s.1,
    get-insert i k v acc,
    o.eq_of_cmp i k,
    get-Above k m s.0,
  )

  -- Inserting the entries of a sorted table one by one gives the table.
  pub insert_all-empty : (m : Table K V) → IsSorted m → insert_all [] m ≡ m
  unfolding get
  insert_all-empty m s =
      ext (insert_all [] m) m (insert_all-IsSorted m [] tt) s
        λ i. get-insert_all i m [] s ∙ at_key (get i m)
    where
      at_key : (p : Option V) → elim p [ none ↦ none | some v ↦ some v ] ≡ p
      at_key none = refl
      at_key (some v) = refl
