-- ===== src/Table/Laws.antt =====
-- What `get` reads after each operation on a table.
use kyosync.Prelude.{
  suc, length, ap, sym, ◌∙◌, [], ◌∷◌, Option, none, some, ◌≡◌, refl, arith, if◌then◌else◌, inl, inr,
  Option-cases,
}
use mathlib.Core.Option
use kyosync.Prelude.Order.{Ord, same}
use kyosync.Table.{Table, get, insert, remove, upsert, or_insert, modify, map_values}

module _ {ℓ κ} {K : Type ℓ} {V : Type κ} ⦃o : Ord K⦄ where
  pub get-insert :
      (j k : K) (v : V) (m : Table K V)
      → get j (insert k v m) ≡ (if same j k then some v else get j m)
  unfolding get insert
  get-insert j k v [] = ground arith
  get-insert j k v ((i, w) ∷ m) =
      ground
        (arith, get-insert j k v m, o.eq_of_cmp j k, o.eq_of_cmp k i, o.eq_of_cmp j i, o.cmp_refl k)

  pub get-remove :
      (j k : K) (m : Table K V) → get j (remove k m) ≡ (if same j k then none else get j m)
  unfolding get remove
  get-remove j k [] = ground arith
  get-remove j k ((i, w) ∷ m) =
      ground
        (arith, get-remove j k m, o.eq_of_cmp j k, o.eq_of_cmp k i, o.eq_of_cmp j i, o.cmp_refl k)

  pub get-upsert :
      (j k : K) (f : Option V → V) (m : Table K V)
      → get j (upsert k f m) ≡ (if same j k then some (f (get k m)) else get j m)
  unfolding upsert
  get-upsert j k f m = get-insert j k (f (get k m)) m

  pub get-or_insert :
      (j k : K) (v : V) (m : Table K V)
      → get j (or_insert k v m) ≡ (if same j k then some (Option.get_or (get k m) v) else get j m)
  unfolding or_insert
  get-or_insert j k v m = ground (arith, get-insert j k v m, o.eq_of_cmp j k)

  pub get-modify :
      (j k : K) (f : V → V) (m : Table K V)
      → get j (modify k f m) ≡ (if same j k then Option.map f (get k m) else get j m)
  unfolding modify
  get-modify j k f m = elim (Option-cases (get k m)) [
    | inl e ↦ ground (arith, o.eq_of_cmp j k)
    | inr (v, e) ↦ ground (arith, get-insert j k (f v) m, o.eq_of_cmp j k)
  ]

  pub get-map_values {μ} :
      {W : Type μ} (j : K) (f : V → W) (m : Table K V)
      → get j (map_values f m) ≡ Option.map f (get j m)
  unfolding get map_values
  get-map_values j f [] = refl
  get-map_values j f ((i, w) ∷ m) = ground (arith, get-map_values j f m)

  pub length-insert :
      (k : K) (v : V) (m : Table K V) → get k m ≡ none → length (insert k v m) ≡ suc (length m)
  unfolding get insert
  length-insert k v [] h = refl
  length-insert k v ((j, w) ∷ m) h = ground (arith, length-insert k v m)

  pub modify-absent : (k : K) (f : V → V) (m : Table K V) → get k m ≡ none → modify k f m ≡ m
  unfolding modify
  modify-absent k f m h = rw (h, modify) refl

  pub modify-there :
      (k : K) (f : V → V) (v : V) (m : Table K V)
      → get k m ≡ some v
      → modify k f m ≡ insert k (f v) m
  unfolding modify
  modify-there k f v m h = rw (h, modify) refl

  pub map_values-insert {μ} :
      {W : Type μ} (k : K) (f : V → W) (v : V) (m : Table K V)
      → insert k (f v) (map_values f m) ≡ map_values f (insert k v m)
  unfolding insert map_values
  map_values-insert k f v [] = refl
  map_values-insert k f v ((j, w) ∷ m) = ground (arith, map_values-insert k f v m)

module _ {ℓ κ μ} {K : Type ℓ} {V : Type κ} {W : Type μ} ⦃o : Ord K⦄ where
  pub map_values-modify :
      (k : K) (f : V → W) (g : V → V) (h : W → W) (m : Table K V)
      → ((v : V) → h (f v) ≡ f (g v))
      → modify k h (map_values f m) ≡ map_values f (modify k g m)
  map_values-modify k f g h m c = elim (Option-cases (get k m)) [
    | inl e ↦
        modify-absent k h (map_values f m) (get-map_values k f m ∙ rw e refl)
        ∙ ap (map_values f) (sym (modify-absent k g m e))
    | inr (v, e) ↦
        modify-there k h (f v) (map_values f m) (get-map_values k f m ∙ rw e refl)
        ∙ ap (λ w. insert k w (map_values f m)) (c v)
        ∙ map_values-insert k f (g v) m
        ∙ ap (map_values f) (sym (modify-there k g v m e))
  ]

module _ {ℓ κ} {K : Type ℓ} {V : Type κ} ⦃o : Ord K⦄ where
  -- `for (k, v) in m { acc.insert(k, v) }`
  unfoldable pub insert_all : Table K V → Table K V → Table K V
  insert_all acc [] = acc
  insert_all acc ((k, v) ∷ m) = insert_all (insert k v acc) m
