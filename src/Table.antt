-- ===== src/Table.antt =====
-- `BTreeMap<K, V>` as its entries in the order of the keys, which is what its iterators, its
-- equality and its encoding show. `HashMap<K, V>` is read so too: the code never depends on its
-- order. A `BTreeSet<K>` is a table whose values say nothing.
pub mod Laws
pub mod Sorted
pub mod Merge
pub mod Set
use kyosync.Prelude.{
  List, [], ◌∷◌, Option, none, some, Bool, true, false, lt, eq, gt, if◌then◌else◌,
}
use kyosync.Prelude.Order.{Ord, same}

abbrev pub Table {ℓ κ} : Type ℓ → Type κ → Type (ℓ ⊔ κ)
Table K V = List (K × V)

module _ {ℓ κ} {K : Type ℓ} {V : Type κ} where
  unfoldable pub values : Table K V → List V
  values [] = []
  values ((k, v) ∷ m) = v ∷ values m

  unfoldable pub keys : Table K V → List K
  keys [] = []
  keys ((k, v) ∷ m) = k ∷ keys m

  -- `retain`
  unfoldable pub retain : (K → V → Bool) → Table K V → Table K V
  retain p [] = []
  retain p ((k, v) ∷ m) = let rest = retain p m in if p k v then (k, v) ∷ rest else rest

  -- `values_mut`
  unfoldable pub map_values {μ} : {W : Type μ} → (V → W) → Table K V → Table K W
  map_values f [] = []
  map_values f ((k, v) ∷ m) = (k, f v) ∷ map_values f m

module _ {ℓ κ} {K : Type ℓ} {V : Type κ} ⦃o : Ord K⦄ where
  unfoldable pub get : K → Table K V → Option V
  get k [] = none
  get k ((j, v) ∷ m) = elim (o.cmp k j) [ eq ↦ some v | _ ↦ get k m ]

  unfoldable pub insert : K → V → Table K V → Table K V
  insert k v [] = (k, v) ∷ []
  insert k v ((j, w) ∷ m) = elim (o.cmp k j) [
    | lt ↦ (k, v) ∷ (j, w) ∷ m
    | eq ↦ (k, v) ∷ m
    | gt ↦ (j, w) ∷ insert k v m
  ]

  unfoldable pub remove : K → Table K V → Table K V
  remove k [] = []
  remove k ((j, w) ∷ m) = let rest = remove k m in if same k j then rest else (j, w) ∷ rest

  -- `*entry(k) = f(old)`, where `f` is given what is there
  unfoldable pub upsert : K → (Option V → V) → Table K V → Table K V
  upsert k f m = insert k (f (get k m)) m

  -- `entry(k).or_insert(v)`
  unfoldable pub or_insert : K → V → Table K V → Table K V
  or_insert k v m = elim (get k m) [ none ↦ insert k v m | some _ ↦ m ]

  -- `if let Some(x) = get_mut(k) { *x = f(x) }`
  unfoldable pub modify : K → (V → V) → Table K V → Table K V
  modify k f m = elim (get k m) [ none ↦ m | some v ↦ insert k (f v) m ]

  unfoldable pub contains_key : K → Table K V → Bool
  contains_key k m = elim (get k m) [ none ↦ false | some _ ↦ true ]
