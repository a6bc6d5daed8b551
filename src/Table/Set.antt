-- ===== src/Table/Set.antt =====
-- `BTreeSet<K>`: a table whose values say nothing.
use kyosync.Prelude.{List, [], ◌∷◌, Bool, false, ◌≡◌, refl, arith, ◌||◌}
use kyosync.Prelude.Order.{Ord, same}
use kyosync.Crdt.Lattice.{IsSemilattice}
use kyosync.Table.{Table, insert, contains_key}
use kyosync.Table.Laws.{get-insert}
use kyosync.Table.Sorted.{IsSorted, insert-IsSorted, ext}
use kyosync.Table.Merge.{
  merge, get-merge, merge-IsSorted, merge_assoc, merge_comm, merge_idem, merge_bottom,
}

abbrev pub TreeSet {ℓ} : Type ℓ → Type ℓ
TreeSet K = Table K (Unit {0})

abbrev pub either : Unit {0} → Unit {0} → Unit {0}
either _ _ = tt

module _ {ℓ} {K : Type ℓ} ⦃o : Ord K⦄ where
  unfoldable pub has : K → TreeSet K → Bool
  unfolding contains_key
  has k s = contains_key k s

  unfoldable pub put : K → TreeSet K → TreeSet K
  put k s = insert k tt s

  -- `extend` with the elements of a list
  unfoldable pub extend : List K → TreeSet K → TreeSet K
  unfolding put
  extend [] s = s
  extend (k ∷ ks) s = extend ks (put k s)

  -- `extend` with another set
  unfoldable pub union : TreeSet K → TreeSet K → TreeSet K
  union a b = merge either a b

  abbrev pub listed : K → List K → Bool
  listed k [] = false
  listed k (j ∷ js) = same k j || listed k js

  pub put-IsSorted : (k : K) (s : TreeSet K) → IsSorted s → IsSorted (put k s)
  unfolding put
  put-IsSorted k s h = insert-IsSorted k tt s h

  pub extend-IsSorted : (ks : List K) (s : TreeSet K) → IsSorted s → IsSorted (extend ks s)
  unfolding extend
  extend-IsSorted [] s h = h
  extend-IsSorted (k ∷ ks) s h = extend-IsSorted ks (put k s) (put-IsSorted k s h)

  pub has-put : (j k : K) (s : TreeSet K) → has j (put k s) ≡ (same j k || has j s)
  unfolding has put
  has-put j k s = ground (arith, get-insert j k tt s)

  pub has-extend :
      (j : K) (ks : List K) (s : TreeSet K) → has j (extend ks s) ≡ (listed j ks || has j s)
  unfolding extend
  has-extend j [] s = refl
  has-extend j (k ∷ ks) s = ground (arith, has-extend j ks (put k s), has-put j k s)

  pub has-union : (j : K) (a b : TreeSet K) → IsSorted b → has j (union a b) ≡ (has j a || has j b)
  unfolding has union
  has-union j a b s = ground (arith, get-merge either j a b s)

  -- Two sorted sets with the same elements are equal.
  pub set_ext : (a b : TreeSet K) → IsSorted a → IsSorted b → ((k : K) → has k a ≡ has k b) → a ≡ b
  unfolding has
  set_ext a b s t h = ext a b s t (λ k. ground (arith, h k))

  -- The union of sorted sets is a join with the empty set at the bottom.
  pub union-IsSemilattice : IsSemilattice (IsSorted {K = K}) (λ _ _. Unit {0}) union []
  unfolding union
  union-IsSemilattice = record {
    bottom_wf = tt;
    join_wf = λ a b s _. merge-IsSorted either a b s;
    idem = λ a s. merge_idem either a s (λ _ _ _. refl);
    bottom_join = λ a s. merge_bottom either a s;
    comm = λ a b s t _. merge_comm either a b s t (λ _ _ _ _ _. refl);
    assoc = λ a b c s t u. merge_assoc either a b c s t u (λ _ _ _ _ _ _ _. refl);
  }
