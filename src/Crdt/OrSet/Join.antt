-- ===== src/Crdt/OrSet/Join.antt =====
-- The join of the set of crates/kyoso_crdt/src/types/or_set.rs.
use kyosync.Prelude.{◌≡◌, some, []}
use kyosync.Prelude.Order.{Ord}
use kyosync.Table.{Table, get}
use kyosync.Table.Sorted.{IsSorted}
use kyosync.Table.Merge.{
  merge-IsSorted, merge_comm, merge_assoc, merge_idem, merge_bottom, merge_values,
}
use kyosync.Table.Set.{TreeSet, union, union-IsSemilattice}
use kyosync.Crdt.Lattice.{IsSemilattice}
use kyosync.Crdt.Context.{SubDot, dot_ord}
use kyosync.Crdt.OrSet.{OrSet, new, join}

abbrev unions : IsSemilattice (IsSorted {K = SubDot}) (λ _ _. Unit {0}) union []
unions = union-IsSemilattice

module _ {ℓ} {T : Type ℓ} ⦃o : Ord T⦄ where
  -- The maps and sets are in the order of their keys.
  pub record Wf (s : OrSet T) : Type ℓ where
    pub items : IsSorted s.adds
    pub tags : (k : T) (t : TreeSet SubDot) → get k s.adds ≡ some t → IsSorted t
    pub removed : IsSorted s.removes

  pub or_set_join-Wf : (a b : OrSet T) → Wf a → Wf b → Wf (join a b)
  unfolding join
  or_set_join-Wf a b h k = record {
    items = merge-IsSorted union a.adds b.adds h.items;
    tags = merge_values union IsSorted a.adds b.adds k.items unions.join_wf h.tags k.tags;
    removed = unions.join_wf _ _ h.removed k.removed;
  }

  -- Two sets with the same additions and removals are equal.
  parts :
      {a c : Table T (TreeSet SubDot)} {b d : TreeSet SubDot}
      → a ≡ c
      → b ≡ d
      → ◌≡◌ {A = OrSet T} (record { adds = a; removes = b }) (record { adds = c; removes = d })
  parts p q = λ i. record { adds = p i; removes = q i }

  empty-Wf : Wf new
  unfolding get
  empty-Wf = record { items = tt; tags = λ k t h. cc; removed = tt }

  -- On sets whose maps are sorted by key the join of observed-remove sets keeps that order, is
  -- idempotent, commutative and associative and has the empty set as its bottom, with equality of
  -- the whole representation.
  pub or_set-IsSemilattice : IsSemilattice Wf (λ _ _. Unit {0}) (join {T = T}) new
  unfolding join
  or_set-IsSemilattice = record {
    bottom_wf = empty-Wf;
    join_wf = or_set_join-Wf;
    idem = λ a h.
        parts (merge_idem union a.adds h.items (λ i x p. unions.idem x (h.tags i x p)))
          (unions.idem a.removes h.removed);
    bottom_join =
        λ a h. parts (merge_bottom union a.adds h.items) (unions.bottom_join a.removes h.removed);
    comm = λ a b h k _.
        parts
          (merge_comm union a.adds b.adds h.items k.items
            (λ i x y p q. unions.comm x y (h.tags i x p) (k.tags i y q) tt))
          (unions.comm a.removes b.removes h.removed k.removed tt);
    assoc = λ a b c h k l.
        parts
          (merge_assoc union a.adds b.adds c.adds h.items k.items l.items
            (λ i x y z p q r. unions.assoc x y z (h.tags i x p) (k.tags i y q) (l.tags i z r)))
          (unions.assoc a.removes b.removes c.removes h.removed k.removed l.removed);
  }
