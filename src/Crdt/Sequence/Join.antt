-- ===== src/Crdt/Sequence/Join.antt =====
-- The join of the sequence of crates/kyoso_crdt/src/types/sequence.rs, and what a mutation sends.
use kyosync.Prelude.{◌≡◌, refl, some, arith}
use kyosync.Table.{get}
use kyosync.Table.Sorted.{IsSorted}
use kyosync.Table.Merge.{merge-IsSorted, merge_comm, merge_assoc, merge_idem, merge_bottom}
use kyosync.Crdt.Lattice.{IsSemilattice}
use kyosync.Crdt.Context.{SubDot, CausalContext, dot_ord}
use kyosync.Crdt.Delta.{ok}
use kyosync.Crdt.Sequence.{
  Element, Sequence, SequenceMut, insert_at, delete_at, absorb, join, new, apply, mutate,
}

module _ {ℓ} {T : Type ℓ} where
  unfoldable pub Wf : Sequence T → Type 0
  Wf s = IsSorted s.elements

  -- An id that both sequences hold is that of one insertion.
  unfoldable pub IsAgreed : Sequence T → Sequence T → Type ℓ
  IsAgreed a b =
      (k : SubDot) (x y : Element T)
      → get k a.elements ≡ some x
      → get k b.elements ≡ some y
      → (x.value ≡ y.value) × (x.predecessor ≡ y.predecessor)

  absorb_idem : (x : Element T) → absorb x x ≡ x
  absorb_idem x = ground arith

  absorb_assoc : (x y z : Element T) → absorb (absorb x y) z ≡ absorb x (absorb y z)
  absorb_assoc x y z = ground arith

  absorb_comm :
      (x y : Element T)
      → x.value ≡ y.value
      → x.predecessor ≡ y.predecessor
      → absorb x y ≡ absorb y x
  absorb_comm x y h k = ground arith

  abbrev of_elements : (a b : Sequence T) → a.elements ≡ b.elements → a ≡ b
  of_elements a b h = λ i. record { elements = h i }

  -- On sequences whose elements are sorted by id the join keeps that order, is idempotent and
  -- associative and has the empty sequence as its bottom, and it is commutative where the two
  -- agree on the value and the predecessor of each id that both hold.
  pub sequence-IsSemilattice : IsSemilattice Wf IsAgreed (join {T = T}) new
  unfolding Wf IsAgreed join
  sequence-IsSemilattice = record {
    bottom_wf = tt;
    join_wf = λ a b s t. merge-IsSorted absorb a.elements b.elements s;
    idem = λ a s. of_elements _ _ (merge_idem absorb a.elements s (λ k x h. absorb_idem x));
    bottom_join = λ a s. of_elements _ _ (merge_bottom absorb a.elements s);
    comm = λ a b s t agreed. of_elements _ _ (
        merge_comm absorb a.elements b.elements s t
          (λ k x y h i. absorb_comm x y (agreed k x y h i).0 (agreed k x y h i).1));
    assoc = λ a b c s t u. of_elements _ _ (
        merge_assoc absorb a.elements b.elements c.elements s t u
          (λ k x y z h i j. absorb_assoc x y z));
  }

  -- What a mutation sends does to another copy of the sequence what the mutation did.
  pub apply-mutate :
      (m : SequenceMut T) (ctx : CausalContext) (s : Sequence T)
      → apply (mutate m ctx s).1 ctx s ≡ ((mutate m ctx s).0, ok)
  unfolding mutate apply
  apply-mutate (insert_at pos v) ctx s = refl
  apply-mutate (delete_at pos count) ctx s = refl
