-- ===== src/Crdt/PnCounter/Join.antt =====
-- The join of the counter of crates/kyoso_crdt/src/types/pn_counter.rs, and runs of contributions.
use kyosync.Prelude.{
  ℕ, ◌+◌, ◌%◌, max, Option, some, List, ◌≡◌, refl, ap, sym, ◌∙◌, suc, arith, wrap64, u64_mod,
}
use native.Mathlib.Nat.{mod-add-mod}
use mathlib.Core.Option
use mathlib.Core.List.{Permᴰ}
use kyosync.Prelude.Order.{nat_ord, eq_of_same}
use kyosync.Prelude.Reorder.{fold_steps, fold_steps-perm}
use kyosync.Table.{Table, get, upsert}
use kyosync.Table.Laws.{get-upsert}
use kyosync.Table.Sorted.{IsSorted, ext, upsert-IsSorted}
use kyosync.Table.Merge.{merge-IsSorted, merge_comm, merge_assoc, merge_idem, merge_bottom}
use kyosync.Crdt.Lattice.{IsSemilattice}
use kyosync.Crdt.Ident.{PeerId}
use kyosync.Crdt.Context.{CausalContext}
use kyosync.Crdt.Delta.{ℤ, pos, negsuc}
use kyosync.Crdt.PnCounter.{PnCounter, new, join, plus, contribute, apply}

abbrev pub Wf : PnCounter → Type 0
Wf c = IsSorted c.increments × IsSorted c.decrements

parts :
    {a c b d : Table PeerId ℕ}
    → a ≡ c
    → b ≡ d
    → ◌≡◌ {A = PnCounter}
        (record { increments = a; decrements = b })
        (record { increments = c; decrements = d })
parts p q = λ i. record { increments = p i; decrements = q i }

-- On counters whose tables are sorted by peer the join is idempotent, commutative and associative,
-- has the empty counter as its bottom, and keeps the tables sorted.
pub pn_counter-IsSemilattice : IsSemilattice Wf (λ _ _. Unit {0}) join new
unfolding join new
pn_counter-IsSemilattice = record {
  bottom_wf = (tt, tt);
  join_wf = λ a b s t. (
    merge-IsSorted max a.increments b.increments s.0,
    merge-IsSorted max a.decrements b.decrements s.1,
  );
  idem = λ a s.
      parts (merge_idem max a.increments s.0 (λ _ x _. omega arith))
        (merge_idem max a.decrements s.1 (λ _ x _. omega arith));
  bottom_join =
      λ a s. parts (merge_bottom max a.increments s.0) (merge_bottom max a.decrements s.1);
  comm = λ a b s t _.
      parts (merge_comm max a.increments b.increments s.0 t.0 (λ _ x y _ _. omega arith))
        (merge_comm max a.decrements b.decrements s.1 t.1 (λ _ x y _ _. omega arith));
  assoc = λ a b c s t u.
      parts
        (merge_assoc max a.increments b.increments c.increments s.0 t.0 u.0
          (λ _ x y z _ _ _. omega arith))
        (merge_assoc max a.decrements b.decrements c.decrements s.1 t.1 u.1
          (λ _ x y z _ _ _. omega arith));
}

plus_comm : (m n : ℕ) (old : Option ℕ) → plus n (some (plus m old)) ≡ plus m (some (plus n old))
unfolding wrap64
plus_comm m n old =
    let v = Option.get_or old 0 in
    let swapped : v + m + n ≡ v + n + m = omega arith in
    mod-add-mod (v + m) u64_mod n
    ∙ ap (λ t. t % u64_mod) swapped
    ∙ sym (mod-add-mod (v + n) u64_mod m)

upsert_comm :
    (p q : PeerId) (m n : ℕ) (t : Table PeerId ℕ)
    → IsSorted t
    → upsert q (plus n) (upsert p (plus m) t) ≡ upsert p (plus m) (upsert q (plus n) t)
upsert_comm p q m n t s =
    ext (upsert q (plus n) (upsert p (plus m) t)) (upsert p (plus m) (upsert q (plus n) t))
      (upsert-IsSorted q (plus n) (upsert p (plus m) t) (upsert-IsSorted p (plus m) t s))
      (upsert-IsSorted p (plus m) (upsert q (plus n) t) (upsert-IsSorted q (plus n) t s))
      λ k. ground (
        arith,
        get-upsert k q (plus n) (upsert p (plus m) t),
        get-upsert k p (plus m) t,
        get-upsert k p (plus m) (upsert q (plus n) t),
        get-upsert k q (plus n) t,
        get-upsert q p (plus m) t,
        get-upsert p q (plus n) t,
        eq_of_same k p,
        eq_of_same k q,
        eq_of_same p q,
        plus_comm m n (get p t),
      )

-- The op of a context that contributes an amount.
abbrev pub receive : CausalContext × ℤ → PnCounter → PnCounter
receive (ctx, by) c = (apply (record { by = by }) ctx c).0

receive-Wf : (op : CausalContext × ℤ) (c : PnCounter) → Wf c → Wf (receive op c)
unfolding apply contribute
receive-Wf (ctx, pos n) c s = (upsert-IsSorted ctx.op_id.peer (plus n) c.increments s.0, s.1)
receive-Wf (ctx, negsuc n) c s =
    (s.0, upsert-IsSorted ctx.op_id.peer (plus (suc n)) c.decrements s.1)

receive_comm :
    (p q : CausalContext × ℤ) (c : PnCounter)
    → Wf c
    → receive q (receive p c) ≡ receive p (receive q c)
unfolding apply contribute
receive_comm (c, pos m) (d, pos n) x s =
    parts (upsert_comm c.op_id.peer d.op_id.peer m n x.increments s.0) refl
receive_comm (c, pos m) (d, negsuc n) x s = refl
receive_comm (c, negsuc m) (d, pos n) x s = refl
receive_comm (c, negsuc m) (d, negsuc n) x s =
    parts refl (upsert_comm c.op_id.peer d.op_id.peer (suc m) (suc n) x.decrements s.1)

-- A counter whose tables are sorted by peer ends in one state whatever the order in which a list
-- of contributions is applied to it, also where sums wrap at 2^64.
pub pn_counter_converges :
    {ops ops' : List (CausalContext × ℤ)}
    → Permᴰ ops ops'
    → (c : PnCounter) → Wf c
    → fold_steps receive ops c ≡ fold_steps receive ops' c
pn_counter_converges p c s = fold_steps-perm Wf receive receive-Wf receive_comm p c s
