-- ===== src/Crdt/MoveTree/Join.antt =====
-- The join of the move log of crates/kyoso_crdt/src/types/move_tree.rs, and runs of moves.
use kyosync.Prelude.{◌≡◌, refl, ap, sym, ◌∙◌, some, [], ◌∷◌, inl, inr, Option-cases, arith}
use mathlib.Core.List.{Permᴰ}
use kyosync.Prelude.{List}
use kyosync.Prelude.Order.{nat_ord, eq_of_same}
use kyosync.Prelude.Reorder.{fold_steps, fold_steps-perm}
use kyosync.Table.{Table, get, insert, or_insert, upsert}
use kyosync.Table.Laws.{get-insert}
use kyosync.Table.Sorted.{IsSorted, ext, insert-IsSorted}
use kyosync.Table.Merge.{
  joined, merge, merge-IsSorted, merge_comm, merge_assoc, merge_idem, merge_bottom,
}
use kyosync.Crdt.Lattice.{IsSemilattice}
use kyosync.Crdt.Ident.{GlobalSeq}
use kyosync.Crdt.Context.{CausalContext}
use kyosync.Crdt.MoveTree.{
  MoveRecord, MoveTree, MoveTreeDelta, record_of, new, join, insert_missing, apply, forest,
}

abbrev keep_left : MoveRecord → MoveRecord → MoveRecord
keep_left x y = x

abbrev pub Wf : MoveTree → Type 0
Wf t = IsSorted t.log

-- A sequence number that both logs hold stands for one move. The server gives each op its own.
abbrev pub Agree : MoveTree → MoveTree → Type 0
Agree a b =
    (seq : GlobalSeq) (x y : MoveRecord) → get seq a.log ≡ some x → get seq b.log ≡ some y → x ≡ y

-- Inserting what is there already changes nothing.
insert_same :
    (seq : GlobalSeq) (rec : MoveRecord) (log : Table GlobalSeq MoveRecord)
    → IsSorted log
    → get seq log ≡ some rec
    → insert seq rec log ≡ log
insert_same seq rec log s e =
    ext (insert seq rec log) log (insert-IsSorted seq rec log s) s
      λ k. ground (arith, get-insert k seq rec log, eq_of_same k seq)

entry_step :
    (seq : GlobalSeq) (rec : MoveRecord) (log : Table GlobalSeq MoveRecord)
    → IsSorted log
    → or_insert seq rec log ≡ upsert seq (joined keep_left rec) log
unfolding or_insert upsert
entry_step seq rec log s = elim (Option-cases (get seq log)) [
  | inl e ↦ ground arith
  | inr (v, e) ↦ ground (arith, insert_same seq v log s e)
]

-- The loop of `join` merges the logs, and keeps its own entry where both have one.
insert_missing-eq-merge :
    (log other : Table GlobalSeq MoveRecord)
    → IsSorted log
    → insert_missing log other ≡ merge keep_left log other
unfolding insert_missing merge upsert
insert_missing-eq-merge log [] s = refl
insert_missing-eq-merge log ((seq, rec) ∷ other) s = rw (entry_step seq rec log s) (
    insert_missing-eq-merge (upsert seq (joined keep_left rec) log) other
      (insert-IsSorted seq (joined keep_left rec (get seq log)) log s))

join-eq-merge : (a b : MoveTree) → Wf a → join a b ≡ record { log = merge keep_left a.log b.log }
unfolding join
join-eq-merge a b s = ap (λ l. record { log = l }) (insert_missing-eq-merge a.log b.log s)

join-Wf : (a b : MoveTree) → Wf a → Wf b → Wf (join a b)
join-Wf a b s t = rw (join-eq-merge a b s) (merge-IsSorted keep_left a.log b.log s)

-- On sorted logs the join of move logs keeps the order, is idempotent and associative, has the
-- empty log as its bottom, and is commutative where a sequence number that both sides hold stands
-- for one move.
pub move_tree-IsSemilattice : IsSemilattice Wf Agree join new
unfolding new
move_tree-IsSemilattice = record {
  bottom_wf = tt;
  join_wf = join-Wf;
  idem = λ a s.
      join-eq-merge a a s
      ∙ ap (λ l. record { log = l }) (merge_idem keep_left a.log s (λ _ _ _. refl));
  bottom_join =
      λ a s. join-eq-merge new a tt ∙ ap (λ l. record { log = l }) (merge_bottom keep_left a.log s);
  comm = λ a b s t h.
      join-eq-merge a b s
      ∙ ap (λ l. record { log = l })
          (merge_comm keep_left a.log b.log s t (λ k x y e f. h k x y e f))
      ∙ sym (join-eq-merge b a t);
  assoc = λ a b c s t u.
      join-eq-merge (join a b) c (join-Wf a b s t)
      ∙ ap (λ (m : MoveTree). record { log = merge keep_left m.log c.log }) (join-eq-merge a b s)
      ∙ ap (λ l. record { log = l })
          (merge_assoc keep_left a.log b.log c.log s t u (λ _ _ _ _ _ _ _. refl))
      ∙ ap (λ (m : MoveTree). record { log = merge keep_left a.log m.log })
          (sym (join-eq-merge b c t))
      ∙ sym (join-eq-merge a (join b c) s);
}

-- The move that the server put at a sequence number, applied by a replica.
abbrev pub receive : (GlobalSeq → MoveTreeDelta) → (CausalContext × GlobalSeq) → MoveTree → MoveTree
receive move (ctx, seq) t = (apply (move seq) (record ctx { seq = some seq }) t).0

receive-Wf :
    (move : GlobalSeq → MoveTreeDelta) (op : CausalContext × GlobalSeq) (t : MoveTree)
    → Wf t
    → Wf (receive move op t)
unfolding apply
receive-Wf move (ctx, seq) t s = insert-IsSorted seq (record_of (move seq)) t.log s

receive_comm :
    (move : GlobalSeq → MoveTreeDelta) (p q : CausalContext × GlobalSeq) (t : MoveTree)
    → Wf t
    → receive move q (receive move p t) ≡ receive move p (receive move q t)
unfolding apply
receive_comm move (c, m) (d, n) t s =
    let x = record_of (move m) in
    let y = record_of (move n) in
    ap (λ l. record { log = l })
      (ext (insert n y (insert m x t.log)) (insert m x (insert n y t.log))
        (insert-IsSorted n y (insert m x t.log) (insert-IsSorted m x t.log s))
        (insert-IsSorted m x (insert n y t.log) (insert-IsSorted n y t.log s))
        λ k. ground (
          arith,
          get-insert k n y (insert m x t.log),
          get-insert k m x (insert n y t.log),
          get-insert k m x t.log,
          get-insert k n y t.log,
          eq_of_same k m,
          eq_of_same k n,
        ))

-- Where each sequence number stands for one move, a replica ends with the same log, and so the
-- same forest, whatever the order in which the moves reach it.
pub move_tree_converges :
    (move : GlobalSeq → MoveTreeDelta) {ops ops' : List (CausalContext × GlobalSeq)}
    → Permᴰ ops ops'
    → (t : MoveTree) → Wf t
    → (fold_steps (receive move) ops t ≡ fold_steps (receive move) ops' t)
      × (forest (fold_steps (receive move) ops t) ≡ forest (fold_steps (receive move) ops' t))
move_tree_converges move p t s =
    let same_log = fold_steps-perm Wf (receive move) (receive-Wf move) (receive_comm move) p t s in
    (same_log, ap forest same_log)
