-- ===== src/Crdt/Backend/Redelivery.antt =====
-- Ops that reach a backend again, for apply_remote of crates/kyoso_crdt/src/backend.rs.
use kyosync.Prelude.{
  ◌+◌, ◌≤◌, ◌<◌, ◌≡◌, List, [], ◌∷◌, some, arith, length, u64_mod, Option-cases, inl, inr,
}
use kyosync.Prelude.Reorder.{fold_steps}
use kyosync.Crdt.Ident.{GlobalSeq}
use kyosync.Crdt.Op.{Op}
use kyosync.Crdt.Topology.{Topology, Schema}
use kyosync.Crdt.Backend.Defs.{Backend, ok, apply_remote}
use kyosync.Crdt.Backend.Replica.{deliver, apply_remote_outcome}

module _ (T : Topology) (S : Schema) where
  -- A delivery raises the applied number by one at most.
  deliver-rises :
      (op : Op T.OpKind) (b : Backend T S)
      → b.applied_seq + 1 < u64_mod
      → (b.applied_seq ≤ (deliver T S op b).applied_seq)
        × ((deliver T S op b).applied_seq ≤ b.applied_seq + 1)
  deliver-rises op b h = elim (Option-cases op.seq) [
    | inl e ↦ ground (arith, apply_remote_outcome T S op b h)
    | inr (seq, e) ↦ ground (arith, apply_remote_outcome T S op b h)
  ]

  deliveries-rise :
      (ops : List (Op T.OpKind)) (b : Backend T S)
      → b.applied_seq + length ops < u64_mod
      → b.applied_seq ≤ (fold_steps (deliver T S) ops b).applied_seq
  unfolding fold_steps
  deliveries-rise [] b h = omega arith
  deliveries-rise (op ∷ ops) b h =
      let (low, high) = deliver-rises op b (omega (arith, h)) in
      let rest = deliveries-rise ops (deliver T S op b) (omega (arith, high, h)) in
      omega (arith, low, rest)

  -- An accepted op has a number, and the backend has then applied up to it at least.
  accepted_number :
      (op : Op T.OpKind) (b : Backend T S)
      → b.applied_seq + 1 < u64_mod
      → (apply_remote T S op b).1 ≡ ok
      → (seq : GlobalSeq) × (op.seq ≡ some seq) × (seq ≤ (deliver T S op b).applied_seq)
  accepted_number op b h accepted = elim (Option-cases op.seq) [
    | inl e ↦ absurd (ground (arith, apply_remote_outcome T S op b h))
    | inr (seq, e) ↦ (seq, e, ground (arith, apply_remote_outcome T S op b h))
  ]

  known_number :
      (op : Op T.OpKind) (b : Backend T S) (seq : GlobalSeq)
      → op.seq ≡ some seq
      → seq ≤ b.applied_seq
      → apply_remote T S op b ≡ (b, ok)
  unfolding apply_remote
  known_number op b seq e h = ground arith

  -- An op that a replica accepted is accepted whenever it arrives again, with whatever deliveries
  -- between, and changes nothing then. Asked is that the applied number before and the number of
  -- deliveries between are together below 2^64 - 1.
  pub accepted_again :
      (op : Op T.OpKind) (ops : List (Op T.OpKind)) (b : Backend T S)
      → b.applied_seq + length ops + 1 < u64_mod
      → (apply_remote T S op b).1 ≡ ok
      → apply_remote T S op (fold_steps (deliver T S) ops (deliver T S op b))
        ≡ (fold_steps (deliver T S) ops (deliver T S op b), ok)
  accepted_again op ops b h accepted =
      let (seq, e, below) = accepted_number op b (omega (arith, h)) accepted in
      let high = (deliver-rises op b (omega (arith, h))).1 in
      let rise = deliveries-rise ops (deliver T S op b) (omega (arith, high, h)) in
      known_number op (fold_steps (deliver T S) ops (deliver T S op b)) seq e
        (omega (arith, below, rise))
