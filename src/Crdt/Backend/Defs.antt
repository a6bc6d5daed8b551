-- ===== src/Crdt/Backend/Defs.antt =====
-- The state of `Backend<T, S>` and its methods. The shared `IdGen` handle is the generator behind it.
use kyosync.Prelude.{
  ℕ, ◌+◌, List, [], ◌∷◌, ◌++◌, Option, none, some, leb, ltb, ◌==◌, if◌then◌else◌, wrap64, length,
}
use mathlib.Core.Option
use kyosync.Table.{Table, get, insert, upsert, or_insert, keys}
use kyosync.Crdt.Ident.{PeerId, GlobalSeq, LocalSeq, CrdtId, IdGenerator, id_ord, mint, bump_to}
use kyosync.Crdt.Ident
use kyosync.Crdt.Context.{CausalState, CausalContext, new_state}
use kyosync.Crdt.Delta.{Applied}
use kyosync.Crdt.Delta
use kyosync.Crdt.Op.{Op}
use kyosync.Crdt.Topology.{Topology, Schema, PropertyOp}

-- crates/kyoso_crdt/src/model.rs
pub data ApplyError : Type 0 where
  unconfirmed : ApplyError
  out_of_order : (expected got : GlobalSeq) → ApplyError

-- `Result<(), ApplyError>`
pub data ApplyResult : Type 0 where
  ok : ApplyResult
  err : ApplyError → ApplyResult

module _ (T : Topology) (S : Schema) where
  open T use {OpKind, apply_structural_op, extract_property_op, extract_new_entity_id}

  pub record Backend : Type 0 where
    pub ids : IdGenerator
    pub topology : T.State
    pub schemas : Table CrdtId S.State
    pub pending : List (Op OpKind)
    pub applied_seq : GlobalSeq
    pub causal : CausalState

  pub record Snapshot : Type 0 where
    pub at_seq : GlobalSeq
    pub topology : T.SnapshotState
    pub schemas : Table CrdtId S.State

  unfoldable pub with_shared_ids : IdGenerator → Backend
  with_shared_ids ids = record {
    ids = ids;
    topology = T.initial;
    schemas = [];
    pending = [];
    applied_seq = 0;
    causal = new_state;
  }

  unfoldable pub with_peer : PeerId → Backend
  unfolding with_shared_ids
  with_peer peer = with_shared_ids (Ident.new peer)

  unfoldable pub set_peer : PeerId → Backend → Backend
  set_peer peer b = record b { ids = Ident.set_peer peer b.ids }

  unfoldable pub mint_id : Backend → CrdtId × Backend
  mint_id b = let (id, ids) = mint b.ids in (id, record b { ids = ids })

  unfoldable pub schema : CrdtId → Backend → Option S.State
  schema id b = get id b.schemas

  unfoldable pub ensure_schema : CrdtId → Backend → Backend
  ensure_schema id b = record b { schemas = or_insert id S.default b.schemas }

  unfoldable pub enqueue : Op OpKind → Backend → Backend
  enqueue op b = record b { pending = b.pending ++ op ∷ [] }

  unfoldable pub queue_op : OpKind → Backend → CrdtId × Backend
  unfolding mint_id enqueue
  queue_op kind b =
      let (id, b') = mint_id b in (id, enqueue (record { id = id; seq = none; kind = kind }) b')

  unfoldable pub drain_pending : Backend → List (Op OpKind) × Backend
  drain_pending b = (b.pending, record b { pending = [] })

  unfoldable pub pending_len : Backend → ℕ
  pending_len b = length b.pending

  unfoldable pub mutate_schema_with_context :
      CrdtId → S.Mutation → Backend → Option (CrdtId × S.Delta) × Backend
  mutate_schema_with_context target mutation b = elim (get target b.schemas) [
    | none ↦ (none, b)
    | some s ↦
        let (op_id, ids) = mint b.ids in
        let (s', delta, ctx) =
          S.mutate mutation (record { op_id = op_id; seq = none; state = b.causal }) s in
        (
          some (op_id, delta),
          record b { ids = ids; schemas = insert target s' b.schemas; causal = ctx.state },
        )
  ]

  abbrev pub context : Op OpKind → CausalState → CausalContext
  context op causal = record { op_id = op.id; seq = op.seq; state = causal }

  -- A property op: the error of the schema, if any, is dropped.
  abbrev apply_property : PropertyOp → CausalContext → Table CrdtId S.State → Table CrdtId S.State
  apply_property p ctx schemas =
      upsert p.target (λ old. (S.apply_wire p.path p.delta ctx (Option.get_or old S.default)).0)
        schemas

  -- The routing inside `apply_remote`.
  unfoldable pub route : Op OpKind → Backend → Backend
  route op b =
      let ctx = context op b.causal in
      elim (extract_property_op op.kind) [
        | some p ↦ record b { schemas = apply_property p ctx b.schemas }
        | none ↦ record b {
          topology = apply_structural_op op.kind ctx b.topology;
          schemas = elim (extract_new_entity_id op.kind ctx) [
            | none ↦ b.schemas
            | some id ↦ or_insert id S.default b.schemas
          ];
        }
      ]

  unfoldable pub apply_remote : Op OpKind → Backend → Backend × ApplyResult
  apply_remote op b = elim op.seq [
    | none ↦ (b, err unconfirmed)
    | some seq ↦
        if leb seq b.applied_seq
        then (b, ok)
        else if seq == wrap64 (b.applied_seq + 1)
        then (record (route op b) { applied_seq = seq }, ok)
        else (b, err (out_of_order (wrap64 (b.applied_seq + 1)) seq))
  ]

  unfoldable pub apply_property_op : Op OpKind → Backend → Backend × Applied
  apply_property_op op b = elim (extract_property_op op.kind) [
    | none ↦ (b, Delta.ok)
    | some p ↦
        let (s, result) =
          S.apply_wire p.path p.delta (context op b.causal)
            (Option.get_or (get p.target b.schemas) S.default) in
        (record b { schemas = insert p.target s b.schemas }, result)
  ]

  unfoldable pub snapshot : Backend → Snapshot
  snapshot b = record {
    at_seq = b.applied_seq;
    topology = T.snapshot b.topology;
    schemas = b.schemas;
  }

  -- The highest sequence number that one of the peer's ids has among the keys, if there is one.
  pub max_local_seq : PeerId → List CrdtId → Option LocalSeq
  max_local_seq peer [] = none
  max_local_seq peer (id ∷ ids) =
      let rest = max_local_seq peer ids in
      if id.peer == peer
      then elim rest [ none ↦ some id.seq | some m ↦ some (if ltb m id.seq then id.seq else m) ]
      else rest

  unfoldable pub restore : Snapshot → Backend → Backend
  restore snap b = record b {
    applied_seq = snap.at_seq;
    topology = T.restore snap.topology b.topology;
    schemas = snap.schemas;
    ids = elim (max_local_seq b.ids.peer (keys snap.schemas)) [
      | none ↦ b.ids
      | some seq ↦ bump_to (wrap64 (seq + 1)) b.ids
    ];
  }
