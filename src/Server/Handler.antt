-- ===== src/Server/Handler.antt =====
-- apps/kyoso_server/src/services/handlers/graph.rs: the handler of a room's document, over the
-- backend that mirrors it. Payloads are the values that they encode.
pub mod Kept
pub mod Sound
pub mod Welcome
use kyosync.Prelude.{◌+◌, min, Option, none, some, List, [], ◌∷◌, ltb, ◌==◌, ◌||◌, if◌then◌else◌, ℕ}
use mathlib.Core.Option
use kyosync.Crdt.Ident.{GlobalSeq, PeerId}
use kyosync.Crdt.Op.{Op, Diff, empty_diff}
use kyosync.Crdt.Topology.{Topology, Schema}
use kyosync.Crdt.Backend.Defs.{Backend, Snapshot, ApplyResult, ApplyError, with_peer, apply_remote}
use kyosync.Crdt.Backend.Defs
use kyosync.Server.Store.{InMemoryStorage, RoomId}
use kyosync.Server.Store

-- `Result<Self>` of a hydration: the handler or the replay's error.
pub data Restored {ℓ} (H : Type ℓ) : Type ℓ where
  hydrated : H → Restored H
  replay_failed : ApplyError → Restored H

-- `Result<Vec<u8>>` of a submit: the stamped op or the mirror's error.
pub data Submitted {ℓ} (O : Type ℓ) : Type ℓ where
  stamped : O → Submitted O
  mirror_failed : ApplyError → Submitted O

module _ (T : Topology) (S : Schema) where
  -- The store that holds the document's ops and snapshots.
  abbrev pub DocOp : Type 0
  DocOp = Op T.OpKind

  abbrev pub Snap : Type 0
  Snap = Snapshot T S

  abbrev pub snap_seq : Snap → GlobalSeq
  snap_seq s = s.at_seq

  abbrev pub Storage : Type 0
  Storage = InMemoryStorage T.OpKind Snap snap_seq

  pub record GraphRoomHandler : Type 0 where
    pub room_id : RoomId
    pub store : Storage
    pub mirror : Backend T S

  -- The replay of `restore`, which stops at the first error.
  unfoldable pub replay_ops : List DocOp → Backend T S → Restored (Backend T S)
  replay_ops [] mirror = hydrated mirror
  replay_ops (op ∷ ops) mirror =
      let (mirror', result) = apply_remote T S op mirror in
      let rest = replay_ops ops mirror' in
      elim result [ ApplyResult.ok ↦ rest | ApplyResult.err e ↦ replay_failed e ]

  abbrev hydrate : Option Snap → Backend T S → Backend T S
  hydrate none mirror = mirror
  hydrate (some snap) mirror = Defs.restore T S snap mirror

  abbrev replay_to : GlobalSeq → RoomId → Storage → Backend T S → Restored (Backend T S)
  replay_to head room store mirror =
      if ltb mirror.applied_seq head
      then replay_ops (Store.slice T.OpKind Snap snap_seq room mirror.applied_seq head store) mirror
      else hydrated mirror

  unfoldable pub restore : RoomId → Storage → Restored GraphRoomHandler
  restore room store =
      let store' = Store.ensure_room T.OpKind Snap snap_seq room store in
      let mirror =
        hydrate (Store.latest_snapshot T.OpKind Snap snap_seq room store') (with_peer T S 0) in
      elim (replay_to (Store.head T.OpKind Snap snap_seq room store') room store' mirror) [
        | replay_failed e ↦ replay_failed e
        | hydrated m ↦ hydrated (record { room_id = room; store = store'; mirror = m })
      ]

  unfoldable pub submit : DocOp → GraphRoomHandler → GraphRoomHandler × Submitted DocOp
  submit op h =
      let (op', store) = Store.append T.OpKind Snap snap_seq h.room_id op h.store in
      let (mirror, result) = apply_remote T S op' h.mirror in
      (
        record h { store = store; mirror = mirror },
        elim result [ ApplyResult.ok ↦ stamped op' | ApplyResult.err e ↦ mirror_failed e ],
      )

  abbrev diff_from : GlobalSeq → GraphRoomHandler → Diff T.OpKind
  diff_from since h =
      let head = Store.head T.OpKind Snap snap_seq h.room_id h.store in
      record {
        from_seq = since;
        to_seq = head;
        ops = Store.slice T.OpKind Snap snap_seq h.room_id since head h.store;
      }

  abbrev with_snapshot : GlobalSeq → GraphRoomHandler → Option Snap → Option Snap × Diff T.OpKind
  with_snapshot since h none = (none, diff_from since h)
  with_snapshot since h (some s) =
      if ltb since s.at_seq then (some s, diff_from s.at_seq h) else (none, diff_from since h)

  unfoldable pub welcome_for : GlobalSeq → GraphRoomHandler → Option Snap × Diff T.OpKind
  welcome_for since h =
      let head = Store.head T.OpKind Snap snap_seq h.room_id h.store in
      if head == 0 || head == since
      then (none, empty_diff head)
      else with_snapshot since h (Store.latest_snapshot T.OpKind Snap snap_seq h.room_id h.store)

  unfoldable pub catchup : GlobalSeq → GraphRoomHandler → Diff T.OpKind
  catchup since h = diff_from since h

  unfoldable pub record_ack : PeerId → GlobalSeq → GraphRoomHandler → GraphRoomHandler
  record_ack peer applied h = record h {
    store = Store.record_ack T.OpKind Snap snap_seq h.room_id peer applied h.store;
  }

  unfoldable pub release_peer : PeerId → GraphRoomHandler → GraphRoomHandler
  release_peer peer h = record h {
    store = Store.clear_peer T.OpKind Snap snap_seq h.room_id peer h.store;
  }

  unfoldable pub take_snapshot : GraphRoomHandler → GraphRoomHandler
  take_snapshot h = record h {
    store =
        Store.save_snapshot T.OpKind Snap snap_seq h.room_id (Defs.snapshot T S h.mirror) h.store;
  }

  -- `map_or(0, |s| s.at_seq)`
  abbrev seq_or_zero : Option Snap → GlobalSeq
  seq_or_zero none = 0
  seq_or_zero (some s) = s.at_seq

  unfoldable pub run_gc : GraphRoomHandler → ℕ × GraphRoomHandler
  run_gc h = elim (Store.min_ack T.OpKind Snap snap_seq h.room_id h.store) [
    | none ↦ (0, h)
    | some min_ack ↦
        let upper =
          min min_ack
            (seq_or_zero (Store.latest_snapshot T.OpKind Snap snap_seq h.room_id h.store)) in
        let (deleted, store) = Store.compact_below T.OpKind Snap snap_seq h.room_id upper h.store in
        if upper == 0 then (0, h) else (deleted, record h { store = store })
  ]
