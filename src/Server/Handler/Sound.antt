-- ===== src/Server/Handler/Sound.antt =====
-- The steps of a handler of apps/kyoso_server/src/services/handlers/graph.rs.
use kyosync.Prelude.{
  ◌+◌, ◌≤◌, ◌<◌, min, List, [], ◌∷◌, ◌++◌, ◌≡◌, refl, ap, sym, ◌∙◌, arith, inl, inr, Option-cases,
  Bool-cases, ◌==◌, ◌⊎◌, length, take, length-append, u64_mod,
}
use kyosync.Prelude.Order.{nat_ord}
use kyosync.Crdt.Ident.{GlobalSeq, PeerId}
use kyosync.Crdt.Op.{with_seq}
use kyosync.Crdt.Topology.{Topology, Schema}
use kyosync.Crdt.Backend.Defs.{
  Backend, Snapshot, ApplyResult, with_peer, apply_remote, with_shared_ids,
}
use kyosync.Crdt.Backend.Defs
use kyosync.Crdt.Backend.Replica.{
  IsLog, Synced, Core, core, replay, Synced-arrive, apply_remote_outcome,
}
use kyosync.Crdt.Backend.Extend.{IsLog-append, Synced-append, get_elem?-last}
use kyosync.Server.Store.{RoomId, room_of, append_op, save, latest, slice_ops, InMemoryRoom}
use kyosync.Server.Store
use kyosync.Server.Store.Rooms.{
  room_of-append, room_of-save, room_of-ack, room_of-clear, room_of-compact,
}
use kyosync.Server.Handler.{
  GraphRoomHandler, Snap, snap_seq, DocOp, submit, stamped, mirror_failed, seq_or_zero,
  take_snapshot, record_ack, release_peer, run_gc,
}
use kyosync.Server.Handler.Kept.{Kept, Room, anchor, append-Kept, save-Kept, compact-Kept}

module _ (T : Topology) (S : Schema) where
  -- The snapshot of a mirror that has applied these ops and nothing else.
  unfoldable pub snap_of : List (DocOp T S) → Snap T S
  snap_of ops = Defs.snapshot T S (replay T S ops)

  abbrev pub room : GraphRoomHandler T S → Room T.OpKind (Snap T S) (snap_seq T S) snap_of
  room h = room_of T.OpKind (Snap T S) (snap_seq T S) h.room_id h.store

  abbrev pub KeptBy : List (DocOp T S) → GraphRoomHandler T S → Type 0
  KeptBy log h = Kept T.OpKind (Snap T S) (snap_seq T S) snap_of log (room h)

  -- The room keeps the log, and the mirror has applied all of it.
  pub record Sound (log : List (DocOp T S)) (h : GraphRoomHandler T S) : Type 0 where
    pub numbered : IsLog log
    pub kept : KeptBy log h
    pub synced : Synced T S log h.mirror
    pub caught_up : h.mirror.applied_seq ≡ length log

  -- A snapshot of the mirror is that of the log.
  snapshot_core :
      (b c : Backend T S) → core T S b ≡ core T S c → Defs.snapshot T S b ≡ Defs.snapshot T S c
  unfolding core Defs.snapshot
  snapshot_core b c h =
      ap
        (λ (x : Core T S). record {
          at_seq = x.applied_seq;
          topology = T.snapshot x.topology;
          schemas = x.schemas;
        })
        h

  snapshot_seq : (b : Backend T S) → (Defs.snapshot T S b).at_seq ≡ b.applied_seq
  unfolding Defs.snapshot
  snapshot_seq b = refl

  pub take_snapshot-Sound :
      (log : List (DocOp T S)) (h : GraphRoomHandler T S)
      → Sound log h
      → Sound log (take_snapshot T S h)
  unfolding take_snapshot snap_of
  take_snapshot-Sound log h s =
      let snap = Defs.snapshot T S h.mirror in
      let same_snap : snap ≡ snap_of (take (length log) log) =
        snapshot_core h.mirror (replay T S (take h.mirror.applied_seq log)) s.synced.folded
        ∙ ap (λ n. Defs.snapshot T S (replay T S (take n log))) s.caught_up in
      record {
        numbered = s.numbered;
        kept = rw (room_of-save T.OpKind (Snap T S) (snap_seq T S) h.room_id h.store snap) (
            save-Kept T.OpKind (Snap T S) (snap_seq T S) snap_of snap log (room h) s.kept
              (snapshot_seq h.mirror ∙ s.caught_up) same_snap);
        synced = s.synced;
        caught_up = s.caught_up;
      }

  same_parts :
      (log : List (DocOp T S)) (r : Room T.OpKind (Snap T S) (snap_seq T S) snap_of) (acks : _)
      → Kept T.OpKind (Snap T S) (snap_seq T S) snap_of log r
      → Kept T.OpKind (Snap T S) (snap_seq T S) snap_of log (record r { acks = acks })
  unfolding anchor latest
  same_parts log r acks k = record {
    head_is = k.head_is;
    ops_are = k.ops_are;
    within = k.within;
    low = k.low;
    sorted = k.sorted;
    keyed = k.keyed;
  }

  pub record_ack-Sound :
      (peer : PeerId) (n : GlobalSeq) (log : List (DocOp T S)) (h : GraphRoomHandler T S)
      → Sound log h
      → Sound log (record_ack T S peer n h)
  unfolding record_ack Store.ack
  record_ack-Sound peer n log h s = record {
    numbered = s.numbered;
    kept =
        rw (room_of-ack T.OpKind (Snap T S) (snap_seq T S) h.room_id h.store peer n)
          (same_parts log (room h) _ s.kept);
    synced = s.synced;
    caught_up = s.caught_up;
  }

  pub release_peer-Sound :
      (peer : PeerId) (log : List (DocOp T S)) (h : GraphRoomHandler T S)
      → Sound log h
      → Sound log (release_peer T S peer h)
  unfolding release_peer Store.forget
  release_peer-Sound peer log h s = record {
    numbered = s.numbered;
    kept =
        rw (room_of-clear T.OpKind (Snap T S) (snap_seq T S) h.room_id h.store peer)
          (same_parts log (room h) _ s.kept);
    synced = s.synced;
    caught_up = s.caught_up;
  }

  -- The op that comes next in the log.
  abbrev pub numbered_op : List (DocOp T S) → DocOp T S → DocOp T S
  numbered_op log op = with_seq (length log + 1) op

  -- The mirror takes the next op.
  mirror_next :
      (op : DocOp T S) (log : List (DocOp T S)) (b : Backend T S)
      → length log + 2 < u64_mod
      → b.applied_seq ≡ length log
      → ((apply_remote T S (numbered_op log op) b).1 ≡ ApplyResult.ok)
        × ((apply_remote T S (numbered_op log op) b).0.applied_seq ≡ length log + 1)
  mirror_next op log b bound e =
      let outcome = apply_remote_outcome T S (numbered_op log op) b (omega arith) in
      (ground (arith, outcome), ground (arith, outcome))

  -- What `submit` hands to the mirror and to the store.
  submit_parts :
      (op o : DocOp T S) (h : GraphRoomHandler T S)
      → (append_op T.OpKind (Snap T S) (snap_seq T S) op (room h)).0 ≡ o
      → (apply_remote T S o h.mirror).1 ≡ ApplyResult.ok
      → ((submit T S op h).0.mirror ≡ (apply_remote T S o h.mirror).0)
        × (room (submit T S op h).0 ≡ (append_op T.OpKind (Snap T S) (snap_seq T S) op (room h)).1)
        × ((submit T S op h).1 ≡ stamped o)
  unfolding submit Store.append
  submit_parts op o h e applied = (
    ap (λ x. (apply_remote T S x h.mirror).0) e,
    room_of-append T.OpKind (Snap T S) (snap_seq T S) h.room_id h.store op,
    ap
          (λ x. elim (apply_remote T S x h.mirror).1 [
            | ApplyResult.ok ↦ stamped x
            | ApplyResult.err f ↦ mirror_failed f
          ])
          e
        ∙ rw applied refl,
  )

  pub submit-Sound :
      (op : DocOp T S) (log : List (DocOp T S)) (h : GraphRoomHandler T S)
      → Sound log h
      → length log + 2 < u64_mod
      → Sound (log ++ numbered_op log op ∷ []) (submit T S op h).0
        × ((submit T S op h).1 ≡ stamped (numbered_op log op))
  submit-Sound op log h s b =
      let x = numbered_op log op in
      let log' = log ++ x ∷ [] in
      let (same_op, kept') =
        append-Kept T.OpKind (Snap T S) (snap_seq T S) snap_of op log (room h) s.kept
          (omega arith) in
      let (applied, rises) = mirror_next op log h.mirror b s.caught_up in
      let (mirror_is, room_is, answer) = submit_parts op x h same_op applied in
      let is_log = IsLog-append log op s.numbered b in
      let arrived =
        Synced-arrive T S log' h.mirror (length log) x is_log (get_elem?-last log x)
          (Synced-append T S log (x ∷ []) h.mirror s.synced) in
      (
        record {
          numbered = is_log;
          kept = rw room_is kept';
          synced = rw mirror_is arrived;
          caught_up = rw mirror_is (rises ∙ sym (length-append log (x ∷ [])));
        },
        answer,
      )

  anchor_is :
      (h : GraphRoomHandler T S)
      → seq_or_zero T S (Store.latest_snapshot T.OpKind (Snap T S) (snap_seq T S) h.room_id h.store)
        ≡ anchor T.OpKind (Snap T S) (snap_seq T S) snap_of (room h)
  unfolding anchor Store.latest_snapshot
  anchor_is h = elim (Option-cases (latest T.OpKind (Snap T S) (snap_seq T S) (room h))) [
    | inl e ↦ ground arith
    | inr (snap, e) ↦ ground arith
  ]

  unchanged_or_compacted :
      (h : GraphRoomHandler T S)
      → ((run_gc T S h).1 ≡ h)
        ⊎ ((u : GlobalSeq) × (0 < u)
            × (u ≤ anchor T.OpKind (Snap T S) (snap_seq T S) snap_of (room h))
            × ((run_gc T S h).1.mirror ≡ h.mirror)
            × (room (run_gc T S h).1
                ≡ (Store.compact T.OpKind (Snap T S) (snap_seq T S) u (room h)).1))
  unfolding run_gc
  unchanged_or_compacted h =
      elim (Option-cases (Store.min_ack T.OpKind (Snap T S) (snap_seq T S) h.room_id h.store)) [
        | inl e ↦ inl (rw (e, run_gc) refl)
        | inr (a, e) ↦
            let u = min a (
              seq_or_zero T S
                (Store.latest_snapshot T.OpKind (Snap T S) (snap_seq T S) h.room_id h.store)) in
            elim (Bool-cases (u == 0)) [
              | inl nothing ↦ inl (rw (e, run_gc, nothing) refl)
              | inr some_way ↦
                  elim (room_of-compact T.OpKind (Snap T S) (snap_seq T S) h.room_id h.store u) [
                    | inl compacted ↦ inr (
                      u,
                      ground arith,
                      omega (arith, anchor_is h),
                      rw (e, run_gc, some_way) refl,
                      rw (e, run_gc, some_way) compacted,
                    )
                    | inr same_store ↦ inl (rw (e, run_gc, some_way, same_store) refl)
                  ]
            ]
      ]

  pub run_gc-Sound :
      (log : List (DocOp T S)) (h : GraphRoomHandler T S) → Sound log h → Sound log (run_gc T S h).1
  run_gc-Sound log h s = elim (unchanged_or_compacted h) [
    | inl same_handler ↦ rw same_handler s
    | inr (u, pos, le, same_mirror, room_is) ↦ record {
      numbered = s.numbered;
      kept =
          rw room_is
            (compact-Kept T.OpKind (Snap T S) (snap_seq T S) snap_of u log (room h) s.kept pos le);
      synced = rw same_mirror s.synced;
      caught_up = rw same_mirror s.caught_up;
    }
  ]
