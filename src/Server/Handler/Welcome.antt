-- ===== src/Server/Handler/Welcome.antt =====
-- Runs of a room, and what a peer is sent when it joins or asks to catch up, for
-- apps/kyoso_server/src/services/handlers/graph.rs.
use kyosync.Prelude.{
  ◌+◌, ◌≤◌, ◌<◌, Option, none, some, List, [], ◌∷◌, ◌++◌, ◌≡◌, refl, ap, sym, ◌∙◌, arith, inl, inr,
  Option-cases, Bool-cases, ltb, leb, ◌==◌, ◌||◌, length, take, drop, drop_all, u64_mod,
  length-drop,
}
use kyosync.Prelude.Order.{nat_ord, list_ord}
use kyosync.Table.{get}
use kyosync.Crdt.Ident.{GlobalSeq, PeerId}
use kyosync.Crdt.Op.{Diff}
use kyosync.Crdt.Topology.{Topology, Schema}
use kyosync.Crdt.Backend.Defs.{with_peer, with_shared_ids}
use kyosync.Crdt.Backend.Replica.{start-Synced}
use kyosync.Server.Store.{RoomId, room_of, empty_room, latest, slice_ops, in_range}
use kyosync.Server.Store
use kyosync.Server.Store.Log.{numbered_from, values-range}
use kyosync.Server.Store.Latest.{latest_in}
use kyosync.Server.Handler.{
  GraphRoomHandler, Snap, snap_seq, DocOp, submit, stamped, take_snapshot, record_ack, release_peer,
  run_gc, welcome_for, catchup,
}
use kyosync.Server.Handler.Kept.{anchor, drop-drop}
use kyosync.Server.Handler.Sound.{
  snap_of, room, Sound, numbered_op, submit-Sound, take_snapshot-Sound, record_ack-Sound,
  release_peer-Sound, run_gc-Sound,
}

module _ (T : Topology) (S : Schema) where
  -- A room of a store that holds none.
  unfoldable pub opened : RoomId → GraphRoomHandler T S
  opened id = record { room_id = id; store = record { rooms = [] }; mirror = with_peer T S 0 }

  -- What happens to a room, with the ops that were appended to it in their order.
  pub data RoomRun (id : RoomId) : List (DocOp T S) → GraphRoomHandler T S → Type 0 where
    open_room : RoomRun id [] (opened id)
    submits :
        {log : List (DocOp T S)} {h : GraphRoomHandler T S}
        → RoomRun id log h
        → (op : DocOp T S) → length log + 2 < u64_mod
        → RoomRun id (log ++ numbered_op T S log op ∷ []) (submit T S op h).0
    snapshots :
        {log : List (DocOp T S)} {h : GraphRoomHandler T S}
        → RoomRun id log h
        → RoomRun id log (take_snapshot T S h)
    acks :
        {log : List (DocOp T S)} {h : GraphRoomHandler T S}
        → RoomRun id log h
        → (peer : PeerId) (applied : GlobalSeq) → RoomRun id log (record_ack T S peer applied h)
    releases :
        {log : List (DocOp T S)} {h : GraphRoomHandler T S}
        → RoomRun id log h
        → (peer : PeerId) → RoomRun id log (release_peer T S peer h)
    collects :
        {log : List (DocOp T S)} {h : GraphRoomHandler T S}
        → RoomRun id log h
        → RoomRun id log (run_gc T S h).1

  opened-Sound : (id : RoomId) → Sound T S [] (opened id)
  unfolding opened room_of empty_room get numbered_from u64_mod with_peer with_shared_ids
  opened-Sound id = record {
    numbered = record { numbered = λ i op h. absurd (ground arith); bounded = omega arith };
    kept = record {
      head_is = refl;
      ops_are = refl;
      within = omega arith;
      low = omega arith;
      sorted = tt;
      keyed = λ k s h. absurd (ground arith);
    };
    synced = start-Synced T S [] 0;
    caught_up = refl;
  }

  -- In every run of submits (fewer than 2^64 - 2), snapshots, acknowledgements, releases and
  -- garbage collections of a room that starts empty, the head of the room is the number of ops
  -- submitted, the room holds all ops beyond what it compacted, what it compacted is covered by
  -- its latest snapshot, each snapshot is that of a mirror that applied the ops up to its number
  -- and no others, and the mirror has applied all ops.
  pub RoomRun-Sound :
      (id : RoomId) {log : List (DocOp T S)} {h : GraphRoomHandler T S}
      → RoomRun id log h
      → Sound T S log h
  RoomRun-Sound id open_room = opened-Sound id
  RoomRun-Sound id (submits {log} {h} r op b) = (submit-Sound T S op log h (RoomRun-Sound id r) b).0
  RoomRun-Sound id (snapshots {log} {h} r) = take_snapshot-Sound T S log h (RoomRun-Sound id r)
  RoomRun-Sound id (acks {log} {h} r peer n) =
      record_ack-Sound T S peer n log h (RoomRun-Sound id r)
  RoomRun-Sound id (releases {log} {h} r peer) =
      release_peer-Sound T S peer log h (RoomRun-Sound id r)
  RoomRun-Sound id (collects {log} {h} r) = run_gc-Sound T S log h (RoomRun-Sound id r)

  -- In every run of submits (fewer than 2^64 - 2), snapshots, acknowledgements, releases and
  -- garbage collections of a room that starts empty, a submit does not fail at the mirror: it
  -- answers with the op under the next number, while fewer than 2^64 - 2 ops were submitted.
  pub submit_answers :
      (id : RoomId) {log : List (DocOp T S)} {h : GraphRoomHandler T S}
      → RoomRun id log h
      → (op : DocOp T S) → length log + 2 < u64_mod
      → (submit T S op h).1 ≡ stamped (numbered_op T S log op)
  submit_answers id {log} {h} r op b = (submit-Sound T S op log h (RoomRun-Sound id r) b).1

  -- A slice from where ops are still kept up to the head.
  slice_tail :
      (log : List (DocOp T S)) (h : GraphRoomHandler T S)
      → Sound T S log h
      → (from : GlobalSeq) → (room T S h).compacted_below ≤ from
      → Store.slice T.OpKind
          (Snap T S)
          (snap_seq T S)
          h.room_id
          from
          (Store.head T.OpKind (Snap T S) (snap_seq T S) h.room_id h.store)
          h.store
        ≡ drop from log
  unfolding Store.slice Store.head slice_ops
  slice_tail log h s from le =
      let c = (room T S h).compacted_below in
      elim (Bool-cases (leb (room T S h).head from)) [
        | inl past ↦ rw past (sym (drop_all from log (ground (arith, s.kept.head_is))))
        | inr more ↦
            rw (more, s.kept.ops_are)
              (values-range c from (room T S h).head (drop c log) le
                  (omega (arith, length-drop c log, s.kept.head_is, s.kept.within))
                ∙ drop-drop c from log le)
      ]

  head_is :
      (log : List (DocOp T S)) (h : GraphRoomHandler T S)
      → Sound T S log h
      → Store.head T.OpKind (Snap T S) (snap_seq T S) h.room_id h.store ≡ length log
  unfolding Store.head
  head_is log h s = s.kept.head_is

  -- In every run of submits (fewer than 2^64 - 2), snapshots, acknowledgements, releases and
  -- garbage collections of a room that starts empty, a peer that asks to catch up from a number at
  -- or beyond what was compacted is sent exactly the ops that it lacks, up to the head.
  pub catchup_complete :
      (id : RoomId) {log : List (DocOp T S)} {h : GraphRoomHandler T S}
      → RoomRun id log h
      → (since : GlobalSeq) → (room T S h).compacted_below ≤ since
      → ((catchup T S since h).ops ≡ drop since log) × ((catchup T S since h).to_seq ≡ length log)
  unfolding catchup
  catchup_complete id {log} {h} r since le =
      let s = RoomRun-Sound id r in (slice_tail log h s since le, head_is log h s)

  -- What makes an answer to a joining peer complete: with no snapshot, the ops beyond what the peer
  -- has; with one, a snapshot beyond what the peer has, of exactly the ops up to its number, and the
  -- ops beyond it.
  abbrev pub Complete : List (DocOp T S) → GlobalSeq → Option (Snap T S) × Diff T.OpKind → Type 0
  Complete log since (none, diff) =
      (diff.from_seq ≡ since) × (diff.ops ≡ drop since log) × (diff.to_seq ≡ length log)
  Complete log since (some s, diff) =
      (diff.from_seq ≡ s.at_seq)
      × (diff.ops ≡ drop s.at_seq log)
      × (diff.to_seq ≡ length log)
      × (since < s.at_seq)
      × (s ≡ snap_of T S (take s.at_seq log))

  -- The latest snapshot is at the anchor.
  latest_at_anchor :
      (log : List (DocOp T S)) (h : GraphRoomHandler T S)
      → Sound T S log h
      → (snap : Snap T S)
      → Store.latest_snapshot T.OpKind (Snap T S) (snap_seq T S) h.room_id h.store ≡ some snap
      → ((room T S h).compacted_below ≤ snap.at_seq) × (snap ≡ snap_of T S (take snap.at_seq log))
  unfolding Store.latest_snapshot latest anchor
  latest_at_anchor log h s snap e =
      let (j, found) = latest_in snap (room T S h).snapshots s.kept.sorted e in
      let (at_j, le, same_snap) = s.kept.keyed j snap found in
      let low : (room T S h).compacted_below ≤ snap.at_seq = ground (arith, s.kept.low) in
      (low, same_snap ∙ ap (λ n. snap_of T S (take n log)) (sym at_j))

  nothing_compacted :
      (log : List (DocOp T S)) (h : GraphRoomHandler T S)
      → Sound T S log h
      → Store.latest_snapshot T.OpKind (Snap T S) (snap_seq T S) h.room_id h.store ≡ none
      → (room T S h).compacted_below ≤ 0
  unfolding Store.latest_snapshot anchor
  nothing_compacted log h s e = ground (arith, s.kept.low)

  welcome_Sound :
      (log : List (DocOp T S)) (h : GraphRoomHandler T S)
      → Sound T S log h
      → (since : GlobalSeq) → since ≤ length log
      → Complete log since (welcome_for T S since h)
  unfolding welcome_for
  welcome_Sound log h s since le =
      let head = Store.head T.OpKind (Snap T S) (snap_seq T S) h.room_id h.store in
      let head_eq = head_is log h s in
      elim (Bool-cases (head == 0 || head == since)) [
        | inl current ↦
            let reached : head ≡ since = ground (arith, head_eq) in
            rw (welcome_for, current)
              (reached, sym (drop_all since log (omega (arith, head_eq, reached))), head_eq)
        | inr behind ↦
            elim (Option-cases
              (Store.latest_snapshot T.OpKind (Snap T S) (snap_seq T S) h.room_id h.store)) [
                | inl e ↦
                    rw (welcome_for, behind, e)
                      (
                        refl,
                        slice_tail log h s since (omega (arith, nothing_compacted log h s e)),
                        head_eq,
                      )
                | inr (snap, e) ↦
                    let (low, same_snap) = latest_at_anchor log h s snap e in
                    elim (Bool-cases (ltb since snap.at_seq)) [
                      | inl beyond ↦
                          rw (welcome_for, behind, e, beyond)
                            (
                              refl,
                              slice_tail log h s snap.at_seq low,
                              head_eq,
                              ground arith,
                              same_snap,
                            )
                      | inr within ↦
                          rw (welcome_for, behind, e, within)
                            (refl, slice_tail log h s since (ground (arith, low)), head_eq)
                    ]
              ]
      ]

  -- In every run of submits (fewer than 2^64 - 2), snapshots, acknowledgements, releases and
  -- garbage collections of a room that starts empty, a peer that has the ops up to since, which is
  -- at most the number of ops, is welcomed with all it lacks: either exactly the ops beyond since,
  -- or a snapshot beyond since of exactly the ops up to its number together with exactly the ops
  -- beyond that.
  pub welcome-Complete :
      (id : RoomId) {log : List (DocOp T S)} {h : GraphRoomHandler T S}
      → RoomRun id log h
      → (since : GlobalSeq) → since ≤ length log
      → Complete log since (welcome_for T S since h)
  welcome-Complete id {log} {h} r since le = welcome_Sound log h (RoomRun-Sound id r) since le
