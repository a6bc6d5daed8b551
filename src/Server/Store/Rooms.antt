-- ===== src/Server/Store/Rooms.antt =====
-- What the room of a storage is after each operation on it.
use kyosync.Prelude.{some, ◌≡◌, refl, arith, ◌⊎◌, inl, inr, Option-cases}
use kyosync.Prelude.Order.{nat_ord, list_ord, same_refl}
use kyosync.Table.{get, remove}
use kyosync.Table.Laws.{get-insert, get-modify}
use kyosync.Crdt.Ident.{GlobalSeq, PeerId}
use kyosync.Crdt.Op.{Op}
use kyosync.Server.Store.{
  RoomId, InMemoryRoom, InMemoryStorage, empty_room, room_of, put_room, append, append_op,
  save_snapshot, save, record_ack, ack, clear_peer, forget, compact_below, compact,
}

module _ (K St : Type 0) (at_seq_of : St → GlobalSeq) (room : RoomId)
    (s : InMemoryStorage K St at_seq_of) where
  abbrev here : InMemoryStorage K St at_seq_of → InMemoryRoom K St at_seq_of
  here t = room_of K St at_seq_of room t

  pub room_of-put :
      (state : InMemoryRoom K St at_seq_of) → here (put_room K St at_seq_of room state s) ≡ state
  unfolding room_of
  room_of-put state = ground (arith, get-insert room room state s.rooms, same_refl room)

  pub room_of-append :
      (op : Op K)
      → here (append K St at_seq_of room op s).1 ≡ (append_op K St at_seq_of op (here s)).1
  unfolding append
  room_of-append op = room_of-put (append_op K St at_seq_of op (here s)).1

  pub room_of-save :
      (snap : St)
      → here (save_snapshot K St at_seq_of room snap s) ≡ save K St at_seq_of snap (here s)
  unfolding save_snapshot
  room_of-save snap = room_of-put (save K St at_seq_of snap (here s))

  pub room_of-ack :
      (peer : PeerId) (n : GlobalSeq)
      → here (record_ack K St at_seq_of room peer n s) ≡ ack K St at_seq_of peer n (here s)
  unfolding record_ack
  room_of-ack peer n = room_of-put (ack K St at_seq_of peer n (here s))

  pub room_of-clear :
      (peer : PeerId)
      → here (clear_peer K St at_seq_of room peer s) ≡ forget K St at_seq_of peer (here s)
  unfolding clear_peer room_of forget empty_room remove
  room_of-clear peer = elim (Option-cases (get room s.rooms)) [
    | inl e ↦
        ground (arith, get-modify room room (forget K St at_seq_of peer) s.rooms, same_refl room)
    | inr (v, e) ↦
        ground (arith, get-modify room room (forget K St at_seq_of peer) s.rooms, same_refl room)
  ]

  found_room : (v : InMemoryRoom K St at_seq_of) → get room s.rooms ≡ some v → here s ≡ v
  unfolding room_of
  found_room v e = ground arith

  -- A compaction compacts the room, or there is no such room and nothing happens.
  pub room_of-compact :
      (upper : GlobalSeq)
      → (here (compact_below K St at_seq_of room upper s).1
          ≡ (compact K St at_seq_of upper (here s)).1)
        ⊎ ((compact_below K St at_seq_of room upper s).1 ≡ s)
  unfolding compact_below
  room_of-compact upper = elim (Option-cases (get room s.rooms)) [
    | inl e ↦ inr (rw (e, compact_below) refl)
    | inr (v, e) ↦
        let found : here s ≡ v = found_room v e in
        inl (rw (e, compact_below, found) (room_of-put (compact K St at_seq_of upper v).1))
  ]
