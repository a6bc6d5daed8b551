-- ===== src/Server/Store.antt =====
-- apps/kyoso_server/src/services/store.rs: the in-memory store. A room that was never written reads
-- as an empty one. The Postgres store is SQL and is not modelled.
pub mod Log
pub mod Rooms
pub mod Latest
use kyosync.Prelude.{
  ℕ, ◌+◌, ◌-◌, min, max, Option, none, some, List, [], ◌∷◌, Bool, ◌&&◌, ltb, leb, length,
  if◌then◌else◌, wrap64,
}
use mathlib.Core.Option
use kyosync.Prelude.Order.{nat_ord, list_ord}
use kyosync.Table.{Table, get, insert, remove, upsert, or_insert, modify, retain, values, keys}
use kyosync.Crdt.Ident.{GlobalSeq, PeerId}
use kyosync.Crdt.Delta.{Text}
use kyosync.Crdt.Op.{Op, with_seq}

abbrev pub RoomId : Type 0
RoomId = Text

-- `last` and `max` of an iterator over numbers or snapshots.
unfoldable pub last_of {ℓ} : {A : Type ℓ} → List A → Option A
last_of [] = none
last_of (x ∷ []) = some x
last_of (x ∷ y ∷ ys) = last_of (y ∷ ys)

unfoldable pub min_of : List ℕ → Option ℕ
min_of [] = none
min_of (x ∷ xs) = elim (min_of xs) [ none ↦ some x | some m ↦ some (min x m) ]

-- The highest number that is at most the bound, or 0.
unfoldable pub max_at_most : ℕ → List ℕ → ℕ
max_at_most upper [] = 0
max_at_most upper (s ∷ ss) =
    let rest = max_at_most upper ss in if leb s upper then max s rest else rest

module _ (K St : Type 0) (at_seq_of : St → GlobalSeq) where
  pub record InMemoryRoom : Type 0 where
    pub head : GlobalSeq
    pub ops : Table GlobalSeq (Op K)
    pub snapshots : Table GlobalSeq St
    pub snapshot_seq : GlobalSeq
    pub compacted_below : GlobalSeq
    pub acks : Table PeerId GlobalSeq

  pub record InMemoryStorage : Type 0 where
    pub rooms : Table RoomId InMemoryRoom

  -- `InMemoryRoom::default()`
  unfoldable pub empty_room : InMemoryRoom
  empty_room = record {
    head = 0;
    ops = [];
    snapshots = [];
    snapshot_seq = 0;
    compacted_below = 0;
    acks = [];
  }

  unfoldable pub room_of : RoomId → InMemoryStorage → InMemoryRoom
  room_of room s = Option.get_or (get room s.rooms) empty_room

  abbrev pub put_room : RoomId → InMemoryRoom → InMemoryStorage → InMemoryStorage
  put_room room state s = record { rooms = insert room state s.rooms }

  unfoldable pub ensure_room : RoomId → InMemoryStorage → InMemoryStorage
  ensure_room room s = record { rooms = or_insert room empty_room s.rooms }

  unfoldable pub append_op : Op K → InMemoryRoom → Op K × InMemoryRoom
  append_op op state =
      let head = wrap64 (state.head + 1) in
      let stamped = with_seq head op in
      (stamped, record state { head = head; ops = insert head stamped state.ops })

  unfoldable pub append : RoomId → Op K → InMemoryStorage → Op K × InMemoryStorage
  unfolding append_op room_of
  append room op s =
      let (stamped, state) = append_op op (room_of room s) in (stamped, put_room room state s)

  unfoldable pub head : RoomId → InMemoryStorage → GlobalSeq
  unfolding room_of
  head room s = (room_of room s).head

  -- `range((from_seq + 1)..=to_seq)`
  abbrev pub in_range : GlobalSeq → GlobalSeq → GlobalSeq → Op K → Bool
  in_range from_seq to_seq seq op = ltb from_seq seq && leb seq to_seq

  unfoldable pub slice_ops : GlobalSeq → GlobalSeq → InMemoryRoom → List (Op K)
  slice_ops from_seq to_seq state =
      if leb to_seq from_seq then [] else values (retain (in_range from_seq to_seq) state.ops)

  unfoldable pub slice : RoomId → GlobalSeq → GlobalSeq → InMemoryStorage → List (Op K)
  unfolding slice_ops room_of
  slice room from_seq to_seq s = slice_ops from_seq to_seq (room_of room s)

  unfoldable pub save : St → InMemoryRoom → InMemoryRoom
  save snap state = record state {
    snapshots = insert (at_seq_of snap) snap state.snapshots;
    snapshot_seq = max state.snapshot_seq (at_seq_of snap);
  }

  unfoldable pub save_snapshot : RoomId → St → InMemoryStorage → InMemoryStorage
  unfolding save room_of
  save_snapshot room snap s = put_room room (save snap (room_of room s)) s

  unfoldable pub latest : InMemoryRoom → Option St
  latest state = last_of (values state.snapshots)

  unfoldable pub latest_snapshot : RoomId → InMemoryStorage → Option St
  unfolding latest room_of
  latest_snapshot room s = latest (room_of room s)

  abbrev seen : GlobalSeq → Option GlobalSeq → GlobalSeq
  seen last_seen old = max (Option.get_or old 0) last_seen

  unfoldable pub ack : PeerId → GlobalSeq → InMemoryRoom → InMemoryRoom
  ack peer last_seen state = record state { acks = upsert peer (seen last_seen) state.acks }

  unfoldable pub record_ack : RoomId → PeerId → GlobalSeq → InMemoryStorage → InMemoryStorage
  unfolding ack room_of
  record_ack room peer last_seen s = put_room room (ack peer last_seen (room_of room s)) s

  unfoldable pub forget : PeerId → InMemoryRoom → InMemoryRoom
  forget peer state = record state { acks = remove peer state.acks }

  unfoldable pub clear_peer : RoomId → PeerId → InMemoryStorage → InMemoryStorage
  unfolding forget
  clear_peer room peer s = record { rooms = modify room (forget peer) s.rooms }

  unfoldable pub least_ack : InMemoryRoom → Option GlobalSeq
  least_ack state = min_of (values state.acks)

  unfoldable pub min_ack : RoomId → InMemoryStorage → Option GlobalSeq
  unfolding least_ack room_of
  min_ack room s = least_ack (room_of room s)

  unfoldable pub compact : GlobalSeq → InMemoryRoom → ℕ × InMemoryRoom
  compact upper state =
      let ops = retain (λ seq _. ltb upper seq) state.ops in
      let keep_at_or_above = max_at_most upper (keys state.snapshots) in
      (
        length state.ops - length ops,
        record state {
          ops = ops;
          compacted_below = max state.compacted_below upper;
          snapshots = retain (λ s _. leb keep_at_or_above s) state.snapshots;
        },
      )

  unfoldable pub compact_below : RoomId → GlobalSeq → InMemoryStorage → ℕ × InMemoryStorage
  unfolding compact
  compact_below room upper s = elim (get room s.rooms) [
    | none ↦ (0, s)
    | some state ↦ let (deleted, state') = compact upper state in (deleted, put_room room state' s)
  ]

  unfoldable pub list_rooms : InMemoryStorage → List RoomId
  list_rooms s = keys s.rooms

  unfoldable pub compacted_below : RoomId → InMemoryStorage → GlobalSeq
  unfolding room_of
  compacted_below room s = (room_of room s).compacted_below
