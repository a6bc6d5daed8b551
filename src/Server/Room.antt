-- ===== src/Server/Room.antt =====
-- apps/kyoso_server/src/services/room.rs: a room routes requests to the handlers of its models and
-- keeps the presence of its peers. What it broadcasts is the list of all messages sent so far.
-- Payloads are the handlers'; the texts of errors are left out. A loop over the handlers takes them in
-- the order of their models, where the source's map has no order.
pub mod Presence
use kyosync.Prelude.{
  ℕ, ◌+◌, Option, none, some, List, [], ◌∷◌, ◌++◌, Bool, if◌then◌else◌, ◌%◌, ◌^◌, wrap64,
}
use kyosync.Prelude.Order.{nat_ord, list_ord}
use kyosync.Table.{Table, get, insert, remove}
use kyosync.Crdt.Ident.{GlobalSeq, PeerId}
use kyosync.Crdt.Delta.{Text}
use kyosync.Server.Store.{RoomId}

abbrev pub ModelId : Type 0
ModelId = Text

pub data Tier : Type 0 where
  read_write : Tier
  read : Tier

pub data AppError : Type 0 where
  bad_request : AppError
  not_found : AppError
  conflict : AppError
  permission_denied : AppError
  codec : AppError
  io : AppError
  internal : AppError

pub data AppResult {ℓ} (A : Type ℓ) : Type ℓ where
  ok : A → AppResult A
  err : AppError → AppResult A

-- `Result<()>`.
pub data Outcome : Type 0 where
  done : Outcome
  failed : AppError → Outcome

-- The trait that a model's handler implements, `&self` with interior state as state passing.
pub record RoomModelHandler (H Bytes : Type 0) : Type 1 where
  pub model_id : H → ModelId
  pub submit : Bytes → H → H × AppResult Bytes
  pub allows_submit : Tier → Bytes → H → Bool
  pub welcome_for : GlobalSeq → H → H × AppResult (Option Bytes × Bytes)
  pub catchup : GlobalSeq → H → H × AppResult Bytes
  pub record_ack : PeerId → GlobalSeq → H → H × Outcome
  pub release_peer : PeerId → H → H × Outcome
  pub take_snapshot : H → H × Outcome
  pub run_gc : H → H × AppResult ℕ

-- The messages of `EnvelopeServerMsg` that a room broadcasts.
pub data RoomMessage (Bytes : Type 0) : Type 0 where
  apply : ModelId → Bytes → RoomMessage Bytes
  presence_update : PeerId → Bytes → RoomMessage Bytes
  presence_left : PeerId → RoomMessage Bytes

pub record ModelGreeting (Bytes : Type 0) : Type 0 where
  pub model : ModelId
  pub snapshot_payload : Option Bytes
  pub diff_payload : Bytes

pub record Room (H Bytes : Type 0) : Type 0 where
  pub id : RoomId
  pub handlers : Table ModelId H
  pub broadcast : List (RoomMessage Bytes)
  pub next_peer : ℕ
  pub presence : Table PeerId Bytes

module _ {H Bytes : Type 0} (handler : RoomModelHandler H Bytes) where
  unfoldable pub by_model : List H → Table ModelId H → Table ModelId H
  by_model [] handlers = handlers
  by_model (h ∷ hs) handlers = by_model hs (insert (handler.model_id h) h handlers)

  unfoldable pub from_handlers : RoomId → List H → Room H Bytes
  from_handlers id hs = record {
    id = id;
    handlers = by_model hs [];
    broadcast = [];
    next_peer = 1;
    presence = [];
  }

  -- `fetch_add` answers with the number before, and wraps.
  unfoldable pub assign_peer : Room H Bytes → PeerId × Room H Bytes
  assign_peer r = (r.next_peer, record r { next_peer = (r.next_peer + 1) % 2 ^ 32 })

  abbrev send : RoomMessage Bytes → Room H Bytes → Room H Bytes
  send message r = record r { broadcast = r.broadcast ++ message ∷ [] }

  abbrev pub keep : ModelId → H → Room H Bytes → Room H Bytes
  keep model h r = record r { handlers = insert model h r.handlers }

  unfoldable pub submit : ModelId → Tier → Bytes → Room H Bytes → Room H Bytes × Outcome
  submit model tier payload r = elim (get model r.handlers) [
    | none ↦ (r, failed internal)
    | some h ↦
        let (h', result) = handler.submit payload h in
        if handler.allows_submit tier payload h
        then elim result [
          | err e ↦ (keep model h' r, failed e)
          | ok payload' ↦ (send (apply model payload') (keep model h' r), done)
        ]
        else (r, failed permission_denied)
  ]

  unfoldable pub welcome_for :
      List (ModelId × GlobalSeq)
      → Room H Bytes
      → Room H Bytes × AppResult (List (ModelGreeting Bytes))
  welcome_for [] r = (r, ok [])
  welcome_for ((model, since) ∷ models) r = elim (get model r.handlers) [
    | none ↦ (r, err internal)
    | some h ↦
        let (h', result) = handler.welcome_for since h in
        let (r', rest) = welcome_for models (keep model h' r) in
        elim result [
          | err e ↦ (keep model h' r, err e)
          | ok (snapshot, diff) ↦ elim rest [
            | err e ↦ (r', err e)
            | ok out ↦ (
              r',
              ok (record { model = model; snapshot_payload = snapshot; diff_payload = diff } ∷ out),
            )
          ]
        ]
  ]

  unfoldable pub catchup : ModelId → GlobalSeq → Room H Bytes → Room H Bytes × AppResult Bytes
  catchup model since r = elim (get model r.handlers) [
    | none ↦ (r, err internal)
    | some h ↦ let (h', result) = handler.catchup since h in (keep model h' r, result)
  ]

  unfoldable pub record_ack : ModelId → PeerId → GlobalSeq → Room H Bytes → Room H Bytes × Outcome
  record_ack model peer applied r = elim (get model r.handlers) [
    | none ↦ (r, failed internal)
    | some h ↦ let (h', result) = handler.record_ack peer applied h in (keep model h' r, result)
  ]

  unfoldable pub update_presence : PeerId → Bytes → Room H Bytes → Room H Bytes
  update_presence peer state r =
      send (presence_update peer state) (record r { presence = insert peer state r.presence })

  unfoldable pub clear_presence : PeerId → Room H Bytes → Room H Bytes
  clear_presence peer r = elim (get peer r.presence) [
    | none ↦ r
    | some _ ↦ send (presence_left peer) (record r { presence = remove peer r.presence })
  ]

  -- The loop over the handlers, which stops at the first error.
  unfoldable pub release_all : PeerId → Table ModelId H → Table ModelId H × Outcome
  release_all peer [] = ([], done)
  release_all peer ((model, h) ∷ hs) =
      let (h', result) = handler.release_peer peer h in
      let (hs', rest) = release_all peer hs in
      elim result [ failed e ↦ ((model, h') ∷ hs, failed e) | done ↦ ((model, h') ∷ hs', rest) ]

  unfoldable pub release_peer : PeerId → Room H Bytes → Room H Bytes × Outcome
  release_peer peer r =
      let (hs, result) = release_all peer r.handlers in
      elim result [
        | failed e ↦ (record r { handlers = hs }, failed e)
        | done ↦ (clear_presence peer (record r { handlers = hs }), done)
      ]

  -- An error is logged and the loop goes on.
  unfoldable pub snapshot_each : Table ModelId H → Table ModelId H
  snapshot_each [] = []
  snapshot_each ((model, h) ∷ hs) = (model, (handler.take_snapshot h).0) ∷ snapshot_each hs

  unfoldable pub take_snapshot_all : Room H Bytes → Room H Bytes
  take_snapshot_all r = record r { handlers = snapshot_each r.handlers }

  -- The total is a `u64`.
  unfoldable pub gc_each : ℕ → Table ModelId H → Table ModelId H × ℕ
  gc_each total [] = ([], total)
  gc_each total ((model, h) ∷ hs) =
      let (h', result) = handler.run_gc h in
      let counted : ℕ = elim result [ ok n ↦ wrap64 (total + n) | err _ ↦ total ] in
      let (hs', total') = gc_each counted hs in ((model, h') ∷ hs', total')

  unfoldable pub run_gc_all : Room H Bytes → Room H Bytes × ℕ
  run_gc_all r = let (hs, total) = gc_each 0 r.handlers in (record r { handlers = hs }, total)
