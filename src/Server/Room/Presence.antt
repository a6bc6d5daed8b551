-- ===== src/Server/Room/Presence.antt =====
-- The presence of a room's peers, as drain_inbound_system of crates/kyoso_sync/src/transport.rs
-- follows it from what the room broadcasts.
use kyosync.Prelude.{
  ◌≡◌, refl, ◌∙◌, ap, sym, List, [], ◌∷◌, ◌++◌, inl, inr, ◌⊎◌, Bool-cases, Option-cases,
}
use kyosync.Prelude.Occurs.{append_assoc, append-nil}
use kyosync.Prelude.Order.{nat_ord, list_ord}
use kyosync.Table.{Table, get, insert, remove}
use kyosync.Crdt.Ident.{GlobalSeq, PeerId}
use kyosync.Server.Room.{
  Room, RoomModelHandler, ModelId, Tier, RoomMessage, apply, presence_update, presence_left, submit,
  welcome_for, catchup, record_ack, release_peer, release_all, update_presence, clear_presence,
  take_snapshot_all, run_gc_all, assign_peer, AppResult, AppError, keep, Outcome, done, failed, ok,
  err,
}

module _ {Bytes : Type 0} where
  unfoldable pub on_inbound : RoomMessage Bytes → Table PeerId Bytes → Table PeerId Bytes
  on_inbound (apply model payload) raw = raw
  on_inbound (presence_update peer state) raw = insert peer state raw
  on_inbound (presence_left peer) raw = remove peer raw

  unfoldable pub drain_inbound : List (RoomMessage Bytes) → Table PeerId Bytes → Table PeerId Bytes
  drain_inbound [] raw = raw
  drain_inbound (message ∷ messages) raw = drain_inbound messages (on_inbound message raw)

  drain-append :
      (xs ys : List (RoomMessage Bytes)) (raw : Table PeerId Bytes)
      → drain_inbound (xs ++ ys) raw ≡ drain_inbound ys (drain_inbound xs raw)
  unfolding drain_inbound
  drain-append [] ys raw = refl
  drain-append (x ∷ xs) ys raw = drain-append xs ys (on_inbound x raw)

module _ {H Bytes : Type 0} (handler : RoomModelHandler H Bytes) where
  -- One request that a room serves, or one round of its scheduler.
  pub data RoomStep (r : Room H Bytes) : Room H Bytes → Type 0 where
    assigns : RoomStep r (assign_peer handler r).1
    submits :
        (model : ModelId) (tier : Tier) (payload : Bytes)
        → RoomStep r (submit handler model tier payload r).0
    welcomes : (models : List (ModelId × GlobalSeq)) → RoomStep r (welcome_for handler models r).0
    catches_up :
        (model : ModelId) (since : GlobalSeq) → RoomStep r (catchup handler model since r).0
    acks :
        (model : ModelId) (peer : PeerId) (applied : GlobalSeq)
        → RoomStep r (record_ack handler model peer applied r).0
    releases : (peer : PeerId) → RoomStep r (release_peer handler peer r).0
    shows : (peer : PeerId) (state : Bytes) → RoomStep r (update_presence handler peer state r)
    leaves : (peer : PeerId) → RoomStep r (clear_presence handler peer r)
    snapshots : RoomStep r (take_snapshot_all handler r)
    collects : RoomStep r (run_gc_all handler r).0

  pub data RoomSteps (r : Room H Bytes) : Room H Bytes → Type 0 where
    start : RoomSteps r r
    next : {s t : Room H Bytes} → RoomSteps r s → RoomStep s t → RoomSteps r t

  AppResult-cases {ℓ} :
      {A : Type ℓ} (x : AppResult A) → ((e : AppError) × (x ≡ err e)) ⊎ ((a : A) × (x ≡ ok a))
  AppResult-cases (err e) = inl (e, refl)
  AppResult-cases (ok a) = inr (a, refl)

  Outcome-cases : (x : Outcome) → ((e : AppError) × (x ≡ failed e)) ⊎ (x ≡ done)
  Outcome-cases (failed e) = inl (e, refl)
  Outcome-cases done = inr refl

  -- What the second room broadcast beyond the first tells of its presence.
  abbrev pub Follows : Room H Bytes → Room H Bytes → Type 0
  Follows r s =
      (messages : List (RoomMessage Bytes)) × (s.broadcast ≡ r.broadcast ++ messages)
      × (drain_inbound messages r.presence ≡ s.presence)

  Follows-quiet :
      (r s : Room H Bytes) → s.broadcast ≡ r.broadcast → r.presence ≡ s.presence → Follows r s
  unfolding drain_inbound
  Follows-quiet r s b p = ([], b ∙ sym (append-nil r.broadcast), p)

  Follows-next : (r s t : Room H Bytes) → Follows r s → Follows s t → Follows r t
  Follows-next r s t (xs, b, p) (ys, c, q) = (
    xs ++ ys,
    c ∙ ap (λ l. l ++ ys) b ∙ append_assoc r.broadcast xs ys,
    drain-append xs ys r.presence ∙ ap (drain_inbound ys) p ∙ q,
  )

  submit-Follows :
      (model : ModelId) (tier : Tier) (payload : Bytes) (r : Room H Bytes)
      → Follows r (submit handler model tier payload r).0
  unfolding submit drain_inbound on_inbound
  submit-Follows model tier payload r = elim (Option-cases (get model r.handlers)) [
    | inl e ↦ rw (e, submit) (Follows-quiet r r refl refl)
    | inr (h, e) ↦ elim (Bool-cases (handler.allows_submit tier payload h)) [
      | inr refused ↦ rw (e, refused, submit) (Follows-quiet r r refl refl)
      | inl allowed ↦ elim (AppResult-cases ((handler.submit payload h).1)) [
        | inl (why, k) ↦
            rw (e, allowed, k, submit)
              (Follows-quiet r (keep handler model (handler.submit payload h).0 r) refl refl)
        | inr (payload', k) ↦ rw (e, allowed, k, submit) (apply model payload' ∷ [], refl, refl)
      ]
    ]
  ]

  welcome_for-quiet :
      (models : List (ModelId × GlobalSeq)) (r : Room H Bytes)
      → ((welcome_for handler models r).0.broadcast ≡ r.broadcast)
        × (r.presence ≡ (welcome_for handler models r).0.presence)
  unfolding welcome_for
  welcome_for-quiet [] r = (refl, refl)
  welcome_for-quiet ((model, since) ∷ models) r = elim (Option-cases (get model r.handlers)) [
    | inl e ↦ rw (e, welcome_for) (refl, refl)
    | inr (h, e) ↦
        let rest =
          welcome_for-quiet models (keep handler model (handler.welcome_for since h).0 r) in
        elim (AppResult-cases ((handler.welcome_for since h).1)) [
          | inl (why, k) ↦ rw (e, k, welcome_for) (refl, refl)
          | inr (payload, k) ↦
              elim (AppResult-cases (
                (welcome_for handler models
                  (keep handler model (handler.welcome_for since h).0 r)).1)) [
                    | inl (why, l) ↦ rw (e, k, l, welcome_for) rest
                    | inr (out, l) ↦ rw (e, k, l, welcome_for) rest
                  ]
        ]
  ]

  clear_presence-Follows :
      (peer : PeerId) (r : Room H Bytes) → Follows r (clear_presence handler peer r)
  unfolding clear_presence drain_inbound on_inbound
  clear_presence-Follows peer r = elim (Option-cases (get peer r.presence)) [
    | inl e ↦ rw (e, clear_presence) (Follows-quiet r r refl refl)
    | inr (v, e) ↦ rw (e, clear_presence) (presence_left peer ∷ [], refl, refl)
  ]

  release_peer-Follows :
      (peer : PeerId) (r : Room H Bytes) → Follows r (release_peer handler peer r).0
  unfolding release_peer
  release_peer-Follows peer r =
      let cleared =
        clear_presence-Follows peer
          (record r { handlers = (release_all handler peer r.handlers).0 }) in
      elim (Outcome-cases ((release_all handler peer r.handlers).1)) [
        | inl (why, e) ↦
            rw (e, release_peer)
              (Follows-quiet r (record r { handlers = (release_all handler peer r.handlers).0 })
                refl refl)
        | inr e ↦ rw (e, release_peer) cleared
      ]

  update_presence-Follows :
      (peer : PeerId) (state : Bytes) (r : Room H Bytes)
      → Follows r (update_presence handler peer state r)
  unfolding update_presence drain_inbound on_inbound
  update_presence-Follows peer state r = (presence_update peer state ∷ [], refl, refl)

  catchup-Follows :
      (model : ModelId) (since : GlobalSeq) (r : Room H Bytes)
      → Follows r (catchup handler model since r).0
  unfolding catchup
  catchup-Follows model since r = elim (Option-cases (get model r.handlers)) [
    | inl e ↦ rw (e, catchup) (Follows-quiet r r refl refl)
    | inr (h, e) ↦
        rw (e, catchup)
          (Follows-quiet r (keep handler model (handler.catchup since h).0 r) refl refl)
  ]

  record_ack-Follows :
      (model : ModelId) (peer : PeerId) (applied : GlobalSeq) (r : Room H Bytes)
      → Follows r (record_ack handler model peer applied r).0
  unfolding record_ack
  record_ack-Follows model peer applied r = elim (Option-cases (get model r.handlers)) [
    | inl e ↦ rw (e, record_ack) (Follows-quiet r r refl refl)
    | inr (h, e) ↦
        rw (e, record_ack)
          (Follows-quiet r (keep handler model (handler.record_ack peer applied h).0 r) refl refl)
  ]

  step-Follows : (r s : Room H Bytes) → RoomStep r s → Follows r s
  unfolding assign_peer take_snapshot_all run_gc_all
  step-Follows r s assigns = Follows-quiet r (assign_peer handler r).1 refl refl
  step-Follows r s (submits model tier payload) = submit-Follows model tier payload r
  step-Follows r s (welcomes models) =
      Follows-quiet r (welcome_for handler models r).0 (welcome_for-quiet models r).0
        (welcome_for-quiet models r).1
  step-Follows r s (catches_up model since) = catchup-Follows model since r
  step-Follows r s (acks model peer applied) = record_ack-Follows model peer applied r
  step-Follows r s (releases peer) = release_peer-Follows peer r
  step-Follows r s (shows peer state) = update_presence-Follows peer state r
  step-Follows r s (leaves peer) = clear_presence-Follows peer r
  step-Follows r s snapshots = Follows-quiet r (take_snapshot_all handler r) refl refl
  step-Follows r s collects = Follows-quiet r (run_gc_all handler r).0 refl refl

  -- Whatever requests a room serves, one at a time, in whatever order and with handlers that fail
  -- or not, what it broadcasts after some point is appended to what it broadcast before; a client
  -- that holds the presence of that point and takes in these messages holds the presence that the
  -- room holds then.
  pub presence-Follows : (r s : Room H Bytes) → RoomSteps r s → Follows r s
  presence-Follows r s start = Follows-quiet r r refl refl
  presence-Follows r s (next {s = t} steps step) =
      Follows-next r t s (presence-Follows r t steps) (step-Follows t s step)
