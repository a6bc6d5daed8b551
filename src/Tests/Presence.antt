-- ===== src/Tests/Presence.antt =====
-- A room of one counting handler, and the presence that a peer of it sees.
use kyosync.Prelude.{ℕ, ◌+◌, none, [], ◌∷◌, Bool, true, false, ◌≡◌, refl}
use kyosync.Prelude.Order.{nat_ord, list_ord}
use kyosync.Server.Room.{
  Room, RoomModelHandler, Tier, read_write, read, presence_update, presence_left, ok, done,
  from_handlers, update_presence, clear_presence, release_peer,
}
use kyosync.Server.Room
use kyosync.Server.Room.Presence.{start, next, submits, shows, releases, Follows, presence-Follows}

abbrev may_write : Tier → Bool
may_write read_write = true
may_write read = false

-- The state is the number of payloads taken, and the answer repeats the payload.
abbrev counting : RoomModelHandler ℕ ℕ
counting = record {
  model_id = λ h. 1 ∷ [];
  submit = λ payload h. (h + 1, ok payload);
  allows_submit = λ tier payload h. may_write tier;
  welcome_for = λ since h. (h, ok (none, since));
  catchup = λ since h. (h, ok since);
  record_ack = λ peer applied h. (h, done);
  release_peer = λ peer h. (h, done);
  take_snapshot = λ h. (h, done);
  run_gc = λ h. (h, ok 0);
}

abbrev opened : Room ℕ ℕ
opened = from_handlers counting (4 ∷ []) (0 ∷ [])

abbrev shown : Room ℕ ℕ
shown = update_presence counting 1 70 opened

abbrev written : Room ℕ ℕ
written = (Room.submit counting (1 ∷ []) read_write 9 shown).0

abbrev second_shown : Room ℕ ℕ
second_shown = update_presence counting 2 80 written

abbrev released : Room ℕ ℕ
released = (release_peer counting 1 second_shown).0

-- The first peer left and the second is still shown.
released_presence : released.presence ≡ (2, 80) ∷ []
unfolding release_peer Room.release_all clear_presence update_presence Room.submit from_handlers
    Room.by_model kyosync.Table.get kyosync.Table.insert list_ord kyosync.Table.remove
released_presence = refl

presence-Follows_example : Follows counting opened released
presence-Follows_example = presence-Follows counting opened released (
    next (next (next (next start (shows 1 70)) (submits (1 ∷ []) read_write 9)) (shows 2 80))
      (releases 1))
