-- ===== src/Tests/Worker.antt =====
-- The theorems on the outbox worker and the e-mails: the seller of the shop is offline.
use messageries.Base.{
  All, Bool, [], arith, false, filter, none, refl, some, true, ℕ, ◌*◌, ◌+◌, ◌==◌, ◌∷◌, ◌≡◌, ◌≤◌,
}
use messageries.Base.Sorting.{sort_asc}
use messageries.Base.Text.{Text}
use messageries.Config.{Config}
use messageries.Db.{Db, ok}
use messageries.Entities.Accounts.{User}
use messageries.Entities.Chat.{OutboxEvent, Payload, message_created}
use messageries.Nats.{NatsPackage}
use messageries.Notifications.{notify_new_message}
use messageries.Notifications.Throttle.{IsThrottled, notify-IsThrottled}
use messageries.Outbox.{Outside, batch, has_event_id, is_due, process_batch}
use messageries.Outbox.Batches.{process_batch_settles}
use messageries.Outbox.Draining.{loop_drains}
use messageries.Outbox.Loop.{before_tick, idle_pause, tick}
use messageries.Outbox.Published.{IsPublished, process_batch-IsPublished}
use messageries.Tests.Fixtures.{alice, at, cfg, shop}

abbrev bob : User
bob = record alice { id = 2; email = 98 ∷ [] }

-- NATS is off, the mail server takes every e-mail, and nobody is online.
abbrev outside : Outside
outside = record {
  nats = record { enabled = false; js = none };
  mailer = λ u. true;
  online = λ u. false;
  describe = λ e. [];
}

abbrev event : OutboxEvent
event = record {
  id = 80;
  event_type = "message.created";
  aggregate_id = 20;
  payload = message_created 50 20 1 1 1000 (104 ∷ []) none (2 ∷ []);
  processed_at = none;
  created_at = 1000;
  attempts = 0;
  next_attempt_at = 1000;
  last_error = none;
}

abbrev queued : Db
queued = record shop { users = alice ∷ bob ∷ []; outbox = event ∷ [] }

abbrev worked : Db
worked = (process_batch outside cfg (at 2000 60) 20 queued).1

process_batch_settles_example :
    ((process_batch outside cfg (at 2000 60) 20 queued).0 ≡ ok 1)
    × All
        (λ row. All (λ e. is_due 2000 e ≡ false) (filter (has_event_id row.id) worked.outbox))
        (batch 20 2000 queued.outbox)
unfolding batch sort_asc
process_batch_settles_example = process_batch_settles outside cfg (at 2000 60) 20 queued

notify-IsThrottled_example :
    IsThrottled cfg
      (notify_new_message outside.mailer cfg (at 2000 60) 50 20 (2 ∷ []) queued).1.emails
notify-IsThrottled_example =
    notify-IsThrottled outside.mailer cfg (at 2000 60) 50 20 (2 ∷ []) queued tt

-- A backlog of one event is worked off by the first tick.
loop_drains_example :
    (k : ℕ) × (k ≤ 1)
    × ((tick outside cfg
          (at 2000 (60 + 10 * k))
          (before_tick outside cfg k (λ i. at 2000 (60 + 10 * i)) queued)).0
        ≡ idle_pause)
loop_drains_example =
    loop_drains outside cfg 1 2000 (λ i. at 2000 (60 + 10 * i)) queued
      (λ i. (omega arith, omega arith)) (omega arith)

-- The package is there, and the server is not.
abbrev cut_off : NatsPackage
cut_off = record {
  is_installed = true;
  connect = false;
  jetstream_manager = true;
  js_publish = λ subject msg_id payload. true;
}

abbrev with_nats : Config
with_nats = record cfg { nats_enabled = true }

-- A stream that takes the event of the queue and nothing else.
abbrev stream : Text → ℕ → Payload → Bool
stream subject msg_id payload = msg_id == 80

process_batch-IsPublished_example :
    All
      (IsPublished stream)
      (process_batch
        (record outside { nats = record { enabled = true; js = some stream } })
        cfg
        (at 2000 60)
        20
        queued).1.outbox
process_batch-IsPublished_example =
    process_batch-IsPublished stream outside cfg (at 2000 60) 20 queued
      ((λ h. (refl, refl, refl), tt), tt) (λ h. absurd (ground arith), tt)
