-- ===== src/Outbox.antt =====
-- backend/src/modules/outbox/outbox.worker.ts: the events of the outbox are handed on in batches, and
-- tried again later when that fails.
pub mod Batches
pub mod Loop
pub mod Draining
pub mod Unconnected
pub mod Published
pub mod Lag
use messageries.Base.{
  Bool, List, [], filter, if◌then◌else◌, is_none, leb, length, min, none, not, some, take,
  update_where, ℕ, ◌&&◌, ◌*◌, ◌+◌, ◌==◌, ◌^◌, ◌∷◌,
}
use messageries.Base.Sorting.{sort_asc}
use messageries.Base.Text.{Text}
use messageries.Config.{Config}
use messageries.Db.{
  Action, Db, Env, Error, Result, err, gets, ok, pure, transaction, when, ◌>>=◌, ◌>>◌,
}
use messageries.Entities.Accounts.{User}
use messageries.Entities.Chat.{OutboxEvent, Payload, message_created, message_read, sent}
use messageries.Nats.{NatsService, is_enabled, publish}
use messageries.Notifications.{notify_new_message}
use messageries.Scanner.{is_empty}

-- What the worker calls: the publisher, whether the mail server takes an e-mail to a user, who is
-- online, and the text of an error.
pub record Outside : Type 0 where
  pub nats : NatsService
  pub mailer : User → Bool
  pub online : ℕ → Bool
  pub describe : Error → Text

abbrev pub has_event_id : ℕ → OutboxEvent → Bool
has_event_id id e = e.id == id

-- `processed_at IS NULL AND next_attempt_at <= now()`
abbrev pub is_due : ℕ → OutboxEvent → Bool
is_due now e = is_none e.processed_at && leb e.next_attempt_at now

unfoldable pub batch : ℕ → ℕ → List OutboxEvent → List OutboxEvent
batch size now es = take size (sort_asc (λ e. e.created_at) (filter (is_due now) es))

-- In seconds: twice as long after every attempt, at most an hour.
abbrev pub backoff : ℕ → ℕ
backoff attempts = min 3600 (2 ^ attempts)

module _ (outside : Outside) (cfg : Config) (env : Env) where
  -- The recipients who are offline are notified. The type of an event says which payload it has.
  unfoldable pub on_message_created : Payload → Action (Unit {0})
  on_message_created (message_read conv user upto) = pure tt
  on_message_created (message_created message conv sender sequence at body flags recipients) =
      let offline = filter (λ r. not (outside.online r)) recipients in
      if is_empty offline
      then pure tt
      else notify_new_message outside.mailer cfg env message conv offline

  unfoldable pub handle : OutboxEvent → Action (Unit {0})
  handle e = do
    when (is_enabled outside.nats)
        (publish outside.nats e.event_type e.payload e.id >>= λ sent. pure tt)
    on_message_created e.payload

  abbrev pub processed : OutboxEvent → OutboxEvent
  processed e = record e { processed_at = some env.now; last_error = none }

  abbrev pub postponed : ℕ → Error → OutboxEvent → OutboxEvent
  postponed attempts error e = record e {
    attempts = attempts;
    next_attempt_at = env.now + backoff attempts * 1000;
    last_error = some (take 1000 (outside.describe error));
  }

  -- The row after `handle`, by what it ended with.
  unfoldable pub mark : OutboxEvent → Result (Unit {0}) → Db → Db
  mark row (ok a) s = record s { outbox = update_where (has_event_id row.id) processed s.outbox }
  mark row (err error) s = record s {
    outbox = update_where (has_event_id row.id) (postponed (row.attempts + 1) error) s.outbox;
  }

  -- The body of the loop: `try { … } catch { … }`.
  unfoldable pub settle : OutboxEvent → Action (Unit {0})
  settle row s = let (r, s') = handle row s in (ok tt, mark row r s')

  unfoldable pub settle_all : List OutboxEvent → Action (Unit {0})
  settle_all [] = pure tt
  settle_all (row ∷ rows) = let rest = settle_all rows in settle row >> rest

  unfoldable pub process_batch : ℕ → Action ℕ
  process_batch size =
      transaction
        (gets (λ s. batch size env.now s.outbox) >>= λ rows. settle_all rows >> pure (length rows))
