-- ===== src/Messages/Reading.antt =====
-- `markRead` and `softDelete` of messages.service.ts.
use messageries.Base.{
  Bool, List, any, find, is_none, leb, none, not, some, update_where, ℕ, ◌&&◌, ◌==◌, ◌∷◌,
}
use messageries.Audit.{log}
use messageries.Config.{Config}
use messageries.Conversations.{is_member}
use messageries.Db.{
  Action, Env, forbidden, gets, modify, not_found, or_throw, throw_if, transaction, ◌>>=◌, ◌>>◌,
}
use messageries.Entities.Accounts.{no_metadata}
use messageries.Entities.Chat.{Message, MessageReceipt, OutboxEvent, deleted, message_read}
use messageries.Messages.Rows.{of_conv}
use messageries.Realtime.{publish_message_deleted, publish_read_receipt}

module _ (cfg : Config) (env : Env) where
  -- The message of a receipt is in the conversation, up to the sequence.
  abbrev pub covers : ℕ → ℕ → ℕ → List Message → MessageReceipt → Bool
  covers conv user upto ms r =
      r.user_id == user
      && is_none r.read_at
      && any (λ m. m.id == r.message_id && of_conv conv m && leb m.sequence upto) ms

  unfoldable pub read_in_tx : ℕ → ℕ → ℕ → Action (Unit {0})
  read_in_tx conv user upto = do
    modify (λ s. record s {
      participants =
          update_where (is_member conv user) (λ p. record p { last_read_sequence = upto })
            s.participants;
    })
    modify (λ s. record s {
      receipts =
          update_where (covers conv user upto s.messages) (λ r. record r { read_at = some env.now })
            s.receipts;
    })
    modify (λ s. record s { outbox = read_row ∷ s.outbox })
    where
      read_row : OutboxEvent
      read_row = record {
        id = env.uuid 0;
        event_type = "message.read";
        aggregate_id = conv;
        payload = message_read conv user upto;
        processed_at = none;
        created_at = env.now;
        attempts = 0;
        next_attempt_at = env.now;
        last_error = none;
      }

  unfoldable pub mark_read : ℕ → ℕ → ℕ → Action (Unit {0})
  unfolding read_in_tx publish_read_receipt transaction
  mark_read conv user upto = do
    transaction (read_in_tx conv user upto)
    publish_read_receipt cfg conv user upto

  -- What `softDelete` writes into the row.
  abbrev pub wiped : Message → Message
  wiped m = record m {
    status = deleted;
    deleted_at = some env.now;
    body = none;
    body_ciphertext = none;
    body_iv = none;
    body_tag = none;
    body_dek_id = none;
  }

  unfoldable pub soft_delete : ℕ → ℕ → Action (Unit {0})
  unfolding publish_message_deleted
  soft_delete message_id actor = do
    row ← gets (λ s. find (λ m. m.id == message_id) s.messages)
    msg ← or_throw row (not_found "Not Found")
    throw_if (not (msg.sender_id == actor)) (forbidden "Vous ne pouvez supprimer que vos messages")
    modify (λ s. record s { messages = update_where (λ m. m.id == message_id) wiped s.messages })
    log env 0 (some actor) "message.deleted" "message" (some message_id) no_metadata
    publish_message_deleted cfg (wiped msg)
