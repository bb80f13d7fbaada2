-- ===== src/Messages/Sending.antt =====
-- `send` of messages.service.ts.
use messageries.Base.{
  List, Option, String, [], any, find, if◌then◌else◌, leb, length, ltb, none, or_default, some, ℕ,
  ◌++◌, ◌+◌, ◌||◌, ◌∷◌,
}
use messageries.Audit.{log}
use messageries.Base.Text.{Text, trim}
use messageries.Config.{Config}
use messageries.Conversations.{
  assert_can_write, bump_last_message, find_conversation, is_member, list_participants,
}
use messageries.Crypto.{BodyCipher}
use messageries.Db.{
  Action, Db, Env, Result, err, forbidden, gets, internal, modify, not_found, ok, or_throw, pure,
  throw, throw_if, transaction, unique_violation, when, ◌>>=◌, ◌>>◌,
}
use messageries.Entities.Accounts.{redacted}
use messageries.Entities.Chat.{
  Conversation, ConversationParticipant, Message, OutboxEvent, Payload, flagged, message_created,
  plain_text, sent,
}
use messageries.Messages.Decryption.{DecryptedMessage, to_decrypted}
use messageries.Messages.Rows.{by_key, has_left, receipts_for, recipients_of, same_key, same_place}
use messageries.Realtime.{publish_message_created}
use messageries.Scanner.{ScanResult, Scanner, is_empty}

pub record SendMessageInput : Type 0 where
  pub conversation_id : ℕ
  pub sender_id : ℕ
  pub body : Text
  pub idempotency_key : Option Text

-- `if (input.idempotencyKey)`: an empty key is none.
abbrev pub truthy : Option Text → Option Text
truthy none = none
truthy (some []) = none
truthy (some (c ∷ s)) = some (c ∷ s)

-- The checks on the text before the scan.
unfoldable pub checked_body : Config → Text → Result Text
checked_body cfg body =
    if is_empty (trim body)
    then err (forbidden "Message vide")
    else if ltb cfg.max_message_length (length (trim body))
    then err (forbidden "Message trop long")
    else ok (trim body)

-- `if (input.idempotencyKey) { … }`
unfoldable pub find_existing : SendMessageInput → ℕ → Db → Option Message
find_existing input conv s = elim (truthy input.idempotency_key) [
  | none ↦ none
  | some key ↦ find (by_key conv input.sender_id key) s.messages
]

module _ (cipher : BodyCipher) (scanner : Scanner) (cfg : Config) (env : Env) where
  -- The six columns that hold the text, in clear or encrypted.
  unfoldable pub with_body : ScanResult → Message → Message
  with_body scan m =
      if cfg.encrypt_message_body
      then record m {
        body = none;
        body_ciphertext = some (cipher.encrypt env.now scan.cleaned).ciphertext;
        body_iv = some (cipher.encrypt env.now scan.cleaned).iv;
        body_tag = some (cipher.encrypt env.now scan.cleaned).tag;
        body_dek_id = some (cipher.encrypt env.now scan.cleaned).dek_id;
        body_alg = some "aes-256-gcm";
      }
      else record m { body = some scan.cleaned }

  abbrev pub flags_column : ScanResult → Option (List String)
  flags_column scan = if is_empty scan.flags then none else some scan.flags

  unfoldable pub message_row : SendMessageInput → Conversation → ScanResult → Message
  message_row input conv scan = with_body scan (record {
    id = env.uuid 0;
    conversation_id = conv.id;
    sender_id = input.sender_id;
    sequence = conv.last_sequence + 1;
    body = none;
    body_ciphertext = none;
    body_dek_id = none;
    body_alg = none;
    body_iv = none;
    body_tag = none;
    body_format = plain_text;
    status = if leb 6 scan.score then flagged else sent;
    idempotency_key = input.idempotency_key;
    moderation_flags = flags_column scan;
    moderation_score = scan.score;
    moderated_by = none;
    moderated_at = none;
    created_at = env.now;
    edited_at = none;
    deleted_at = none;
  })

  -- The row is refused where the identifier of the key or the idempotency key is longer than its
  -- column, or where (conversation, sequence) or (conversation, sender, key) is taken.
  unfoldable pub insert_message : Message → Action (Unit {0})
  insert_message m = do
    throw_if
        (ltb 128 (length (or_default m.body_dek_id []))
          || ltb 128 (length (or_default m.idempotency_key [])))
        internal
    rows ← gets (λ s. s.messages)
    throw_if (any (same_place m) rows || any (same_key m) rows) unique_violation
    modify (λ s. record s { messages = m ∷ s.messages })

  abbrev pub outbox_row : ℕ → String → ℕ → Payload → OutboxEvent
  outbox_row n event_type aggregate payload = record {
    id = env.uuid n;
    event_type = event_type;
    aggregate_id = aggregate;
    payload = payload;
    processed_at = none;
    created_at = env.now;
    attempts = 0;
    next_attempt_at = env.now;
    last_error = none;
  }

  abbrev pub created_payload :
      SendMessageInput → Conversation → ScanResult → List ConversationParticipant → Payload
  created_payload input conv scan participants =
      message_created (env.uuid 0) conv.id input.sender_id (conv.last_sequence + 1) env.now
        scan.cleaned (flags_column scan) (recipients_of input.sender_id participants)

  -- The rest of the transaction for a message that is new.
  unfoldable pub store_message : SendMessageInput → Conversation → ScanResult → Action Message
  store_message input conv scan = do
    let msg = message_row input conv scan
    insert_message msg
    participants ← gets (list_participants conv.id)
    modify (λ s. record s {
      receipts = receipts_for msg.id input.sender_id participants ++ s.receipts;
    })
    modify (λ s. record s {
      outbox =
          outbox_row 1 "message.created" conv.id (created_payload input conv scan participants)
          ∷ s.outbox;
    })
    bump_last_message env conv.id (conv.last_sequence + 1)
    when scan.had_sensitive (
        log env 2 (some input.sender_id) "message.sensitive_redacted" "message" (some msg.id)
          (redacted scan.flags scan.score))
    pure msg

  -- The transaction once the conversation is found and locked.
  unfoldable pub send_into : SendMessageInput → ScanResult → Conversation → Action Message
  send_into input scan conv = do
    throw_if conv.e2ee_enabled
        (forbidden "Conversation E2EE : utiliser /e2ee/messages (le serveur ne déchiffre pas)")
    assert_can_write conv
    part ← gets (λ s. find (is_member conv.id input.sender_id) s.participants)
    throw_if (has_left part) (forbidden "Vous n'êtes pas participant")
    existing ← gets (find_existing input conv.id)
    elim existing [ some m ↦ pure m | none ↦ store_message input conv scan ]

  -- The body of the transaction.
  unfoldable pub send_in_tx : SendMessageInput → ScanResult → Action Message
  send_in_tx input scan = do
    row ← gets (find_conversation input.conversation_id)
    conv ← or_throw row (not_found "Conversation introuvable")
    send_into input scan conv

  -- What follows the transaction.
  unfoldable pub deliver : ScanResult → Message → Action DecryptedMessage
  deliver scan message = do
    decrypted ← to_decrypted cipher (some scan.cleaned) message
    publish_message_created cfg message decrypted.body
    pure decrypted

  unfoldable pub send_checked : SendMessageInput → Result Text → Action DecryptedMessage
  send_checked input (err e) = throw e
  send_checked input (ok text) = do
    let scan = scanner.scan text
    message ← transaction (send_in_tx input scan)
    deliver scan message

  unfoldable pub send : SendMessageInput → Action DecryptedMessage
  send input = send_checked input (checked_body cfg input.body)
