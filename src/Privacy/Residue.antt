-- ===== src/Privacy/Residue.antt =====
-- What `send` of messages.service.ts leaves for `anonymizeUser` of privacy.service.ts in the outbox.
use messageries.Base.{[], arith, inl, inr, none, refl, ℕ, ◌∷◌, ◌≡◌}
use messageries.Base.Text.{Text}
use messageries.Config.{Config}
use messageries.Conversations.{bump_last_message, list_participants}
use messageries.Crypto.{BodyCipher}
use messageries.Db.{Db, Env, ok}
use messageries.Entities.Chat.{
  Conversation, Message, OutboxEvent, Payload, message_created, message_read,
}
use messageries.Messages.Decryption.{DecryptedMessage}
use messageries.Messages.Outcomes.{checked_inv, tx_inv}
use messageries.Messages.Sending.{
  SendMessageInput, checked_body, created_payload, find_existing, insert_message, outbox_row, send,
  store_message,
}
use messageries.Privacy.{anonymize_user}
use messageries.Privacy.Erasure.{anonymize_user-outbox}
use messageries.Realtime.{publish_message_created}
use messageries.Scanner.{ScanResult, Scanner}
use messageries.Users.{Crypt}

-- The text in the payload of an event.
abbrev pub text_of : Payload → Text
text_of (message_created message conv sender sequence at body flags recipients) = body
text_of (message_read conv user upto) = []

module _ (cipher : BodyCipher) (scanner : Scanner) (cfg : Config) (env : Env) where
  store_message-outbox :
      (input : SendMessageInput) (scan : ScanResult) (c : Conversation) (s s' : Db) (m : Message)
      → store_message cipher scanner cfg env input c scan s ≡ (ok m, s')
      → (e : OutboxEvent) × (s'.outbox ≡ e ∷ s.outbox) × (text_of e.payload ≡ scan.cleaned)
  unfolding store_message insert_message bump_last_message list_participants
  store_message-outbox input scan c s s' m h = (
    outbox_row cipher scanner cfg env 1 "message.created" c.id
        (created_payload cipher scanner cfg env input c scan (list_participants c.id s)),
    ground arith,
    refl,
  )

  -- The outbox holds the text of a new message in clear, whether or not bodies are encrypted, and
  -- still does after the sender, or anyone, has been anonymised; the message is one sent without an
  -- idempotency key.
  pub sent_text_survives :
      (crypt : Crypt) (print_id : ℕ → Text) (hash : Text → ℕ) (later : Env)
      (input : SendMessageInput) (user_id actor : ℕ) (s s' : Db) (d : DecryptedMessage)
      → send cipher scanner cfg env input s ≡ (ok d, s')
      → input.idempotency_key ≡ none
      → let s'' = (anonymize_user crypt print_id hash cfg later user_id actor s').1 in
        (t : Text) × (e : OutboxEvent) × (checked_body cfg input.body ≡ ok t)
        × (s''.outbox ≡ e ∷ s.outbox)
        × (text_of e.payload ≡ (scanner.scan t).cleaned)
  unfolding send find_existing publish_message_created
  sent_text_survives crypt print_id hash later input user_id actor s s' d h no_key =
      let (t, m, s1, checked, stored, answered) =
        checked_inv cipher scanner cfg env input s s' d (checked_body cfg input.body) h in
      let scan = scanner.scan t in
      let (c, found, clear, opened, present, ended) =
        tx_inv cipher scanner cfg env input scan s s1 m stored in
      let kept = anonymize_user-outbox crypt print_id hash cfg later user_id actor s' in
      elim ended [
        | inl (old, same) ↦ absurd (ground arith)
        | inr (fresh, done) ↦
            let (e, outbox, text) = store_message-outbox input scan c s s1 m done in
            (t, e, checked, ground arith, text)
      ]
