-- ===== src/Messages/Retry.antt =====
-- A send that is repeated with its idempotency key.
use messageries.Base.{
  arith, false, find, find-update_where, find_sound, inl, inr, refl, some, subst, sym, true,
  update_where, ℕ, ◌+◌, ◌∙◌, ◌∷◌, ◌≡◌,
}
use messageries.Base.Text.{Text, text_eq_refl}
use messageries.Config.{Config}
use messageries.Conversations.{
  assert_can_write, bump_last_message, find_conversation, has_conv_id, is_member,
}
use messageries.Crypto.{BodyCipher}
use messageries.Db.{>>=-ok, Db, Env, ok, transaction}
use messageries.Entities.Chat.{Conversation, Message, is_open, sent}
use messageries.Messages.Decryption.{DecryptedMessage, shown_text, to_decrypted}
use messageries.Messages.Outcomes.{checked_inv, deliver-ok, tx_inv}
use messageries.Messages.Rows.{has_left}
use messageries.Messages.Sending.{
  SendMessageInput, checked_body, deliver, find_existing, insert_message, message_row, send,
  send_checked, send_in_tx, send_into, store_message, with_body,
}
use messageries.Realtime.{publish_message_created}
use messageries.Scanner.{ScanResult, Scanner}

-- What a send needs: a text, and a conversation that is open, not end-to-end encrypted, and has the
-- sender as a participant who has not left.
pub record Accepted (cfg : Config) (input : SendMessageInput) (s : Db) : Type 0 where
  pub text : Text
  pub conv : Conversation
  pub checked : checked_body cfg input.body ≡ ok text
  pub located : find_conversation input.conversation_id s ≡ some conv
  pub clear : conv.e2ee_enabled ≡ false
  pub opened : is_open conv.status ≡ true
  pub present : has_left (find (is_member conv.id input.sender_id) s.participants) ≡ false

module _ (cipher : BodyCipher) (scanner : Scanner) (cfg : Config) (env : Env) where
  tx_known :
      (input : SendMessageInput) (scan : ScanResult) (s : Db) (a : Accepted cfg input s)
      (m : Message)
      → find_existing input a.conv.id s ≡ some m
      → transaction (send_in_tx cipher scanner cfg env input scan) s ≡ (ok m, s)
  unfolding transaction send_in_tx send_into assert_can_write
  tx_known input scan s a m old = ground (arith, a.located, a.clear, a.opened, a.present)

  -- Only the answer and its event are left of a request whose key is known.
  send_delivers :
      (input : SendMessageInput) (s : Db) (a : Accepted cfg input s) (m : Message)
      → find_existing input a.conv.id s ≡ some m
      → send cipher scanner cfg env input s
        ≡ deliver cipher scanner cfg env (scanner.scan a.text) m s
  unfolding send send_checked
  send_delivers input s a m old =
      let scan = scanner.scan a.text in
      let tx = transaction (send_in_tx cipher scanner cfg env input scan) in
      subst
        (λ x.
          send_checked cipher scanner cfg env input x s ≡ deliver cipher scanner cfg env scan m s)
        (sym a.checked)
        (>>=-ok tx (deliver cipher scanner cfg env scan) s (tx_known input scan s a m old))

  -- What the insertion leaves for a later request of the same sender.
  store_inv :
      (input : SendMessageInput) (scan : ScanResult) (c : Conversation) (s s' : Db) (m : Message)
      → store_message cipher scanner cfg env input c scan s ≡ (ok m, s')
      → (m ≡ message_row cipher scanner cfg env input c scan)
        × (s'.messages ≡ m ∷ s.messages)
        × (s'.participants ≡ s.participants)
        × (s'.conversations
            ≡ update_where
                (has_conv_id c.id)
                (λ x. record x {
                  last_message_at = some env.now;
                  last_sequence = c.last_sequence + 1;
                })
                s.conversations)
  unfolding store_message insert_message bump_last_message
  store_inv input scan c s s' m h = ground arith

  row_key :
      (input : SendMessageInput) (c : Conversation) (scan : ScanResult)
      → let m = message_row cipher scanner cfg env input c scan in
        (m.conversation_id ≡ c.id)
        × (m.sender_id ≡ input.sender_id)
        × (m.idempotency_key ≡ input.idempotency_key)
  unfolding message_row with_body
  row_key input c scan = ground arith

  -- After a send that returned `m`, a request with the same key finds `m`, and the conversation is
  -- as open as it was.
  sent_state :
      (input again : SendMessageInput) (scan : ScanResult) (s s' : Db) (m : Message) (k : ℕ)
      (key t : Text)
      → transaction (send_in_tx cipher scanner cfg env input scan) s ≡ (ok m, s')
      → input.idempotency_key ≡ some (k ∷ key)
      → again.idempotency_key ≡ some (k ∷ key)
      → again.conversation_id ≡ input.conversation_id
      → again.sender_id ≡ input.sender_id
      → checked_body cfg again.body ≡ ok t
      → (a : Accepted cfg again s') × (find_existing again a.conv.id s' ≡ some m)
  unfolding find_existing find_conversation
  sent_state input again scan s s' m k key t h key_in key_again conv sender body =
      let (c, located, clear, opened, present, ended) =
        tx_inv cipher scanner cfg env input scan s s' m h in
      elim ended [
        | inl (old, same) ↦ (
          record {
            text = t;
            conv = c;
            checked = body;
            located = ground arith;
            clear = clear;
            opened = opened;
            present = ground arith;
          },
          ground arith,
        )
        | inr (fresh, stored) ↦
            let (row, messages, parts, convs) = store_inv input scan c s s' m stored in
            (
              record {
                text = t;
                conv = record c {
                  last_message_at = some env.now;
                  last_sequence = c.last_sequence + 1;
                };
                checked = body;
                located = ground (
                  arith,
                  find_sound (has_conv_id input.conversation_id) s.conversations c located,
                  find-update_where (has_conv_id input.conversation_id) (has_conv_id c.id)
                      (λ x. record x {
                        last_message_at = some env.now;
                        last_sequence = c.last_sequence + 1;
                      })
                      s.conversations (λ x. refl),
                );
                clear = clear;
                opened = opened;
                present = ground arith;
              },
              ground (arith, row_key input c scan, text_eq_refl key),
            )
      ]

  -- The event that is sent changes none of this.
  emitted_state :
      (again : SendMessageInput) (m m' : Message) (b : Text) (s : Db) (a : Accepted cfg again s)
      → find_existing again a.conv.id s ≡ some m
      → (a' : Accepted cfg again (publish_message_created cfg m' b s).1) × (find_existing again
            a'.conv.id
            (publish_message_created cfg m' b s).1
          ≡ some m)
  unfolding find_existing find_conversation publish_message_created
  emitted_state again m m' b s a old = (
    record {
      text = a.text;
      conv = a.conv;
      checked = a.checked;
      located = ground (arith, a.located);
      clear = a.clear;
      opened = a.opened;
      present = ground (arith, a.present);
    },
    ground (arith, old),
  )

  -- A request that may send, with a text that passes the checks, in a conversation that is open and
  -- not end-to-end encrypted, and whose key is that of a message with the status `sent`, is answered
  -- with that message under the new text as the scanner cleans it, not under the stored text; and
  -- the same text goes into the call that emits the event, with no other change.
  pub replay_echoes_new_text :
      (input : SendMessageInput) (s : Db) (a : Accepted cfg input s) (m : Message)
      → find_existing input a.conv.id s ≡ some m
      → m.status ≡ sent
      → send cipher scanner cfg env input s ≡ (
        ok (record { message = m; body = (scanner.scan a.text).cleaned }),
        (publish_message_created cfg m (scanner.scan a.text).cleaned s).1,
      )
  unfolding deliver to_decrypted shown_text publish_message_created
  replay_echoes_new_text input s a m old status = rw (send_delivers input s a m old) (ground arith)

-- A send that is repeated with its key answers with the message of the first, and changes nothing
-- but the events that were sent, provided that the text of the repetition passes the checks.
pub send_again :
    (cipher : BodyCipher) (scanner : Scanner) (cfg : Config) (env later : Env)
    (input again : SendMessageInput) (s s' : Db) (d : DecryptedMessage) (k : ℕ) (key t : Text)
    → send cipher scanner cfg env input s ≡ (ok d, s')
    → input.idempotency_key ≡ some (k ∷ key)
    → again.idempotency_key ≡ some (k ∷ key)
    → again.conversation_id ≡ input.conversation_id
    → again.sender_id ≡ input.sender_id
    → checked_body cfg again.body ≡ ok t
    → (d' : DecryptedMessage) × (d'.message ≡ d.message)
      × (send cipher scanner cfg later again s'
          ≡ (ok d', (publish_message_created cfg d'.message d'.body s').1))
unfolding send
send_again cipher scanner cfg env later input again s s' d k key t h key_in key_again conv sender
      body =
    let (t', m, s'', checked, tx, (same, written)) =
      checked_inv cipher scanner cfg env input s s' d (checked_body cfg input.body) h in
    let (a, old) =
      sent_state cipher scanner cfg env input again (scanner.scan t') s s'' m k key t tx key_in
        key_again conv sender body in
    let u = (publish_message_created cfg m d.body s'').1 in
    let (a', old') = emitted_state cipher scanner cfg env again m m d.body s'' a old in
    let (b, answer) = deliver-ok cipher scanner cfg later (scanner.scan a'.text) m u in
    (
      record { message = m; body = b },
      sym same,
      rw written (send_delivers cipher scanner cfg later again u a' m old' ∙ answer),
    )
