-- ===== src/Messages/Sequence.antt =====
-- The column `sequence` of the messages, which `send` of messages.service.ts numbers.
use mathlib.Core.Option
use native.Mathlib.Numerals.{towards_suc}
use messageries.Base.{
  Bool, List, Option-cases, [], arith, filter, find, find-update_where, find_sound, if◌then◌else◌,
  inl, inr, map, refl, some, subst, suc, sym, update_where, zero, ℕ, ◌+◌, ◌∷◌, ◌≡◌, ◌⊎◌,
}
use messageries.Base.Text.{Text}
use messageries.Config.{Config}
use messageries.Conversations.{assert_can_write, bump_last_message, find_conversation, has_conv_id}
use messageries.Crypto.{BodyCipher}
use messageries.Db.{>>=-err, >>=-ok, Db, Env, Error, Result, err, ok, outcome, transaction}
use messageries.Entities.Chat.{Conversation, Message}
use messageries.Messages.Decryption.{shown_text, to_decrypted}
use messageries.Messages.Rows.{of_conv}
use messageries.Messages.Sending.{
  SendMessageInput, checked_body, deliver, find_existing, insert_message, message_row, send,
  send_checked, send_in_tx, send_into, store_message, with_body,
}
use messageries.Realtime.{publish_message_created}
use messageries.Scanner.{ScanResult, Scanner}

-- n, n - 1, …, 1
abbrev pub countdown : ℕ → List ℕ
countdown zero = []
countdown (suc n) = suc n ∷ countdown n

countdown_add_one : (n : ℕ) → countdown (n + 1) ≡ (n + 1) ∷ countdown n
countdown_add_one n = simp towards_suc refl

-- The sequences of a conversation, the newest row first.
abbrev pub sequences : ℕ → List Message → List ℕ
sequences conv ms = map (λ m. m.sequence) (filter (of_conv conv) ms)

-- An update that moves no message keeps the sequences.
pub sequences-update_where :
    (conv : ℕ) (q : Message → Bool) (f : Message → Message) (ms : List Message)
    → ((m : Message) → (f m).conversation_id ≡ m.conversation_id)
    → ((m : Message) → (f m).sequence ≡ m.sequence)
    → sequences conv (update_where q f ms) ≡ sequences conv ms
sequences-update_where conv q f [] hc hs = refl
sequences-update_where conv q f (m ∷ ms) hc hs =
    ground (arith, hc m, hs m, sequences-update_where conv q f ms hc hs)

-- Every conversation counts its messages in `last_sequence`, and they are numbered from 1 on
-- without a gap or a repetition.
abbrev pub IsNumbered : Db → Type 0
IsNumbered s =
    (conv : ℕ) (c : Conversation)
    → find_conversation conv s ≡ some c
    → sequences conv s.messages ≡ countdown c.last_sequence

module _ (cipher : BodyCipher) (scanner : Scanner) (cfg : Config) (env : Env) where
  row_place :
      (input : SendMessageInput) (c : Conversation) (scan : ScanResult)
      → ((message_row cipher scanner cfg env input c scan).conversation_id ≡ c.id)
        × ((message_row cipher scanner cfg env input c scan).sequence ≡ c.last_sequence + 1)
  unfolding message_row with_body
  row_place input c scan = ground arith

  abbrev Bumped : ℕ → ℕ → Db → Db → Type 0
  Bumped conv n s s' =
      s'.conversations
      ≡ update_where (has_conv_id conv)
          (λ c. record c { last_message_at = some env.now; last_sequence = n }) s.conversations

  -- A send that adds no row leaves the database alone.
  send_into_cases :
      (input : SendMessageInput) (scan : ScanResult) (c : Conversation) (s : Db)
      → ((send_into cipher scanner cfg env input scan c s).1 ≡ s)
        ⊎ (send_into cipher scanner cfg env input scan c s
            ≡ store_message cipher scanner cfg env input c scan s)
  unfolding send_into assert_can_write
  send_into_cases input scan c s = elim (Option-cases (find_existing input c.id s)) [
    | inl fresh ↦ ground arith
    | inr (m, old) ↦ inl (ground arith)
  ]

  -- The insertion is refused, or it adds the row and counts it.
  store_message_cases :
      (input : SendMessageInput) (scan : ScanResult) (c : Conversation) (s : Db)
      → let (r, s') = store_message cipher scanner cfg env input c scan s in
        ((e : Error) × (r ≡ err e))
        ⊎ ((r ≡ ok (message_row cipher scanner cfg env input c scan))
            × (s'.messages ≡ message_row cipher scanner cfg env input c scan ∷ s.messages)
            × Bumped c.id (c.last_sequence + 1) s s')
  unfolding store_message insert_message bump_last_message
  store_message_cases input scan c s = ground arith

  -- Messages and conversations are as they were, or one row was added and counted.
  abbrev pub Writes : SendMessageInput → ScanResult → Db → Db → Type 0
  Writes input scan s s' =
      ((s'.messages ≡ s.messages) × (s'.conversations ≡ s.conversations))
      ⊎ ((c : Conversation) × (find_conversation input.conversation_id s ≡ some c)
          × (s'.messages ≡ message_row cipher scanner cfg env input c scan ∷ s.messages)
          × Bumped c.id (c.last_sequence + 1) s s')

  tx-Writes :
      (input : SendMessageInput) (scan : ScanResult) (s : Db)
      → Writes input scan s (transaction (send_in_tx cipher scanner cfg env input scan) s).1
  unfolding send_in_tx transaction
  tx-Writes input scan s = elim (Option-cases (find_conversation input.conversation_id s)) [
    | inl missing ↦ inl (ground arith)
    | inr (c, found) ↦ elim (send_into_cases input scan c s) [
      | inl same ↦ inl (ground arith)
      | inr stored ↦ elim (store_message_cases input scan c s) [
        | inl (e, threw) ↦ inl (ground arith)
        | inr (done, row, bumped) ↦ inr (c, found, ground arith, ground arith)
      ]
    ]
  ]

  deliver-keeps :
      (scan : ScanResult) (m : Message) (s : Db)
      → let s' = (deliver cipher scanner cfg env scan m s).1 in
        (s'.messages ≡ s.messages) × (s'.conversations ≡ s.conversations)
  unfolding deliver to_decrypted publish_message_created shown_text
  deliver-keeps scan m s = ground arith

  checked-Writes :
      (input : SendMessageInput) (s : Db) (checked : Result Text)
      → (scan : ScanResult) × Writes input scan s
          (send_checked cipher scanner cfg env input checked s).1
  unfolding send_checked
  checked-Writes input s (err e) = (scanner.scan [], inl (refl, refl))
  checked-Writes input s (ok t) =
      let scan = scanner.scan t in
      let tx = transaction (send_in_tx cipher scanner cfg env input scan) in
      let rest = deliver cipher scanner cfg env scan in
      let writes = tx-Writes input scan s in
      elim (outcome (tx s)) [
        | inr (e, s', threw) ↦ (
          scan,
          subst (λ x. Writes input scan s x.1) (sym (>>=-err tx rest s threw)) (rw threw at writes),
        )
        | inl (m, s', done) ↦
            let (same_ms, same_cs) = deliver-keeps scan m s' in
            (
              scan,
              subst (λ x. Writes input scan s x.1) (sym (>>=-ok tx rest s done))
                  (rw (same_ms, same_cs) (rw done at writes)),
            )
      ]

  pub send-Writes :
      (input : SendMessageInput) (s : Db)
      → (scan : ScanResult) × Writes input scan s (send cipher scanner cfg env input s).1
  unfolding send
  send-Writes input s = checked-Writes input s (checked_body cfg input.body)

  Writes-IsNumbered :
      (input : SendMessageInput) (scan : ScanResult) (s s' : Db)
      → Writes input scan s s'
      → IsNumbered s
      → IsNumbered s'
  unfolding find_conversation
  Writes-IsNumbered input scan s s' (inl (same_ms, same_cs)) h conv d found =
      rw same_ms (h conv d (rw same_cs at found))
  Writes-IsNumbered input scan s s' (inr (c, locked, row, bumped)) h conv d found =
      elim (Option-cases (find (has_conv_id conv) s.conversations)) [
        | inl missing ↦ absurd (ground (arith, updated))
        | inr (c', known) ↦ ground (
          arith,
          updated,
          h conv c' known,
          h input.conversation_id c locked,
          find_sound (has_conv_id conv) s.conversations c' known,
          find_sound (has_conv_id input.conversation_id) s.conversations c locked,
          row_place input c scan,
          countdown_add_one c.last_sequence,
        )
      ]
    where
      updated :
          find (has_conv_id conv) s'.conversations
          ≡ Option.map
              (λ x.
                if has_conv_id c.id x
                then record x {
                  last_message_at = some env.now;
                  last_sequence = c.last_sequence + 1;
                }
                else x)
              (find (has_conv_id conv) s.conversations)
      updated = rw bumped (find-update_where (has_conv_id conv) _ _ s.conversations (λ x. refl))

  -- A send keeps the numbering, whatever its outcome: the new message gets the next number.
  pub send-IsNumbered :
      (input : SendMessageInput) (s : Db)
      → IsNumbered s
      → IsNumbered (send cipher scanner cfg env input s).1
  send-IsNumbered input s h =
      let (scan, writes) = send-Writes input s in Writes-IsNumbered input scan s _ writes h
