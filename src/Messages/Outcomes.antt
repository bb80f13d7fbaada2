-- ===== src/Messages/Outcomes.antt =====
-- How a send ends: what stops it, what a failure leaves behind, and what a repetition does.
use messageries.Base.{
  Option-cases, [], ap, arith, false, find, inl, inr, none, refl, some, subst, sym, true, ◌∙◌, ◌≡◌,
  ◌⊎◌,
}
use messageries.Base.Text.{Text, codes}
use messageries.Config.{Config}
use messageries.Conversations.{assert_can_write, bump_last_message, find_conversation, is_member}
use messageries.Crypto.{BodyCipher}
use messageries.Db.{
  >>=-err, >>=-ok, Db, Env, Error, Result, err, ok, outcome, pure, transaction, ◌>>=◌, ◌>>◌,
}
use messageries.Entities.Chat.{
  Conversation, Message, MessageStatus, deleted, flagged, hidden, is_open, sent,
}
use messageries.Messages.Decryption.{DecryptedMessage, shown_text, to_decrypted}
use messageries.Messages.Rows.{has_left}
use messageries.Messages.Sending.{
  SendMessageInput, checked_body, deliver, find_existing, insert_message, send, send_checked,
  send_in_tx, send_into, store_message,
}
use messageries.Realtime.{publish_message_created}
use messageries.Scanner.{ScanResult, Scanner}

module _ (cipher : BodyCipher) (scanner : Scanner) (cfg : Config) (env : Env) where
  to_decrypted-known :
      (t : Text) (m : Message) (s : Db)
      → (b : Text) × (to_decrypted cipher (some t) m s ≡ (ok (record { message = m; body = b }), s))
  unfolding to_decrypted shown_text
  to_decrypted-known t m s = shown m.status refl
    where
      shown :
          (st : MessageStatus)
          → m.status ≡ st
          → (b : Text) × (to_decrypted cipher (some t) m s
              ≡ (ok (record { message = m; body = b }), s))
      shown deleted e = ([], ground arith)
      shown hidden e = (codes "[Message masqué par la modération]", ground arith)
      shown sent e = (t, ground arith)
      shown flagged e = (t, ground arith)

  send_into_fails :
      (input : SendMessageInput) (scan : ScanResult) (c : Conversation) (s : Db) (e : Error)
      → (send_into cipher scanner cfg env input scan c s).0 ≡ err e
      → (send_into cipher scanner cfg env input scan c s).1 ≡ s
  unfolding send_into assert_can_write store_message insert_message bump_last_message
  send_into_fails input scan c s e h = elim (Option-cases (find_existing input c.id s)) [
    | inl fresh ↦ ground arith
    | inr (m, old) ↦ ground arith
  ]

  tx_fails :
      (input : SendMessageInput) (scan : ScanResult) (s s' : Db) (e : Error)
      → transaction (send_in_tx cipher scanner cfg env input scan) s ≡ (err e, s')
      → s' ≡ s
  unfolding transaction send_in_tx
  tx_fails input scan s s' e h = elim (Option-cases (find_conversation input.conversation_id s)) [
    | inl missing ↦ ground arith
    | inr (c, found) ↦ ground (arith, send_into_fails input scan c s e)
  ]

  pub deliver-ok :
      (scan : ScanResult) (m : Message) (s : Db)
      → (b : Text) × (deliver cipher scanner cfg env scan m s
          ≡ (ok (record { message = m; body = b }), (publish_message_created cfg m b s).1))
  unfolding deliver publish_message_created
  deliver-ok scan m s =
      let (b, shown) = to_decrypted-known scan.cleaned m s in
      (
        b,
        >>=-ok (to_decrypted cipher (some scan.cleaned) m)
            (λ d. publish_message_created cfg m d.body >> pure d) s shown,
      )

  checked_fails :
      (input : SendMessageInput) (s : Db) (checked : Result Text) (e : Error)
      → (send_checked cipher scanner cfg env input checked s).0 ≡ err e
      → (send_checked cipher scanner cfg env input checked s).1 ≡ s
  unfolding send_checked
  checked_fails input s (err e') e h = refl
  checked_fails input s (ok t) e h =
      let scan = scanner.scan t in
      let tx = transaction (send_in_tx cipher scanner cfg env input scan) in
      let rest = deliver cipher scanner cfg env scan in
      elim (outcome (tx s)) [
        | inr (e', s', threw) ↦
            subst (λ x. x.1 ≡ s) (sym (>>=-err tx rest s threw)) (tx_fails input scan s s' e' threw)
        | inl (m, s', done) ↦
            let (b, answer) = deliver-ok scan m s' in
            let returned : (tx >>= rest) s
                ≡ (ok (record { message = m; body = b }), (publish_message_created cfg m b s').1) =
              >>=-ok tx rest s done ∙ answer in
            cc (ap (λ x. x.0) returned)
      ]

  -- A send that fails leaves everything as it was. No statement after the insertion of the message
  -- fails here, so this says that the guards and the insertion come before all other writes.
  pub send_fails :
      (input : SendMessageInput) (s : Db) (e : Error)
      → (send cipher scanner cfg env input s).0 ≡ err e
      → (send cipher scanner cfg env input s).1 ≡ s
  unfolding send
  send_fails input s e h = checked_fails input s (checked_body cfg input.body) e h

  -- The answer to a request whose transaction returned `m`.
  abbrev pub Answered : Message → DecryptedMessage → Db → Db → Type 0
  Answered m d s s' = (d.message ≡ m) × (s' ≡ (publish_message_created cfg m d.body s).1)

  pub checked_inv :
      (input : SendMessageInput) (s s' : Db) (d : DecryptedMessage) (checked : Result Text)
      → send_checked cipher scanner cfg env input checked s ≡ (ok d, s')
      → (t : Text) × (m : Message) × (s'' : Db) × (checked ≡ ok t)
        × (transaction (send_in_tx cipher scanner cfg env input (scanner.scan t)) s ≡ (ok m, s''))
        × Answered m d s'' s'
  unfolding send_checked
  checked_inv input s s' d (err e) h = cc (ap (λ x. x.0) h)
  checked_inv input s s' d (ok t) h =
      let scan = scanner.scan t in
      let tx = transaction (send_in_tx cipher scanner cfg env input scan) in
      let rest = deliver cipher scanner cfg env scan in
      elim (outcome (tx s)) [
        | inr (e', s'', threw) ↦ cc (ap (λ x. x.0) (sym (>>=-err tx rest s threw) ∙ h))
        | inl (m, s'', done) ↦
            let (b, answer) = deliver-ok scan m s'' in
            let same : (
              ok (record { message = m; body = b }),
              (publish_message_created cfg m b s'').1,
            )
                ≡ (ok d, s') =
              sym (>>=-ok tx rest s done ∙ answer) ∙ h in
            (t, m, s'', refl, done, ground (arith, same))
      ]

  -- A transaction that returned has met the guards, and returned the message of an earlier request
  -- with this key, or a new row.
  pub tx_inv :
      (input : SendMessageInput) (scan : ScanResult) (s s' : Db) (m : Message)
      → transaction (send_in_tx cipher scanner cfg env input scan) s ≡ (ok m, s')
      → (c : Conversation) × (find_conversation input.conversation_id s ≡ some c)
        × (c.e2ee_enabled ≡ false)
        × (is_open c.status ≡ true)
        × (has_left (find (is_member c.id input.sender_id) s.participants) ≡ false)
        × (((find_existing input c.id s ≡ some m) × (s' ≡ s))
            ⊎ ((find_existing input c.id s ≡ none)
                × (store_message cipher scanner cfg env input c scan s ≡ (ok m, s'))))
  unfolding transaction send_in_tx send_into assert_can_write
  tx_inv input scan s s' m h = elim (Option-cases (find_conversation input.conversation_id s)) [
    | inl missing ↦ absurd (ground arith)
    | inr (c, found) ↦ elim (Option-cases (find_existing input c.id s)) [
      | inl fresh ↦ (c, found, ground arith, ground arith, ground arith, inr (fresh, ground arith))
      | inr (x, old) ↦
          (c, found, ground arith, ground arith, ground arith, inl (ground arith, ground arith))
    ]
  ]
