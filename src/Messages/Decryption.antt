-- ===== src/Messages/Decryption.antt =====
-- `toDecrypted` of messages.service.ts.
use messageries.Base.{List, Option, [], none, some, ℕ, ◌∷◌}
use messageries.Base.Text.{Text, codes}
use messageries.Crypto.{BodyCipher}
use messageries.Db.{Action, internal, or_throw, pure, ◌>>=◌}
use messageries.Entities.Chat.{Message, MessageStatus, deleted, flagged, hidden, sent}

-- A message without its ciphertext, and its text.
pub record DecryptedMessage : Type 0 where
  pub message : Message
  pub body : Text

module _ (cipher : BodyCipher) where
  -- Decryption needs all four columns.
  unfoldable pub decrypt_columns :
      Option (List ℕ) → Option (List ℕ) → Option (List ℕ) → Option Text → Action Text
  decrypt_columns (some c) (some iv) (some tag) (some (k ∷ dek)) =
      or_throw (cipher.decrypt (record { ciphertext = c; iv = iv; tag = tag; dek_id = k ∷ dek }))
        internal
  decrypt_columns _ _ _ _ = pure []

  unfoldable pub stored_text : Message → Action Text
  stored_text m = elim m.body [
    | some t ↦ pure t
    | none ↦ decrypt_columns m.body_ciphertext m.body_iv m.body_tag m.body_dek_id
  ]

  -- The text that is shown, by the status of the message.
  unfoldable pub shown_text : MessageStatus → Option Text → Message → Action Text
  shown_text deleted known m = pure []
  shown_text hidden known m = pure (codes "[Message masqué par la modération]")
  shown_text sent known m = elim known [ some t ↦ pure t | none ↦ stored_text m ]
  shown_text flagged known m = elim known [ some t ↦ pure t | none ↦ stored_text m ]

  unfoldable pub to_decrypted : Option Text → Message → Action DecryptedMessage
  to_decrypted known m = do
    body ← shown_text m.status known m
    pure (record { message = m; body = body })

  unfoldable pub decrypt_all : List Message → Action (List DecryptedMessage)
  decrypt_all [] = pure []
  decrypt_all (m ∷ ms) =
      let rest = decrypt_all ms in to_decrypted none m >>= λ d. rest >>= λ ds. pure (d ∷ ds)
