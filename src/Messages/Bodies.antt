-- ===== src/Messages/Bodies.antt =====
-- The stored text: in clear or encrypted, and what is read back.
use messageries.Base.{List, [], arith, if◌then◌else◌, none, refl, some, true, ℕ, ◌∷◌, ◌≡◌, ◌≢◌}
use messageries.Base.Text.{Text}
use messageries.Config.{Config}
use messageries.Crypto.{BodyCipher}
use messageries.Db.{Db, Env, ok}
use messageries.Entities.Chat.{Conversation}
use messageries.Messages.Decryption.{decrypt_columns, stored_text}
use messageries.Messages.Sending.{SendMessageInput, message_row, with_body}
use messageries.Scanner.{ScanResult, Scanner}

-- The four columns of an encryption give back what it decrypts to.
columns-decrypt :
    (cipher : BodyCipher) (c iv tag : List ℕ) (dek t : Text) (s : Db)
    → cipher.decrypt (record { ciphertext = c; iv = iv; tag = tag; dek_id = dek }) ≡ some t
    → dek ≢ []
    → decrypt_columns cipher (some c) (some iv) (some tag) (some dek) s ≡ (ok t, s)
unfolding decrypt_columns
columns-decrypt cipher c iv tag [] t s h ne = absurd (ne refl)
columns-decrypt cipher c iv tag (k ∷ dek) t s h ne = rw h

module _ (cipher : BodyCipher) (scanner : Scanner) (cfg : Config) (env : Env) where
  -- Whether or not bodies are encrypted, the stored row reads back as the scanned text, if UTF-8
  -- can write it; and under encryption the row holds no clear text.
  pub stored_text-message_row :
      (input : SendMessageInput) (c : Conversation) (scan : ScanResult) (s : Db)
      → cipher.encodable scan.cleaned ≡ true
      → let m = message_row cipher scanner cfg env input c scan in
        (stored_text cipher m s ≡ (ok scan.cleaned, s))
        × (m.body ≡ (if cfg.encrypt_message_body then none else some scan.cleaned))
  unfolding message_row with_body stored_text
  stored_text-message_row input c scan s valid =
      let e = cipher.encrypt env.now scan.cleaned in
      let read =
        columns-decrypt cipher e.ciphertext e.iv e.tag e.dek_id scan.cleaned s
          (cipher.decrypt-encrypt env.now scan.cleaned valid)
          (cipher.dek_id_ne_nil env.now scan.cleaned) in
      (ground (arith, read), ground arith)
