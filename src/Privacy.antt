-- ===== src/Privacy.antt =====
-- backend/src/modules/privacy/privacy.service.ts: the export of a user's data, and the
-- anonymisation of an account, which keeps its rows and wipes what identifies or was said.
pub mod Erasure
pub mod Exports
pub mod Residue
use messageries.Base.{
  Bool, List, Option, [], any, filter, find, if◌then◌else◌, is_none, map, none, not, or_default,
  some, true, update_where, ℕ, ◌&&◌, ◌++◌, ◌==◌,
}
use messageries.Audit.{log}
use messageries.Base.Text.{Text, codes}
use messageries.Config.{Config}
use messageries.Crypto.{BodyCipher}
use messageries.Db.{
  Action, Db, Env, err, gets, modify, not_found, ok, or_throw, pure, throw_if, transaction,
  unique_violation, when, ◌>>=◌, ◌>>◌,
}
use messageries.Entities.Accounts.{User, UserRole, no_metadata}
use messageries.Entities.Chat.{Message, deleted}
use messageries.Entities.Files.{Attachment}
use messageries.Messages.Decryption.{stored_text}
use messageries.Scanner.{is_empty}
use messageries.Tokens.{revoke_all_for_user}
use messageries.Users.{Crypt, has_email}

pub record ExportedMessage : Type 0 where
  pub id : ℕ
  pub conversation_id : ℕ
  pub sequence : ℕ
  pub created_at : ℕ
  pub body : Text

pub record ExportedAttachment : Type 0 where
  pub id : ℕ
  pub conversation_id : ℕ
  pub original_filename : Text
  pub mime_type : Text
  pub size_bytes : ℕ
  pub created_at : ℕ

pub record UserExport : Type 0 where
  pub exported_at : ℕ
  pub user_id : ℕ
  pub email : Text
  pub role : UserRole
  pub display_name : Option Text
  pub created_at : ℕ
  pub conversations : List ℕ
  pub messages : List ExportedMessage
  pub attachments : List ExportedAttachment

abbrev pub is_sent_by : ℕ → Message → Bool
is_sent_by user m = m.sender_id == user

abbrev pub has_user_id : ℕ → User → Bool
has_user_id id u = u.id == id

-- The messages of the user that are not deleted.
abbrev pub is_exported : ℕ → Message → Bool
is_exported user m = is_sent_by user m && is_none m.deleted_at

-- `decryptIfNeeded`: a text that cannot be decrypted is empty.
unfoldable pub decrypt_if_needed : BodyCipher → Message → Db → Text
decrypt_if_needed cipher m s = elim (stored_text cipher m s).0 [ ok t ↦ t | err e ↦ [] ]

abbrev pub exported_message : BodyCipher → Db → Message → ExportedMessage
exported_message cipher s m = record {
  id = m.id;
  conversation_id = m.conversation_id;
  sequence = m.sequence;
  created_at = m.created_at;
  body = decrypt_if_needed cipher m s;
}

abbrev pub exported_attachment : Attachment → ExportedAttachment
exported_attachment a = record {
  id = a.id;
  conversation_id = a.conversation_id;
  original_filename = a.original_filename;
  mime_type = a.mime_type;
  size_bytes = a.size_bytes;
  created_at = a.created_at;
}

-- The conversations that the user takes or took part in.
abbrev pub conversations_of : ℕ → Db → List ℕ
conversations_of user s =
    map (λ p. p.conversation_id) (filter (λ p. p.user_id == user) s.participants)

-- Without a conversation the messages are not read.
unfoldable pub messages_of : ℕ → Db → List Message
messages_of user s =
    if is_empty (conversations_of user s) then [] else filter (is_exported user) s.messages

unfoldable pub export_user_data : BodyCipher → Env → ℕ → Action UserExport
export_user_data cipher env user_id = do
  row ← gets (λ s. find (has_user_id user_id) s.users)
  user ← or_throw row (not_found "")
  conv_ids ← gets (conversations_of user_id)
  decrypted ← gets (λ s. map (exported_message cipher s) (messages_of user_id s))
  attachments ←
      gets (λ s. map exported_attachment (filter (λ a. a.uploader_id == user_id) s.attachments))
  modify (λ s. record s {
    users =
        update_where (has_user_id user_id)
          (λ u. record u { data_export_requested_at = some env.now }) s.users;
  })
  log env 0 (some user_id) "privacy.exported" "user" (some user_id) no_metadata
  pure (record {
    exported_at = env.now;
    user_id = user.id;
    email = user.email;
    role = user.role;
    display_name = user.display_name;
    created_at = user.created_at;
    conversations = conv_ids;
    messages = decrypted;
    attachments = attachments;
  })

-- `print_id` writes an identifier.
module _ (crypt : Crypt) (print_id : ℕ → Text) (hash : Text → ℕ) (cfg : Config) (env : Env) where
  abbrev pub pseudo_email : ℕ → Text
  pseudo_email id = codes "anon_" ++ print_id id ++ codes "@deleted.invalid"

  abbrev pub anonymous : User → User
  anonymous u = record u {
    email = pseudo_email u.id;
    display_name = some (codes "Utilisateur supprimé");
    password_hash = codes "INVALID";
    mfa_secret = none;
    anonymized_at = some env.now;
    is_suspended = true;
  }

  -- The update of the messages; a message that was deleted keeps its time.
  abbrev pub erased : Message → Message
  erased m = record m {
    body = none;
    body_ciphertext = none;
    body_iv = none;
    body_tag = none;
    body_dek_id = none;
    body_alg = none;
    status = deleted;
    deleted_at = some (or_default m.deleted_at env.now);
  }

  -- The address is unique in the table.
  unfoldable pub erase_user : User → Action (Unit {0})
  erase_user user = do
    taken ←
        gets (λ s.
          any (λ u. has_email crypt (pseudo_email user.id) u && not (u.id == user.id)) s.users)
    throw_if taken unique_violation
    modify (λ s. record s { users = update_where (has_user_id user.id) anonymous s.users })
    modify (λ s. record s { messages = update_where (is_sent_by user.id) erased s.messages })
    revoke_all_for_user hash cfg env user.id "gdpr_anonymized"

  -- An account that is anonymised already is left alone.
  unfoldable pub anonymize_in_tx : ℕ → Action (Unit {0})
  anonymize_in_tx user_id = do
    row ← gets (λ s. find (has_user_id user_id) s.users)
    user ← or_throw row (not_found "")
    when (is_none user.anonymized_at) (erase_user user)

  unfoldable pub anonymize_user : ℕ → ℕ → Action (Unit {0})
  anonymize_user user_id actor_id =
      transaction (anonymize_in_tx user_id)
      >> log env 0 (some actor_id) "privacy.anonymized" "user" (some user_id) no_metadata
