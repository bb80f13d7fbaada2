-- ===== src/Attachments.antt =====
-- backend/src/modules/attachments/attachments.service.ts. The object store is a parameter: the signed
-- addresses, the size that a head request finds (none where the request fails), and whether a
-- deletion succeeds.
pub mod Filenames
pub mod Downloads
pub mod Quarantine
use messageries.Base.{
  Bool, List, Option, [], any, filter, find, if◌then◌else◌, ltb, none, not, ℕ, ◌*◌, ◌++◌, ◌+◌, ◌-◌,
  ◌==◌, ◌||◌, ◌∷◌,
}
use messageries.Attachments.Filenames.{sanitize_filename}
use messageries.Base.Text.{Text, codes, text_eq}
use messageries.Config.{Config}
use messageries.Conversations.{assert_can_access, catching}
use messageries.Db.{
  Action, Env, bad_request, forbidden, gets, internal, modify, not_found, or_throw, pure, throw,
  throw_if, when, ◌>>=◌, ◌>>◌,
}
use messageries.Entities.Accounts.{UserRole}
use messageries.Entities.Files.{Attachment, clean, is_clean, pending}

pub record ObjectStore : Type 0 where
  pub presign_put : Text → Text → ℕ → ℕ → Text
  pub presign_get : Text → ℕ → Text → Text
  pub head : Text → Option ℕ
  pub delete : Text → Bool

abbrev pub allowed_mime : List Text
allowed_mime =
    codes "image/jpeg"
    ∷ codes "image/png"
    ∷ codes "image/webp"
    ∷ codes "application/pdf"
    ∷ codes "text/plain"
    ∷ []

pub record PresignInput : Type 0 where
  pub user_id : ℕ
  pub user_role : UserRole
  pub conversation_id : ℕ
  pub filename : Text
  pub mime_type : Text
  pub size_bytes : ℕ

pub record PresignedUpload : Type 0 where
  pub attachment_id : ℕ
  pub upload_url : Text
  pub object_key : Text
  pub expires_in : ℕ

pub record DownloadInput : Type 0 where
  pub attachment_id : ℕ
  pub user_id : ℕ
  pub user_role : UserRole

pub record DownloadUrl : Type 0 where
  pub url : Text
  pub expires_in : ℕ

abbrev pub has_attachment_id : ℕ → Attachment → Bool
has_attachment_id id a = a.id == id

-- `Math.abs(a - b)`
abbrev pub distance : ℕ → ℕ → ℕ
distance a b = (a - b) + (b - a)

-- `print_id` writes an identifier; the store takes what it is given.
module _ (store : ObjectStore) (print_id : ℕ → Text) (cfg : Config) (env : Env) where
  abbrev pub object_key_of : PresignInput → Text
  object_key_of input =
      codes "conv/"
      ++ print_id input.conversation_id
      ++ codes "/"
      ++ print_id (env.uuid 0)
      ++ codes "-"
      ++ sanitize_filename input.filename

  abbrev pub attachment_row : PresignInput → Attachment
  attachment_row input = record {
    id = env.uuid 1;
    message_id = none;
    conversation_id = input.conversation_id;
    uploader_id = input.user_id;
    object_key = object_key_of input;
    original_filename = input.filename;
    mime_type = input.mime_type;
    size_bytes = input.size_bytes;
    sha256 = none;
    scan_status = if cfg.clamav_enabled then pending else clean;
    created_at = env.now;
  }

  abbrev pub max_bytes : ℕ
  max_bytes = cfg.max_attachment_mb * 1024 * 1024

  abbrev pub is_oversized : ℕ → Bool
  is_oversized size = size == 0 || ltb max_bytes size

  unfoldable pub presign_upload : PresignInput → Action PresignedUpload
  presign_upload input = do
    throw_if (not (any (text_eq input.mime_type) allowed_mime))
        (bad_request "Type de fichier non autorisé")
    throw_if (is_oversized input.size_bytes) (bad_request "Taille max")
    access ← assert_can_access env input.user_id input.user_role input.conversation_id
    let row = attachment_row input
    modify (λ s. record s { attachments = row ∷ s.attachments })
    pure (record {
      attachment_id = row.id;
      upload_url = store.presign_put row.object_key input.mime_type input.size_bytes 300;
      object_key = row.object_key;
      expires_in = 300;
    })

  -- The block under `try`.
  unfoldable pub check_upload : Attachment → Action (Unit {0})
  check_upload att = do
    real_size ← or_throw (store.head att.object_key) internal
    when (ltb 1024 (distance real_size att.size_bytes)) (
        throw_if (not (store.delete att.object_key)) internal
        >> modify (λ s. record s { attachments = filter (λ a. not (a.id == att.id)) s.attachments })
        >> throw (bad_request "Taille déclarée incohérente"))

  unfoldable pub finalize : ℕ → ℕ → Action Attachment
  finalize attachment_id user_id = do
    row ← gets (λ s. find (has_attachment_id attachment_id) s.attachments)
    att ← or_throw row (not_found "Attachment introuvable")
    throw_if (not (att.uploader_id == user_id)) (forbidden "Forbidden")
    catching (check_upload att) (λ e. throw (bad_request "Upload introuvable sur le stockage"))
    pure att

  unfoldable pub get_download_url : DownloadInput → Action DownloadUrl
  get_download_url input = do
    row ← gets (λ s. find (has_attachment_id input.attachment_id) s.attachments)
    att ← or_throw row (not_found "Not Found")
    throw_if (not (is_clean att.scan_status)) (forbidden "Fichier indisponible")
    access ← assert_can_access env input.user_id input.user_role att.conversation_id
    pure (record {
      url = store.presign_get att.object_key 60 att.original_filename;
      expires_in = 60;
    })
