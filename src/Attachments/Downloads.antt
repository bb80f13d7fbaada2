-- ===== src/Attachments/Downloads.antt =====
-- Who gets the address of a file from backend/src/modules/attachments/attachments.service.ts.
use messageries.Base.{Bool-cases, Option-cases, arith, find, inl, inr, some, true, ℕ, ◌||◌, ◌≡◌}
use messageries.Attachments.{
  DownloadInput, DownloadUrl, ObjectStore, get_download_url, has_attachment_id,
}
use messageries.Base.Text.{Text}
use messageries.Config.{Config}
use messageries.Conversations.{Granted, assert_can_access}
use messageries.Conversations.Access.{assert_can_access_inv}
use messageries.Conversations.Activity.{has_active}
use messageries.Db.{Db, Env, ok, outcome}
use messageries.Entities.Accounts.{UserRole, is_staff}
use messageries.Entities.Files.{Attachment, is_clean}

-- An active participant of the conversation, or staff.
abbrev pub IsPermitted : Db → ℕ → UserRole → ℕ → Type 0
IsPermitted s user role conv = (has_active conv user s || is_staff role) ≡ true

permitted :
    (env : Env) (user : ℕ) (role : UserRole) (conv : ℕ) (s s' : Db) (a : Granted)
    → assert_can_access env user role conv s ≡ (ok a, s')
    → IsPermitted s user role conv
permitted env user role conv s s' a h =
    let (found, how) = assert_can_access_inv env user role conv s s' a h in
    elim how [
      | inl (p, member, role, same) ↦ ground arith
      | inr (staff, role, entered) ↦ ground arith
    ]

module _ (store : ObjectStore) (print_id : ℕ → Text) (cfg : Config) (env : Env) where
  -- An address for a download is given only for a file whose row has the status `clean`, whoever set
  -- it, a scan or, where none is configured, the preparation of the upload; and only to an active
  -- participant of its conversation or to staff. It is that of the stored object, for a minute.
  pub download_inv :
      (input : DownloadInput) (s s' : Db) (d : DownloadUrl)
      → get_download_url store print_id cfg env input s ≡ (ok d, s')
      → (att : Attachment) × (find (has_attachment_id input.attachment_id) s.attachments ≡ some att)
        × (is_clean att.scan_status ≡ true)
        × IsPermitted s input.user_id input.user_role att.conversation_id
        × (d ≡ record {
          url = store.presign_get att.object_key 60 att.original_filename;
          expires_in = 60;
        })
  unfolding get_download_url
  download_inv input s s' d h =
      elim (Option-cases (find (has_attachment_id input.attachment_id) s.attachments)) [
        | inl missing ↦ absurd (ground arith)
        | inr (att, found) ↦
            let access = assert_can_access env input.user_id input.user_role att.conversation_id in
            elim (Bool-cases (is_clean att.scan_status)) [
              | inr bad ↦ absurd (ground arith)
              | inl good ↦ elim (outcome (access s)) [
                | inr (e, db, refused) ↦ absurd (ground arith)
                | inl (a, db, done) ↦ (
                  att,
                  found,
                  good,
                  permitted env input.user_id input.user_role att.conversation_id s db a done,
                  ground arith,
                )
              ]
            ]
      ]
