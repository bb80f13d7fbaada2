-- ===== src/Attachments/Quarantine.antt =====
-- Files that the scan has not seen, in backend/src/modules/attachments/attachments.service.ts.
use messageries.Base.{
  Bool-cases, List, Option-cases, [], any, arith, false, filter, find, if◌then◌else◌, inl, inr, ltb,
  none, not, some, subst, sym, true, ℕ, ◌*◌, ◌==◌, ◌∙◌, ◌∷◌, ◌≡◌, ◌≢◌, ◌≤◌, ◌⊎◌,
}
use messageries.Attachments.{
  DownloadInput, DownloadUrl, ObjectStore, PresignInput, PresignedUpload, allowed_mime,
  attachment_row, check_upload, distance, finalize, get_download_url, has_attachment_id,
  is_oversized, presign_upload,
}
use messageries.Attachments.Downloads.{download_inv}
use messageries.Base.Text.{Text, text_eq}
use messageries.Config.{Config}
use messageries.Conversations.{assert_can_access}
use messageries.Db.{Db, Env, ok, outcome}
use messageries.Entities.Files.{Attachment, is_clean}

module _ (store : ObjectStore) (print_id : ℕ → Text) (cfg : Config) (env : Env) where
  -- An upload is prepared only for an allowed type and a size above zero and within the limit; the
  -- new row comes first, and awaits the scan where one is configured.
  pub presign_upload_inv :
      (input : PresignInput) (s s' : Db) (p : PresignedUpload)
      → presign_upload store print_id cfg env input s ≡ (ok p, s')
      → (any (text_eq input.mime_type) allowed_mime ≡ true)
        × (1 ≤ input.size_bytes)
        × (input.size_bytes ≤ cfg.max_attachment_mb * 1024 * 1024)
        × (p.attachment_id ≡ env.uuid 1)
        × (rest : List Attachment) × (s'.attachments
            ≡ attachment_row store print_id cfg env input ∷ rest)
  unfolding presign_upload
  presign_upload_inv input s s' p h =
      let access = assert_can_access env input.user_id input.user_role input.conversation_id in
      elim (Bool-cases (any (text_eq input.mime_type) allowed_mime)) [
        | inr bad ↦ absurd (ground arith)
        | inl allowed ↦ elim (Bool-cases (is_oversized store print_id cfg env input.size_bytes)) [
          | inl big ↦ absurd (ground arith)
          | inr fits ↦ elim (outcome (access s)) [
            | inr (e, db, refused) ↦ absurd (ground arith)
            | inl (a, db, done) ↦
                (allowed, ground arith, ground arith, ground arith, db.attachments, ground arith)
          ]
        ]
      ]

  -- `finalize` leaves the rows, or takes those of one identifier away.
  finalize-attachments :
      (id user : ℕ) (s : Db)
      → let s' = (finalize store print_id cfg env id user s).1 in
        (s'.attachments ≡ s.attachments)
        ⊎ ((x : ℕ) × (s'.attachments ≡ filter (λ a. not (a.id == x)) s.attachments))
  unfolding finalize check_upload
  finalize-attachments id user s = elim (Option-cases (find (has_attachment_id id) s.attachments)) [
    | inl missing ↦ inl (ground arith)
    | inr (att, found) ↦ elim (Bool-cases (att.uploader_id == user)) [
      | inr stranger ↦ inl (ground arith)
      | inl own ↦ elim (Option-cases (store.head att.object_key)) [
        | inl no_object ↦ inl (ground arith)
        | inr (size, there) ↦ elim (Bool-cases (ltb 1024 (distance size att.size_bytes))) [
          | inr close ↦ inl (ground arith)
          | inl far ↦ elim (Bool-cases (store.delete att.object_key)) [
            | inr kept ↦ inl (ground arith)
            | inl gone ↦ inr (att.id, ground arith)
          ]
        ]
      ]
    ]
  ]

-- The first row of an identifier awaits the scan, if there is one.
abbrev IsUnscanned : ℕ → Db → Type 0
IsUnscanned id s =
    (att : Attachment)
    → find (has_attachment_id id) s.attachments ≡ some att
    → is_clean att.scan_status ≡ false

find-filter_id :
    (id x : ℕ) (rows : List Attachment)
    → find (has_attachment_id id) (filter (λ a. not (a.id == x)) rows)
      ≡ (if id == x then none else find (has_attachment_id id) rows)
find-filter_id id x [] = ground arith
find-filter_id id x (a ∷ rows) = ground (arith, find-filter_id id x rows)

abbrev pub finalize_all : ObjectStore → (ℕ → Text) → Config → List (Env × ℕ × ℕ) → Db → Db
finalize_all store print_id cfg [] s = s
finalize_all store print_id cfg ((env, id, user) ∷ calls) s =
    finalize_all store print_id cfg calls (finalize store print_id cfg env id user s).1

finalize_all-IsUnscanned :
    (store : ObjectStore) (print_id : ℕ → Text) (cfg : Config) (id : ℕ) (calls : List (Env × ℕ × ℕ))
    (s : Db)
    → IsUnscanned id s
    → IsUnscanned id (finalize_all store print_id cfg calls s)
finalize_all-IsUnscanned store print_id cfg id [] s h = h
finalize_all-IsUnscanned store print_id cfg id ((env, x, user) ∷ calls) s h =
    let s' = (finalize store print_id cfg env x user s).1 in
    finalize_all-IsUnscanned store print_id cfg id calls s' (λ att found.
      elim (finalize-attachments store print_id cfg env x user s) [
        | inl same ↦ h att (subst (λ r. find (has_attachment_id id) r ≡ some att) same found)
        | inr (y, fewer) ↦
            let found' = subst (λ r. find (has_attachment_id id) r ≡ some att) fewer found in
            let cases = sym (find-filter_id id y s.attachments) ∙ found' in
            elim (Bool-cases (id == y)) [
              | inl t ↦ absurd (ground arith)
              | inr f ↦ h att (ground arith)
            ]
      ])

-- Where the scan is configured, a prepared upload is refused to everybody, its uploader and staff
-- included, after any number of calls of `finalize` by anybody.
pub unscanned_refused :
    (store : ObjectStore) (print_id : ℕ → Text) (cfg : Config) (env later : Env)
    (input : PresignInput) (s s' : Db) (p : PresignedUpload) (calls : List (Env × ℕ × ℕ))
    (request : DownloadInput) (d : DownloadUrl)
    → cfg.clamav_enabled ≡ true
    → presign_upload store print_id cfg env input s ≡ (ok p, s')
    → request.attachment_id ≡ p.attachment_id
    → (get_download_url store print_id cfg later request
        (finalize_all store print_id cfg calls s')).0
      ≢ ok d
unscanned_refused store print_id cfg env later input s s' p calls request d enabled h same r =
    let end = finalize_all store print_id cfg calls s' in
    let (mime, low, high, id_same, rest, rows) =
      presign_upload_inv store print_id cfg env input s s' p h in
    let fresh : IsUnscanned request.attachment_id s' = λ att found. ground arith in
    let (att, found, is_scanned, granted, address) =
      download_inv store print_id cfg later request end
        (get_download_url store print_id cfg later request end).1 d (ground arith) in
    let unscanned =
      finalize_all-IsUnscanned store print_id cfg request.attachment_id calls s' fresh att found in
    ground arith
