-- ===== src/Http/Uploads.antt =====
-- Who may prepare an upload by attachments.controller.ts of backend/src/modules, where the body names the
-- conversation.
use messageries.Base.{Bool-cases, String, any, arith, false, inl, inr, refl, ℕ, ◌≡◌}
use messageries.Attachments.{allowed_mime, is_oversized, presign_upload}
use messageries.Auth.{JwtPayload}
use messageries.Base.Text.{text_eq}
use messageries.Conversations.Activity.{has_active}
use messageries.Db.{Db, Env, Error, bad_request, err}
use messageries.Entities.Accounts.{is_staff}
use messageries.Http.Access.{IsSignedIn, access_refused, authenticate-known, caught}
use messageries.Http.Guards.{App, Credentials, run_guards}
use messageries.Http.Handlers.{attachments_presign}
use messageries.Http.Routes.{PresignDto, guards_of, is_valid, presign_attachment}
use messageries.Http.Serving.{catch_error, failure, handler, respond, serve}

module _ (app : App) (before env : Env) where
  presign_refused :
      (user : JwtPayload) (dto : PresignDto) (s : Db)
      → is_staff user.role ≡ false
      → has_active dto.conversation_id user.sub s ≡ false
      → (e : Error) × (attachments_presign app env dto user s ≡ (err e, s))
  unfolding attachments_presign presign_upload
  presign_refused user dto s not_staff outside =
      let (e, refused) =
        access_refused env user.sub user.role dto.conversation_id s not_staff outside in
      elim (Bool-cases (any (text_eq dto.mime_type) allowed_mime)) [
        | inr unknown_type ↦ (bad_request "Type de fichier non autorisé", ground arith)
        | inl known_type ↦
            elim (Bool-cases (is_oversized app.store app.print_id app.cfg env dto.size_bytes)) [
              | inl oversized ↦ (bad_request "Taille max", ground arith)
              | inr fitting ↦ (e, ground (arith, refused))
            ]
      ]

  -- Whoever is signed in and neither staff nor an active participant of the conversation that the
  -- body names gets an error when preparing an upload for it, and nothing changes: no row is written
  -- and no address is given.
  pub outsider_uploads_nothing :
      (c : Credentials) (user : JwtPayload) (dto : PresignDto) (s : Db)
      → IsSignedIn app before env c user
      → is_staff user.role ≡ false
      → has_active dto.conversation_id user.sub s ≡ false
      → (status : ℕ) × (message : String) × (respond app before env c (presign_attachment dto) s
          ≡ (failure status message, s))
  unfolding respond serve run_guards guards_of handler
  outsider_uploads_nothing c user dto s (token, found, verified) not_staff outside =
      let known = authenticate-known app before env c user s token found verified in
      let (e, refused) = presign_refused user dto s not_staff outside in
      elim (Bool-cases (is_valid app.characters (presign_attachment dto))) [
        | inr malformed ↦
            let (status, message, shown) = caught (bad_request "Bad Request") in
            let ended : respond app before env c (presign_attachment dto) s
                ≡ (catch_error (bad_request "Bad Request"), s) =
              ground arith in
            (status, message, rw (ended, shown) refl)
        | inl valid ↦
            let (status, message, shown) = caught e in
            let ended : respond app before env c (presign_attachment dto) s ≡ (catch_error e, s) =
              ground (arith, refused) in
            (status, message, rw (ended, shown) refl)
      ]
