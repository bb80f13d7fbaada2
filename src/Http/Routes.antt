-- ===== src/Http/Routes.antt =====
-- The routes of the controllers under backend/src/modules, with what a request holds for each: the
-- path parameters as they are written, and the body and the query after class-validator has found
-- their types (numbers are numbers). The lengths that the decorators ask for are checked here.
use messageries.Base.{
  Bool, List, Option, [], any, false, leb, length, none, not, some, true, ℕ, ◌&&◌, ◌∷◌,
}
use messageries.Base.Text.{Text}
use messageries.Entities.Accounts.{UserRole, admin, support}
use messageries.Entities.Mls.{MlsKind, welcome}
use messageries.Moderation.{ResolveAction, report}
use messageries.Orders.{OrderInput}

pub record SendMessageDto : Type 0 where
  pub body : Text
  pub idempotency_key : Option Text

pub record ListMessagesQuery : Type 0 where
  pub after_sequence : Option ℕ
  pub before_sequence : Option ℕ
  pub limit : Option ℕ

pub record ReportDto : Type 0 where
  pub reason : Text
  pub details : Option Text

pub record PresignDto : Type 0 where
  pub conversation_id : ℕ
  pub filename : Text
  pub mime_type : Text
  pub size_bytes : ℕ

pub record PublishDto : Type 0 where
  pub device_id : Text
  pub cipher_suite : Text
  pub key_packages : List Text
  pub ttl_days : Option ℕ

pub record WelcomeDto : Type 0 where
  pub target_user_id : ℕ
  pub ciphertext : Text
  pub sender_device_id : Text

pub record EnableDto : Type 0 where
  pub group_id_mls : Text
  pub cipher_suite : Text
  pub welcome_messages : List WelcomeDto

pub record SendMlsDto : Type 0 where
  pub kind : MlsKind
  pub epoch : Text
  pub ciphertext : Text
  pub sender_device_id : Text
  pub target_user_id : Option ℕ

pub data Route : Type 0 where
  list_conversations : Route
  open_by_order : Text → Route
  get_conversation : Text → Route
  send_message : Text → SendMessageDto → Option Text → Route
  list_of_messages : Text → ListMessagesQuery → Route
  read_messages : Text → ℕ → Route
  remove_message : Text → Text → Route
  report_message : Text → ReportDto → Route
  list_reports : Route
  resolve_report : Text → ResolveAction → Route
  export_mine : Route
  delete_mine : Route
  delete_by_admin : Text → Route
  create_order : OrderInput → Route
  presign_attachment : PresignDto → Route
  finalize_attachment : Text → Route
  download_attachment : Text → Route
  publish_packages : PublishDto → Route
  count_packages : Text → Route
  claim_package : Text → Text → Route
  enable_group : Text → EnableDto → Route
  send_to_group : Text → SendMlsDto → Route
  list_of_group : Text → Option ℕ → Option ℕ → Route

-- What `@UseGuards` and `@Roles` ask for, besides a signed-in user.
pub data Guards : Type 0 where
  signed_in : Guards
  with_roles : List UserRole → Guards
  of_conversation : Text → Guards

unfoldable pub guards_of : Route → Guards
guards_of list_conversations = signed_in
guards_of (open_by_order order) = signed_in
guards_of (get_conversation conv) = of_conversation conv
guards_of (send_message conv dto key) = of_conversation conv
guards_of (list_of_messages conv query) = of_conversation conv
guards_of (read_messages conv upto) = of_conversation conv
guards_of (remove_message conv message) = of_conversation conv
guards_of (report_message message dto) = signed_in
guards_of list_reports = with_roles (support ∷ admin ∷ [])
guards_of (resolve_report report action) = with_roles (support ∷ admin ∷ [])
guards_of export_mine = signed_in
guards_of delete_mine = signed_in
guards_of (delete_by_admin user) = with_roles (admin ∷ [])
guards_of (create_order dto) = with_roles (admin ∷ [])
guards_of (presign_attachment dto) = signed_in
guards_of (finalize_attachment attachment) = signed_in
guards_of (download_attachment attachment) = signed_in
guards_of (publish_packages dto) = signed_in
guards_of (count_packages suite) = signed_in
guards_of (claim_package target suite) = signed_in
guards_of (enable_group conv dto) = of_conversation conv
guards_of (send_to_group conv dto) = of_conversation conv
guards_of (list_of_group conv after limit) = of_conversation conv

-- `@IsIn(['commit', 'application', 'proposal', 'group_info'])`
abbrev is_sendable : MlsKind → Bool
is_sendable welcome = false
is_sendable kind = true

-- `characters` is how class-validator counts the characters of a text.
module _ (characters : Text → ℕ) where
  abbrev within : ℕ → ℕ → Text → Bool
  within least most t = leb least (characters t) && leb (characters t) most

  abbrev within_if : ℕ → Option Text → Bool
  within_if most none = true
  within_if most (some t) = within 0 most t

  -- The decorators of the bodies.
  unfoldable pub is_valid : Route → Bool
  is_valid (send_message conv dto key) = within 1 4000 dto.body && within_if 128 dto.idempotency_key
  is_valid (report_message message dto) = within 3 64 dto.reason && within_if 2000 dto.details
  is_valid (create_order dto) = within 0 64 dto.external_ref && within_if 3 dto.currency
  is_valid (presign_attachment dto) = within 0 255 dto.filename && leb 1 dto.size_bytes
  is_valid (publish_packages dto) =
      within 0 64 dto.device_id
      && within 0 64 dto.cipher_suite
      && leb 1 (length dto.key_packages)
      && leb (length dto.key_packages) 100
      && (elim dto.ttl_days [ none ↦ true | some days ↦ leb 1 days ])
  is_valid (enable_group conv dto) =
      within 0 64 dto.cipher_suite
      && leb 1 (length dto.welcome_messages)
      && not (any (λ w. not (within 0 64 w.sender_device_id)) dto.welcome_messages)
  is_valid (send_to_group conv dto) = is_sendable dto.kind && within 0 64 dto.sender_device_id
  is_valid route = true
