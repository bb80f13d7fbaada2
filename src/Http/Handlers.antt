-- ===== src/Http/Handlers.antt =====
-- The methods of the controllers under backend/src/modules, after the guards.
use messageries.Base.{List, Option, if◌then◌else◌, is_some, map, none, some, ℕ}
use messageries.Attachments.{
  DownloadUrl, PresignedUpload, finalize, get_download_url, presign_upload,
}
use messageries.Auth.{JwtPayload}
use messageries.Base.Text.{Text}
use messageries.Conversations.{Granted, list_participants}
use messageries.Db.{Action, Env, err, gets, internal, ok, or_throw, pure, throw, ◌>>=◌, ◌>>◌}
use messageries.E2ee.{
  WelcomeMessage, claim_key_package, enable_e2ee, list_mls_messages, publish_key_packages,
  send_mls_message,
}
use messageries.Entities.Accounts.{Order, UserRole}
use messageries.Entities.Chat.{Conversation, ConversationParticipant, MessageReport}
use messageries.Entities.Files.{Attachment}
use messageries.Entities.Mls.{MlsKind, MlsMessage}
use messageries.Http.Guards.{App}
use messageries.Http.Routes.{
  EnableDto, ListMessagesQuery, PresignDto, PublishDto, ReportDto, SendMessageDto, SendMlsDto,
  WelcomeDto,
}
use messageries.Http.Uuid.{transform}
use messageries.Messages.Decryption.{DecryptedMessage}
use messageries.Messages.Listing.{list_messages}
use messageries.Messages.Reading.{mark_read, soft_delete}
use messageries.Messages.Sending.{send}
use messageries.Moderation.{ResolveAction, report, resolve}
use messageries.Privacy.{UserExport, anonymize_user}

pub record MlsView : Type 0 where
  pub id : ℕ
  pub kind : MlsKind
  pub epoch : ℕ
  pub sequence : ℕ
  pub sender_device_id : Option Text
  pub target_user_id : Option ℕ
  pub ciphertext : Text
  pub created_at : ℕ

pub data Answer : Type 0 where
  no_content : Answer
  conversations_answer : List Conversation → Answer
  conversation_answer : Conversation → Answer
  detail_answer : Conversation → List ConversationParticipant → UserRole → Answer
  message_answer : DecryptedMessage → Answer
  messages_answer : List DecryptedMessage → Answer
  report_answer : MessageReport → Answer
  reports_answer : List MessageReport → Answer
  export_answer : UserExport → Answer
  order_answer : Order → Answer
  upload_answer : PresignedUpload → Answer
  attachment_answer : Attachment → Answer
  download_answer : DownloadUrl → Answer
  count_answer : ℕ → Answer
  claimed_answer : ℕ → Text → Text → Answer
  group_answer : ℕ → Answer
  mls_sent_answer : ℕ → ℕ → Answer
  mls_answer : List MlsView → Answer

abbrev pub default_conversations : ℕ
default_conversations = 30

abbrev pub default_reports : ℕ
default_reports = 50

module _ (app : App) (env : Env) where
  -- `@Param(…, UuidPipe)`, and the identifier that the queries make of it.
  unfoldable pub id_param : Text → Action ℕ
  id_param value = elim (transform value) [
    | err e ↦ throw e
    | ok id ↦ or_throw (app.read_id id) internal
  ]

  unfoldable pub get_one : Option Granted → Action Answer
  get_one none = throw internal
  get_one (some g) =
      gets (λ s.
        detail_answer g.conversation (list_participants g.conversation.id s) g.participant_role)

  unfoldable pub messages_send : Text → SendMessageDto → Option Text → JwtPayload → Action Answer
  messages_send conv dto header_key user = do
    id ← id_param conv
    m ← send app.cipher app.scanner app.cfg env (record {
      conversation_id = id;
      sender_id = user.sub;
      body = dto.body;
      idempotency_key = if is_some dto.idempotency_key then dto.idempotency_key else header_key;
    })
    pure (message_answer m)

  unfoldable pub messages_list : Text → ListMessagesQuery → Action Answer
  messages_list conv query = do
    id ← id_param conv
    ms ← list_messages app.cipher app.zero_is_none (record {
      conversation_id = id;
      after_sequence = query.after_sequence;
      before_sequence = query.before_sequence;
      limit = query.limit;
    })
    pure (messages_answer ms)

  unfoldable pub messages_read : Text → ℕ → JwtPayload → Action Answer
  messages_read conv upto user = do
    id ← id_param conv
    mark_read app.cfg env id user.sub upto
    pure no_content

  -- The conversation of the path is looked at by the guard alone.
  unfoldable pub messages_remove : Text → JwtPayload → Action Answer
  messages_remove message user = do
    id ← id_param message
    soft_delete app.cfg env id user.sub
    pure no_content

  unfoldable pub moderation_report : Text → ReportDto → JwtPayload → Action Answer
  moderation_report message dto user = do
    id ← id_param message
    r ← report env (record {
      message_id = id;
      reporter_id = user.sub;
      reason = dto.reason;
      details = dto.details;
    })
    pure (report_answer r)

  unfoldable pub moderation_resolve : Text → ResolveAction → JwtPayload → Action Answer
  moderation_resolve report_id action user = do
    id ← id_param report_id
    r ← resolve env (record { report_id = id; moderator_id = user.sub; action = action })
    pure (report_answer r)

  unfoldable pub privacy_delete : ℕ → JwtPayload → Action Answer
  privacy_delete user_id user = do
    anonymize_user app.crypt app.print_id app.hash app.cfg env user_id user.sub
    pure no_content

  unfoldable pub attachments_presign : PresignDto → JwtPayload → Action Answer
  attachments_presign dto user = do
    p ← presign_upload app.store app.print_id app.cfg env (record {
      user_id = user.sub;
      user_role = user.role;
      conversation_id = dto.conversation_id;
      filename = dto.filename;
      mime_type = dto.mime_type;
      size_bytes = dto.size_bytes;
    })
    pure (upload_answer p)

  unfoldable pub attachments_finalize : Text → JwtPayload → Action Answer
  attachments_finalize attachment user = do
    id ← id_param attachment
    att ← finalize app.store app.print_id app.cfg env id user.sub
    pure (attachment_answer att)

  unfoldable pub attachments_download : Text → JwtPayload → Action Answer
  attachments_download attachment user = do
    id ← id_param attachment
    d ←
        get_download_url app.store app.print_id app.cfg env
          (record { attachment_id = id; user_id = user.sub; user_role = user.role })
    pure (download_answer d)

  unfoldable pub packages_publish : PublishDto → JwtPayload → Action Answer
  packages_publish dto user = do
    n ← publish_key_packages env (record {
      user_id = user.sub;
      device_id = dto.device_id;
      cipher_suite = dto.cipher_suite;
      key_packages = map app.from_base64 dto.key_packages;
      ttl_days = dto.ttl_days;
    })
    pure (count_answer n)

  unfoldable pub packages_claim : Text → Text → JwtPayload → Action Answer
  packages_claim target suite user = do
    id ← id_param target
    c ← claim_key_package env id user.sub suite
    pure (claimed_answer c.key_package_id c.device_id (app.to_base64 c.key_package))

  abbrev pub welcome_of : WelcomeDto → WelcomeMessage
  welcome_of w = record {
    target_user_id = w.target_user_id;
    ciphertext = app.from_base64 w.ciphertext;
    sender_device_id = w.sender_device_id;
  }

  unfoldable pub groups_enable : Text → EnableDto → JwtPayload → Action Answer
  groups_enable conv dto user = do
    id ← id_param conv
    g ← enable_e2ee env (record {
      conversation_id = id;
      actor_id = user.sub;
      actor_role = user.role;
      group_id_mls = app.from_base64 dto.group_id_mls;
      cipher_suite = dto.cipher_suite;
      welcome_messages = map welcome_of dto.welcome_messages;
    })
    pure (group_answer g)

  unfoldable pub groups_send : Text → SendMlsDto → JwtPayload → Action Answer
  groups_send conv dto user = do
    id ← id_param conv
    sent_as ← send_mls_message env (record {
      conversation_id = id;
      sender_id = user.sub;
      sender_role = user.role;
      sender_device_id = dto.sender_device_id;
      kind = dto.kind;
      epoch = app.read_number dto.epoch;
      ciphertext = app.from_base64 dto.ciphertext;
      target_user_id = dto.target_user_id;
    })
    pure (mls_sent_answer sent_as.0 sent_as.1)

  abbrev pub mls_view : MlsMessage → MlsView
  mls_view m = record {
    id = m.id;
    kind = m.kind;
    epoch = m.epoch;
    sequence = m.sequence;
    sender_device_id = m.sender_device_id;
    target_user_id = m.target_user_id;
    ciphertext = app.to_base64 m.ciphertext;
    created_at = m.created_at;
  }

  unfoldable pub groups_list : Text → Option ℕ → Option ℕ → JwtPayload → Action Answer
  groups_list conv after limit user = do
    id ← id_param conv
    ms ← list_mls_messages env app.zero_is_none (record {
      conversation_id = id;
      user_id = user.sub;
      user_role = user.role;
      after_sequence = after;
      limit = limit;
    })
    pure (mls_answer (map mls_view ms))
