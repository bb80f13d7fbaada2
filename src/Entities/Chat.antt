-- ===== src/Entities/Chat.antt =====
-- backend/src/modules/{conversations,messages,moderation,notifications}/entities.
use messageries.Base.{ℕ, String, Bool, true, false, Option, List}
use messageries.Base.Text.{Text}
use messageries.Entities.Accounts.{UserRole}

pub data ConversationStatus : Type 0 where
  open_conv closed_conv archived_conv : ConversationStatus

abbrev pub is_open : ConversationStatus → Bool
is_open open_conv = true
is_open closed_conv = false
is_open archived_conv = false

pub record Conversation : Type 0 where
  pub id : ℕ
  pub order_id : ℕ
  pub status : ConversationStatus
  pub subject : Option Text
  pub last_message_at : Option ℕ
  pub last_sequence : ℕ
  pub created_at : ℕ
  pub updated_at : ℕ
  pub search_indexed : Bool
  pub search_indexed_at : Option ℕ
  pub e2ee_enabled : Bool
  pub e2ee_enabled_at : Option ℕ

-- `ParticipantRole` of the source has the same four values as `UserRole`.
abbrev pub ParticipantRole : Type 0
ParticipantRole = UserRole

pub record ConversationParticipant : Type 0 where
  pub conversation_id : ℕ
  pub user_id : ℕ
  pub role : ParticipantRole
  pub joined_at : ℕ
  pub left_at : Option ℕ
  pub muted : Bool
  pub last_read_sequence : ℕ

pub data MessageStatus : Type 0 where
  sent deleted hidden flagged : MessageStatus

pub data BodyFormat : Type 0 where
  plain_text markdown : BodyFormat

-- `moderation_score` is in tenths.
pub record Message : Type 0 where
  pub id : ℕ
  pub conversation_id : ℕ
  pub sender_id : ℕ
  pub sequence : ℕ
  pub body : Option Text
  pub body_ciphertext : Option (List ℕ)
  pub body_dek_id : Option Text
  pub body_alg : Option String
  pub body_iv : Option (List ℕ)
  pub body_tag : Option (List ℕ)
  pub body_format : BodyFormat
  pub status : MessageStatus
  pub idempotency_key : Option Text
  pub moderation_flags : Option (List String)
  pub moderation_score : ℕ
  pub moderated_by : Option ℕ
  pub moderated_at : Option ℕ
  pub created_at : ℕ
  pub edited_at : Option ℕ
  pub deleted_at : Option ℕ

pub record MessageReceipt : Type 0 where
  pub message_id : ℕ
  pub user_id : ℕ
  pub delivered_at : Option ℕ
  pub read_at : Option ℕ

-- The two objects that the services write as `payload`.
pub data Payload : Type 0 where
  message_created :
      (message_id conversation_id sender_id sequence created_at : ℕ) (body : Text)
      → (moderation_flags : Option (List String)) (recipients : List ℕ) → Payload
  message_read : (conversation_id user_id upto_sequence : ℕ) → Payload

-- With the columns that backend/src/database/migrations/1717000000000-Phase2.ts adds for the worker.
pub record OutboxEvent : Type 0 where
  pub id : ℕ
  pub event_type : String
  pub aggregate_id : ℕ
  pub payload : Payload
  pub processed_at : Option ℕ
  pub created_at : ℕ
  pub attempts : ℕ
  pub next_attempt_at : ℕ
  pub last_error : Option Text

pub data ReportStatus : Type 0 where
  open_report reviewed dismissed actioned : ReportStatus

abbrev pub is_open_report : ReportStatus → Bool
is_open_report open_report = true
is_open_report reviewed = false
is_open_report dismissed = false
is_open_report actioned = false

pub record MessageReport : Type 0 where
  pub id : ℕ
  pub message_id : ℕ
  pub reporter_id : ℕ
  pub reason : Text
  pub details : Option Text
  pub status : ReportStatus
  pub resolved_by : Option ℕ
  pub resolved_at : Option ℕ
  pub created_at : ℕ

-- The only `kind` written is `new_message`; its `dedup_key`, `new_message:<message>:<user>`, is the
-- pair of the two identifiers.
pub record EmailNotification : Type 0 where
  pub id : ℕ
  pub user_id : ℕ
  pub conversation_id : Option ℕ
  pub kind : String
  pub sent_at : ℕ
  pub dedup_key : ℕ × ℕ
