-- ===== src/Db.antt =====
-- The PostgreSQL database behind the repositories: its tables, newest row first, and the monad of
-- a request handler, which reads and writes them and may throw. The constraints that the tables
-- enforce are those of backend/src/database/migrations.
use messageries.Base.{
  Bool, List, Option, String, [], arith, if◌then◌else◌, inl, inr, none, refl, some, ℕ, ◌≡◌, ◌⊎◌,
}
use messageries.Base.Text.{Text}
use messageries.Entities.Accounts.{AuditLog, Order, RefreshToken, User}
use messageries.Entities.Chat.{
  Conversation, ConversationParticipant, EmailNotification, Message, MessageReceipt, MessageReport,
  OutboxEvent,
}
use messageries.Entities.Files.{Attachment}
use messageries.Entities.Mls.{MlsGroup, MlsKeyPackage, MlsMessage}

-- The events that the WebSocket server sends to the room of a conversation.
pub data Emission : Type 0 where
  created_event :
      (id conversation_id sender_id sequence : ℕ) (body : Text) (created_at : ℕ) → Emission
  deleted_event : (id conversation_id sequence : ℕ) → Emission
  read_event : (conversation_id user_id upto_sequence : ℕ) → Emission
  typing_event : (conversation_id user_id : ℕ) (is_typing : Bool) → Emission

-- Two fields are no tables: `emitted` is what the WebSocket server has sent, and `mailed` the
-- (message, user) pairs that the mail server has taken, the last one first in both.
pub record Db : Type 0 where
  pub users : List User
  pub orders : List Order
  pub conversations : List Conversation
  pub participants : List ConversationParticipant
  pub messages : List Message
  pub receipts : List MessageReceipt
  pub outbox : List OutboxEvent
  pub audit_log : List AuditLog
  pub refresh_tokens : List RefreshToken
  pub reports : List MessageReport
  pub emails : List EmailNotification
  pub key_packages : List MlsKeyPackage
  pub groups : List MlsGroup
  pub mls_messages : List MlsMessage
  pub attachments : List Attachment
  pub emitted : List Emission
  pub mailed : List (ℕ × ℕ)

abbrev pub empty_db : Db
empty_db = record {
  users = [];
  orders = [];
  conversations = [];
  participants = [];
  messages = [];
  receipts = [];
  outbox = [];
  audit_log = [];
  refresh_tokens = [];
  reports = [];
  emails = [];
  key_packages = [];
  groups = [];
  mls_messages = [];
  attachments = [];
  emitted = [];
  mailed = [];
}

-- The HTTP exceptions of NestJS with their messages, the driver's unique violation (23505), its
-- refusal of a statement in a transaction that has failed (25P02), and any other error.
pub data Error : Type 0 where
  bad_request unauthorized forbidden not_found conflict : String → Error
  unique_violation in_failed_transaction internal : Error

pub data Result (A : Type 0) : Type 0 where
  ok : A → Result A
  err : Error → Result A

abbrev pub Action : Type 0 → Type 0
Action A = Db → Result A × Db

module _ {A : Type 0} where
  abbrev pub pure : A → Action A
  pure a s = (ok a, s)

  abbrev pub throw : Error → Action A
  throw e s = (err e, s)

  abbrev pub gets : (Db → A) → Action A
  gets f s = (ok (f s), s)

  -- `if (!x) throw e`
  abbrev pub or_throw : Option A → Error → Action A
  or_throw none e = throw e
  or_throw (some a) e = pure a

infixl 5 ◌>>=◌ ◌>>◌
abbrev pub ◌>>=◌ : {A B : Type 0} → Action A → (A → Action B) → Action B
◌>>=◌ m f s = let (r, s') = m s in elim r [ ok a ↦ f a s' | err e ↦ throw e s' ]

abbrev pub ◌>>◌ : {B : Type 0} → Action (Unit {0}) → Action B → Action B
m >> k = m >>= λ _. k

abbrev pub throw_if : Bool → Error → Action (Unit {0})
throw_if c e s = (if c then err e else ok tt, s)

-- `if (c) await a`
abbrev pub when : Bool → Action (Unit {0}) → Action (Unit {0})
when c a = if c then a else pure tt

abbrev pub modify : (Db → Db) → Action (Unit {0})
modify f s = (ok tt, f s)

-- `dataSource.transaction`: what the body wrote is undone if it throws, but for the audit log, the
-- refresh tokens and the e-mails, which are written over connections of their own, and what was
-- sent.
unfoldable pub transaction : {A : Type 0} → Action A → Action A
transaction body s =
    let (r, s') = body s in
    elim r [
      | ok a ↦ (ok a, s')
      | err e ↦ (
        err e,
        record s {
          audit_log = s'.audit_log;
          refresh_tokens = s'.refresh_tokens;
          emails = s'.emails;
          emitted = s'.emitted;
          mailed = s'.mailed;
        },
      )
    ]

-- What one call takes from outside: the time, the identifiers that the database generates in it,
-- and whether an audit row can be written.
pub record Env : Type 0 where
  pub now : ℕ
  pub uuid : ℕ → ℕ
  pub audit_up : Bool

-- How a call ended.
pub outcome :
    {A : Type 0} (x : Result A × Db)
    → ((a : A) × (s : Db) × (x ≡ (ok a, s))) ⊎ ((e : Error) × (s : Db) × (x ≡ (err e, s)))
outcome (ok a, s) = inl (a, s, refl)
outcome (err e, s) = inr (e, s, refl)

-- A chain goes on after a step that returned, and stops at one that threw.
module _ {A B : Type 0} (m : Action A) (f : A → Action B) (s : Db) {s' : Db} where
  pub >>=-ok : {a : A} → m s ≡ (ok a, s') → (m >>= f) s ≡ f a s'
  >>=-ok h = ground arith

  pub >>=-err : {e : Error} → m s ≡ (err e, s') → (m >>= f) s ≡ (err e, s')
  >>=-err h = ground arith
