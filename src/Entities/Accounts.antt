-- ===== src/Entities/Accounts.antt =====
-- backend/src/modules/{users,orders,auth,audit}/entities.
use messageries.Base.{ℕ, String, Bool, true, false, Option, List}
use messageries.Base.Text.{Text}

pub data UserRole : Type 0 where
  customer seller support admin : UserRole

-- `role === 'support' || role === 'admin'`
abbrev pub is_staff : UserRole → Bool
is_staff customer = false
is_staff seller = false
is_staff support = true
is_staff admin = true

pub record User : Type 0 where
  pub id : ℕ
  pub email : Text
  pub password_hash : Text
  pub role : UserRole
  pub display_name : Option Text
  pub mfa_secret : Option Text
  pub is_suspended : Bool
  pub anonymized_at : Option ℕ
  pub data_export_requested_at : Option ℕ
  pub created_at : ℕ
  pub updated_at : ℕ

pub data OrderStatus : Type 0 where
  open_order shipped delivered cancelled refunded closed_order : OrderStatus

pub record Order : Type 0 where
  pub id : ℕ
  pub external_ref : Text
  pub customer_id : ℕ
  pub seller_id : ℕ
  pub status : OrderStatus
  pub total_cents : ℕ
  pub currency : Text
  pub created_at : ℕ

-- `token_hash` is the number that the hexadecimal digest writes.
pub record RefreshToken : Type 0 where
  pub id : ℕ
  pub user_id : ℕ
  pub token_hash : ℕ
  pub parent_id : Option ℕ
  pub user_agent : Option Text
  pub ip : Option Text
  pub expires_at : ℕ
  pub revoked_at : Option ℕ
  pub revoked_reason : Option String
  pub created_at : ℕ

-- The objects that the services pass as `metadata`.
pub data Metadata : Type 0 where
  no_metadata : Metadata
  conversation_of : (order_id : ℕ) (external_ref : Text) → Metadata
  joined_as : UserRole → Metadata
  redacted : (flags : List String) (score : ℕ) → Metadata
  reported_as : (report_id : ℕ) (reason : Text) → Metadata
  resolved_for : (message_id : ℕ) → Metadata
  group_opened : (cipher_suite : Text) (welcomes : ℕ) → Metadata
  backfilled : ℕ → Metadata

pub record AuditLog : Type 0 where
  pub id : ℕ
  pub actor_id : Option ℕ
  pub action : String
  pub target_type : String
  pub target_id : Option ℕ
  pub ip : Option Text
  pub user_agent : Option Text
  pub metadata : Metadata
  pub created_at : ℕ
