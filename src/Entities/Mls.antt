-- ===== src/Entities/Mls.antt =====
-- backend/src/modules/e2ee/entities.
use messageries.Base.{ℕ, Bool, true, false, Option, List}
use messageries.Base.Text.{Text}

pub record MlsKeyPackage : Type 0 where
  pub id : ℕ
  pub user_id : ℕ
  pub device_id : Text
  pub cipher_suite : Text
  pub key_package : List ℕ
  pub consumed_at : Option ℕ
  pub consumed_by : Option ℕ
  pub expires_at : ℕ
  pub created_at : ℕ

pub record MlsGroup : Type 0 where
  pub id : ℕ
  pub conversation_id : ℕ
  pub group_id_mls : List ℕ
  pub cipher_suite : Text
  pub epoch : ℕ
  pub created_by : ℕ
  pub created_at : ℕ

pub data MlsKind : Type 0 where
  welcome commit application proposal group_info : MlsKind

-- `kind === 'commit'`
abbrev pub is_commit : MlsKind → Bool
is_commit welcome = false
is_commit commit = true
is_commit application = false
is_commit proposal = false
is_commit group_info = false

pub record MlsMessage : Type 0 where
  pub id : ℕ
  pub group_id : ℕ
  pub sender_user_id : Option ℕ
  pub sender_device_id : Option Text
  pub kind : MlsKind
  pub epoch : ℕ
  pub sequence : ℕ
  pub target_user_id : Option ℕ
  pub ciphertext : List ℕ
  pub created_at : ℕ
