-- ===== src/Entities/Files.antt =====
-- backend/src/modules/attachments/entities.
use messageries.Base.{ℕ, Bool, true, false, Option}
use messageries.Base.Text.{Text}

pub data ScanStatus : Type 0 where
  pending clean infected failed : ScanStatus

-- `scanStatus === 'clean'`
abbrev pub is_clean : ScanStatus → Bool
is_clean pending = false
is_clean clean = true
is_clean infected = false
is_clean failed = false

pub record Attachment : Type 0 where
  pub id : ℕ
  pub message_id : Option ℕ
  pub conversation_id : ℕ
  pub uploader_id : ℕ
  pub object_key : Text
  pub original_filename : Text
  pub mime_type : Text
  pub size_bytes : ℕ
  pub sha256 : Option Text
  pub scan_status : ScanStatus
  pub created_at : ℕ
