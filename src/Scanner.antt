-- ===== src/Scanner.antt =====
-- backend/src/modules/moderation/content-scanner.service.ts: the interface that the message service takes,
-- the result of a scan and the law that the service relies on.
pub mod Regex
pub mod Content
pub mod Untouched
pub mod Cards
use messageries.Base.{Bool, List, String, [], false, not, true, ℕ, ◌∷◌, ◌≡◌}
use messageries.Base.Text.{Text}

-- `score` is in tenths.
pub record ScanResult : Type 0 where
  pub cleaned : Text
  pub flags : List String
  pub score : ℕ
  pub had_sensitive : Bool

abbrev pub is_empty {ℓ} : {A : Type ℓ} → List A → Bool
is_empty [] = true
is_empty (_ ∷ _) = false

pub record Scanner : Type 0 where
  pub scan : Text → ScanResult
  pub sensitive_iff_flagged : (t : Text) → (scan t).had_sensitive ≡ not (is_empty (scan t).flags)
