-- ===== src/Scanner/Untouched.antt =====
-- `scan` of backend/src/modules/moderation/content-scanner.service.ts as the scanner of the messages,
-- and the texts that it leaves alone.
use messageries.Base.{
  All, Bool, List, String, [], arith, false, length, ltb, none, not, refl, some, true, ℕ, ◌==◌,
  ◌||◌, ◌∷◌, ◌≡◌,
}
use messageries.Base.Text.{Text, codes}
use messageries.Scanner.{Scanner, is_empty}
use messageries.Scanner.Content.{
  cvv_pattern, email_pattern, iban_pattern, pan_pattern, phone_pattern, redact_pan, redact_phone,
  scan_content,
}
use messageries.Scanner.Regex.{is_digit}
use messageries.Scanner.Regex.Absence.{
  Needs, by_left, by_repeat, by_right, by_unit, replace_from-Free,
}

nonempty_lem : (fs : List String) → ltb 0 (length fs) ≡ not (is_empty fs)
nonempty_lem [] = refl
nonempty_lem (f ∷ fs) = ground arith

pub scan_content-flagged :
    (t : Text) → (scan_content t).had_sensitive ≡ not (is_empty (scan_content t).flags)
unfolding scan_content
scan_content-flagged t = nonempty_lem (scan_content t).flags

abbrev pub content_scanner : Scanner
content_scanner = record { scan = scan_content; sensitive_iff_flagged = scan_content-flagged }

-- What every pattern needs: a digit or an at sign.
abbrev pub is_marker : ℕ → Bool
is_marker c = is_digit c || c == 64

digit_marks : (x : ℕ) → is_digit x ≡ true → is_marker x ≡ true
digit_marks x h = ground arith

pan-Needs : Needs is_marker pan_pattern
pan-Needs =
    by_right _ _ (by_left _ _ (by_repeat 12 6 _ (by_left _ _ (by_unit is_digit digit_marks))))

pub iban-Needs : Needs is_marker iban_pattern
iban-Needs =
    by_right _ _ (by_right _ _ (by_left _ _ (by_repeat 1 0 _ (by_unit is_digit digit_marks))))

pub cvv-Needs : Needs is_marker cvv_pattern
cvv-Needs = by_right _ _ (
    by_right _ _ (
      by_right _ _ (
        by_right _ _
          (by_right _ _ (by_left _ _ (by_repeat 2 1 _ (by_unit is_digit digit_marks)))))))

pub email-Needs : Needs is_marker email_pattern
email-Needs = by_right _ _ (by_left _ _ (by_unit (λ x. x == 64) (λ x h. ground arith)))

pub phone-Needs : Needs is_marker phone_pattern
phone-Needs =
    by_right _ _
      (by_right _ _ (by_right _ _ (by_left _ _ (by_repeat 1 2 _ (by_unit is_digit digit_marks)))))

-- A text without a digit and without an at sign is stored as it is, under no flag.
pub unmarked_untouched :
    (t : Text)
    → All (λ c. is_marker c ≡ false) t
    → content_scanner.scan t ≡ record { cleaned = t; flags = []; score = 0; had_sensitive = false }
unfolding scan_content
unmarked_untouched t h =
    rw
      (
        replace_from-Free is_marker pan_pattern redact_pan pan-Needs none t h,
        replace_from-Free is_marker iban_pattern (λ m. some (codes "[REDACTED_IBAN]")) iban-Needs
            none t h,
        replace_from-Free is_marker cvv_pattern (λ m. some (codes "[REDACTED_CVV]")) cvv-Needs none
            t h,
        replace_from-Free is_marker email_pattern (λ m. some (codes "[REDACTED_EMAIL]")) email-Needs
            none t h,
        replace_from-Free is_marker phone_pattern redact_phone phone-Needs none t h,
      )
      refl
