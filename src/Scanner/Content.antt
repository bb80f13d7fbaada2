-- ===== src/Scanner/Content.antt =====
-- backend/src/modules/moderation/content-scanner.service.ts: what is masked in a text before it is
-- stored.
use mathlib.Core.List.{reverse}
use messageries.Base.{
  Bool, List, Option, String, [], false, filter, if◌then◌else◌, leb, length, ltb, min, none, not,
  some, ℕ, ◌%◌, ◌&&◌, ◌*◌, ◌++◌, ◌+◌, ◌-◌, ◌==◌, ◌||◌, ◌∷◌,
}
use messageries.Base.Text.{Text, codes, is_space}
use messageries.Scanner.{ScanResult}
use messageries.Scanner.Regex.{
  Regex, boundary, chain, either, is_digit, is_letter, is_word, many, repeat, replace_all,
  unit_where,
}

abbrev pub digit : Regex
digit = unit_where is_digit

abbrev unit : ℕ → Regex
unit c = unit_where (λ x. x == c)

abbrev pub maybe : Regex → Regex
maybe r = repeat 0 1 r

abbrev letter_or_digit : ℕ → Bool
letter_or_digit c = is_letter c || is_digit c

-- `\b(?:\d[ -]?){13,19}\b`
abbrev pub pan_pattern : Regex
pan_pattern =
    chain boundary
      (chain (repeat 13 6 (chain digit (maybe (unit_where (λ c. c == 32 || c == 45))))) boundary)

-- `\b[A-Z]{2}\d{2}[A-Z0-9]{10,30}\b`
abbrev pub iban_pattern : Regex
iban_pattern = chain boundary (
    chain (repeat 2 0 (unit_where is_letter))
      (chain (repeat 2 0 digit) (chain (repeat 10 20 (unit_where letter_or_digit)) boundary)))

-- A letter in either case.
abbrev letter : ℕ → Regex
letter c = unit_where (λ x. x == c || x == c + 32)

-- `\b(cvv|cvc|cv2)\s*[:=]?\s*(\d{3,4})\b`
abbrev pub cvv_pattern : Regex
cvv_pattern = chain boundary (
    chain
      (either (chain (letter 67) (chain (letter 86) (letter 86))) (
        either (chain (letter 67) (chain (letter 86) (letter 67)))
          (chain (letter 67) (chain (letter 86) (unit 50)))))
      (chain (many 0 (unit_where is_space)) (
        chain (maybe (unit_where (λ c. c == 58 || c == 61)))
          (chain (many 0 (unit_where is_space)) (chain (repeat 3 1 digit) boundary)))))

-- `[\w.+-]+@[\w-]+\.[\w.-]+`
abbrev pub email_pattern : Regex
email_pattern = chain (many 1 (unit_where (λ c. is_word c || c == 46 || c == 43 || c == 45))) (
    chain (unit 64) (
      chain (many 1 (unit_where (λ c. is_word c || c == 45)))
        (chain (unit 46) (many 1 (unit_where (λ c. is_word c || c == 46 || c == 45))))))

abbrev separator : Regex
separator = unit_where (λ c. c == 32 || c == 46 || c == 45)

-- `\b(?:\+?\d{1,3}[ .-]?)?(?:\(?\d{2,4}\)?[ .-]?){2,5}\d{2,4}\b`
abbrev pub phone_pattern : Regex
phone_pattern = chain boundary (
    chain (maybe (chain (maybe (unit 43)) (chain (repeat 1 2 digit) (maybe separator)))) (
      chain
        (repeat 2 3 (
          chain (maybe (unit 40))
            (chain (repeat 2 2 digit) (chain (maybe (unit 41)) (maybe separator)))))
        (chain (repeat 2 2 digit) boundary)))

-- `m.replace(/\D/g, '')`
abbrev pub digits_of : Text → Text
digits_of m = filter is_digit m

-- Of the digits from the last one on, every second is doubled.
unfoldable pub luhn_sum : Bool → Text → ℕ
luhn_sum alt [] = 0
luhn_sum alt (c ∷ t) =
    let n = c - 48 in
    let doubled = if ltb 9 (n * 2) then n * 2 - 9 else n * 2 in
    (if alt then doubled else n) + luhn_sum (not alt) t

unfoldable pub luhn : Text → Bool
luhn num = luhn_sum false (reverse num) % 10 == 0

unfoldable pub redact_pan : Text → Option Text
redact_pan m =
    let digits = digits_of m in
    if ltb (length digits) 13 || ltb 19 (length digits)
    then none
    else if luhn digits
    then some (codes "[REDACTED_PAN]")
    else none

unfoldable pub redact_phone : Text → Option Text
redact_phone m =
    let n = length (digits_of m) in
    if leb 8 n && leb n 15 then some (codes "[REDACTED_PHONE]") else none

abbrev flag_if : Bool × Text → String → List String
flag_if r flag = if r.0 then flag ∷ [] else []

-- The flags come in the order of the passes, each once; the score is in tenths.
unfoldable pub scan_content : Text → ScanResult
scan_content input =
    let pan = replace_all pan_pattern redact_pan input in
    let iban = replace_all iban_pattern (λ m. some (codes "[REDACTED_IBAN]")) pan.1 in
    let cvv = replace_all cvv_pattern (λ m. some (codes "[REDACTED_CVV]")) iban.1 in
    let email = replace_all email_pattern (λ m. some (codes "[REDACTED_EMAIL]")) cvv.1 in
    let phone = replace_all phone_pattern redact_phone email.1 in
    let flags =
      flag_if pan "pan"
      ++ flag_if iban "iban"
      ++ flag_if cvv "cvv"
      ++ flag_if email "email"
      ++ flag_if phone "phone" in
    record {
      cleaned = phone.1;
      flags = flags;
      score = min 10 (length flags * 3);
      had_sensitive = ltb 0 (length flags);
    }
