-- ===== src/Scanner/Cards.antt =====
-- Card numbers in `scan` of backend/src/modules/moderation/content-scanner.service.ts.
use mathlib.Core.Option
use mathlib.Core.List.{append-nil, append_assoc}
use messageries.Base.{
  All, List, Option, [], ap, arith, false, find, length, ltb, none, not, refl, some, some_inj,
  subst, suc, sym, true, zero, ℕ, ◌++◌, ◌+◌, ◌-◌, ◌==◌, ◌||◌, ◌∷◌, ◌≡◌, ◌≤◌,
}
use messageries.Base.Text.{Text, codes}
use messageries.Scanner.{is_empty}
use messageries.Scanner.Content.{
  cvv_pattern, digit, digits_of, email_pattern, iban_pattern, luhn, maybe, pan_pattern,
  phone_pattern, redact_pan, redact_phone, scan_content,
}
use messageries.Scanner.Regex.{
  Cursor, Regex, bind, boundary, chain, is_digit, is_word, is_word_at, iterate, match_at, matches,
  replace_all, replace_from, unit_where,
}
use messageries.Scanner.Regex.Absence.{replace_from-Free}
use messageries.Scanner.Untouched.{
  content_scanner, cvv-Needs, email-Needs, iban-Needs, is_marker, phone-Needs,
}

abbrev first_cursor : List Cursor → Option Cursor
first_cursor [] = none
first_cursor (c ∷ cs) = some c

abbrev AreDigits : Text → Type 0
AreDigits t = All (λ c. is_digit c ≡ true) t

-- One turn of the pattern of cards: a digit, and a separator.
abbrev turn : Regex
turn = chain digit (maybe (unit_where (λ c. c == 32 || c == 45)))

abbrev last_of : Option ℕ → Text → Option ℕ
last_of before [] = before
last_of before (x ∷ t) = last_of (some x) t

abbrev place : Option ℕ → Text → Text → Cursor
place before taken rest = record { before = before; taken = taken; rest = rest }

-- At a digit that no separator follows a turn takes the digit.
turn-digit :
    (before : Option ℕ) (taken : Text) (x : ℕ) (t : Text)
    → is_digit x ≡ true
    → AreDigits t
    → matches turn (place before taken (x ∷ t)) ≡ place (some x) (taken ++ x ∷ []) t ∷ []
unfolding matches
turn-digit before taken x [] h a = rw h refl
turn-digit before taken x (y ∷ t) h (next_digit, a) =
    let no_separator : (y == 32 || y == 45) ≡ false = ground arith in rw (h, no_separator) refl

turn-end : (before : Option ℕ) (taken : Text) → matches turn (place before taken []) ≡ []
unfolding matches
turn-end before taken = refl

first-find :
    (cs : List Cursor) (x : ℕ) (t : Text) {b : Option ℕ}
    → first_cursor cs ≡ some (place b (x ∷ t) [])
    → Option.map (λ c. c.taken) (find (λ c. not (is_empty c.taken)) cs) ≡ some (x ∷ t)
first-find [] x t h = absurd (ground arith)
first-find (c ∷ cs) x t {b} h =
    let same : c.taken ≡ x ∷ t = ap (λ y. y.taken) (some_inj c (place b (x ∷ t) []) h) in
    rw same refl

first-append :
    (cs ds : List Cursor) (c : Cursor) → first_cursor cs ≡ some c → first_cursor (cs ++ ds) ≡ some c
first-append [] ds c h = absurd (ground arith)
first-append (d ∷ cs) ds c h = h

first-bind :
    (f : Cursor → List Cursor) (cs : List Cursor) (c : Cursor)
    → first_cursor cs ≡ some c
    → f c ≡ c ∷ []
    → first_cursor (bind f cs) ≡ some c
first-bind f [] c h e = absurd (ground arith)
first-bind f (d ∷ cs) c h e =
    let same : d ≡ c = some_inj d c h in
    first-append (f d) (bind f cs) c
      (subst (λ y. first_cursor (f y) ≡ some c) (sym same) (rw e refl))

-- The first end of the repetition is that of all the digits.
iterate-digits :
    (least more : ℕ) (before : Option ℕ) (taken t : Text)
    → AreDigits t
    → least ≤ length t
    → length t ≤ least + more
    → first_cursor (iterate (matches turn) least more (place before taken t))
      ≡ some (place (last_of before t) (taken ++ t) [])
iterate-digits zero zero before taken [] a low high =
    ap (λ k. some (place before k [])) (sym (append-nil taken))
iterate-digits zero (suc more) before taken [] a low high =
    rw (turn-end before taken) (ap (λ k. some (place before k [])) (sym (append-nil taken)))
iterate-digits (suc least) more before taken [] a low high = absurd (ground arith)
iterate-digits zero zero before taken (x ∷ t) a low high = absurd (ground arith)
iterate-digits zero (suc more) before taken (x ∷ t) (h, a) low high =
    let ih = iterate-digits zero more (some x) (taken ++ x ∷ []) t a (omega arith) (omega arith) in
    let moved =
      subst
        (λ k.
          first_cursor (iterate (matches turn) zero more (place (some x) (taken ++ x ∷ []) t))
          ≡ some (place (last_of (some x) t) k []))
        (append_assoc taken (x ∷ []) t) ih in
    rw (turn-digit before taken x t h a) (
      first-append (iterate (matches turn) zero more (place (some x) (taken ++ x ∷ []) t) ++ [])
        (place before taken (x ∷ t) ∷ []) _ (first-append _ [] _ moved))
iterate-digits (suc least) more before taken (x ∷ t) (h, a) low high =
    let ih = iterate-digits least more (some x) (taken ++ x ∷ []) t a (omega arith) (omega arith) in
    let moved =
      subst
        (λ k.
          first_cursor (iterate (matches turn) least more (place (some x) (taken ++ x ∷ []) t))
          ≡ some (place (last_of (some x) t) k []))
        (append_assoc taken (x ∷ []) t) ih in
    rw (turn-digit before taken x t h a) (first-append _ [] _ moved)

-- The whole pattern takes a text of 13 to 19 digits first.
last_of-digit :
    (x : ℕ) (t : Text) → is_digit x ≡ true → AreDigits t → is_word_at (last_of (some x) t) ≡ true
last_of-digit x [] h a = ground arith
last_of-digit x (y ∷ t) h (g, a) = last_of-digit y t g a

pan-first :
    (x : ℕ) (t : Text)
    → AreDigits (x ∷ t)
    → 13 ≤ length (x ∷ t)
    → length (x ∷ t) ≤ 19
    → first_cursor (matches pan_pattern (place none [] (x ∷ t)))
      ≡ some (place (last_of none (x ∷ t)) (x ∷ t) [])
unfolding matches
pan-first x t (h, a) low high =
    let taken = iterate-digits 13 6 none [] (x ∷ t) (h, a) low high in
    let word : is_word x ≡ true = ground arith in
    let full = place (last_of (some x) t) (x ∷ t) [] in
    let ends : matches boundary full ≡ full ∷ [] = rw (last_of-digit x t h a) refl in
    rw word (
      first-append _ [] full (
        first-bind (matches boundary) (iterate (matches turn) 13 6 (place none [] (x ∷ t))) full
          taken ends))

match_at-first :
    (r : Regex) (x : ℕ) (t : Text)
    → first_cursor (matches r (place none [] (x ∷ t)))
      ≡ some (place (last_of none (x ∷ t)) (x ∷ t) [])
    → match_at r none (x ∷ t) ≡ some (x ∷ t)
unfolding match_at
match_at-first r x t h = first-find (matches r (place none [] (x ∷ t))) x t h

passed_over :
    (r : Regex) (f : Text → Option Text) (before : Option ℕ) (t : Text)
    → replace_from r f (length t) before t ≡ (false, [])
unfolding replace_from
passed_over r f before [] = refl
passed_over r f before (x ∷ t) = passed_over r f (some x) t

all_digits : (t : Text) → AreDigits t → digits_of t ≡ t
all_digits [] a = refl
all_digits (x ∷ t) (h, a) = rw (h, all_digits t a) refl

redact_pan-card :
    (t : Text)
    → AreDigits t
    → 13 ≤ length t
    → length t ≤ 19
    → luhn t ≡ true
    → redact_pan t ≡ some (codes "[REDACTED_PAN]")
unfolding redact_pan
redact_pan-card t a low high valid =
    let few : ltb (length t) 13 ≡ false = ground arith in
    let lots : ltb 19 (length t) ≡ false = ground arith in
    rw (all_digits t a, few, lots, valid) refl

replaced_card :
    (x : ℕ) (t : Text)
    → AreDigits (x ∷ t)
    → 13 ≤ length (x ∷ t)
    → length (x ∷ t) ≤ 19
    → luhn (x ∷ t) ≡ true
    → replace_from pan_pattern redact_pan 0 none (x ∷ t) ≡ (true, codes "[REDACTED_PAN]")
unfolding replace_from
replaced_card x t a low high valid =
    let found = match_at-first pan_pattern x t (pan-first x t a low high) in
    let masked = redact_pan-card (x ∷ t) a low high valid in
    let passed = passed_over pan_pattern redact_pan (some x) t in
    let less : length (x ∷ t) - 1 ≡ length t = omega arith in
    rw (found, replace_from, masked, less, passed) refl

-- A text that is a card number and nothing else: 13 to 19 digits that pass the check of Luhn. It is
-- masked as a whole and flagged, and the passes that follow leave the mask alone.
pub card_masked :
    (t : Text)
    → AreDigits t
    → 13 ≤ length t
    → length t ≤ 19
    → luhn t ≡ true
    → content_scanner.scan t ≡ record {
      cleaned = codes "[REDACTED_PAN]";
      flags = "pan" ∷ [];
      score = 3;
      had_sensitive = true;
    }
unfolding scan_content
card_masked [] a low high valid = absurd (ground arith)
card_masked (x ∷ t) a low high valid =
    let masked = codes "[REDACTED_PAN]" in
    let replaced : replace_all pan_pattern redact_pan (x ∷ t) ≡ (true, masked) =
      replaced_card x t a low high valid in
    let free : All (λ c. is_marker c ≡ false) masked = ground arith in
    rw
      (
        replaced,
        replace_from-Free is_marker iban_pattern (λ m. some (codes "[REDACTED_IBAN]")) iban-Needs
            none masked free,
        replace_from-Free is_marker cvv_pattern (λ m. some (codes "[REDACTED_CVV]")) cvv-Needs none
            masked free,
        replace_from-Free is_marker email_pattern (λ m. some (codes "[REDACTED_EMAIL]")) email-Needs
            none masked free,
        replace_from-Free is_marker phone_pattern redact_phone phone-Needs none masked free,
      )
      refl
