-- ===== src/Tests/Scans.antt =====
-- Runs of the content scanner.
use messageries.Base.{[], arith, false, refl, true, ◌∷◌, ◌≡◌}
use messageries.Base.Text.{codes}
use messageries.Scanner.Cards.{card_masked}
use messageries.Scanner.Content.{luhn, luhn_sum, redact_pan, redact_phone, scan_content}
use messageries.Scanner.Regex.{match_at, matches, replace_from}
use messageries.Scanner.Untouched.{content_scanner}

card : scan_content (codes "card 4111 1111 1111 1111 ok") ≡ record {
  cleaned = codes "card [REDACTED_PAN]ok";
  flags = "pan" ∷ [];
  score = 3;
  had_sensitive = true;
}
unfolding scan_content replace_from match_at matches redact_pan redact_phone luhn luhn_sum
card = refl

mail : scan_content (codes "a.b@c.fr") ≡ record {
  cleaned = codes "[REDACTED_EMAIL]";
  flags = "email" ∷ [];
  score = 3;
  had_sensitive = true;
}
unfolding scan_content replace_from match_at matches redact_pan redact_phone luhn luhn_sum
mail = refl

code : scan_content (codes "CVV : 123") ≡ record {
  cleaned = codes "[REDACTED_CVV]";
  flags = "cvv" ∷ [];
  score = 3;
  had_sensitive = true;
}
unfolding scan_content replace_from match_at matches redact_pan redact_phone luhn luhn_sum
code = refl

phone : scan_content (codes "tel 06 12 34 56 78") ≡ record {
  cleaned = codes "tel [REDACTED_PHONE]";
  flags = "phone" ∷ [];
  score = 3;
  had_sensitive = true;
}
unfolding scan_content replace_from match_at matches redact_pan redact_phone luhn luhn_sum
phone = refl

order :
    scan_content (codes "commande 1234 svp")
    ≡ record { cleaned = codes "commande 1234 svp"; flags = []; score = 0; had_sensitive = false }
unfolding scan_content replace_from match_at matches redact_pan redact_phone luhn luhn_sum
order = refl

card_masked_example : content_scanner.scan (codes "4111111111111111") ≡ record {
  cleaned = codes "[REDACTED_PAN]";
  flags = "pan" ∷ [];
  score = 3;
  had_sensitive = true;
}
unfolding luhn luhn_sum
card_masked_example =
    card_masked (codes "4111111111111111") (ground arith) (omega arith) (omega arith) refl
