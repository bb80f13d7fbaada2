-- ===== src/Messages/Listing.antt =====
-- `list` of messages.service.ts.
use messageries.Base.{
  Bool, List, Option, filter, if◌then◌else◌, is_none, ltb, min, none, or_default, some, take, ℕ,
  ◌&&◌, ◌==◌,
}
use messageries.Base.Sorting.{sort_asc, sort_desc}
use messageries.Crypto.{BodyCipher}
use messageries.Db.{Action, gets, ◌>>=◌}
use messageries.Entities.Chat.{Message}
use messageries.Messages.Decryption.{DecryptedMessage, decrypt_all}
use messageries.Messages.Rows.{of_conv}

pub record ListParams : Type 0 where
  pub conversation_id : ℕ
  pub after_sequence : Option ℕ
  pub before_sequence : Option ℕ
  pub limit : Option ℕ

-- `Math.min(limit ?? 50, 100)`
abbrev pub page_size : Option ℕ → ℕ
page_size limit = min (or_default limit 50) 100

-- `deleted_at IS NULL`, in the conversation.
abbrev pub is_shown : ℕ → Message → Bool
is_shown conv m = of_conv conv m && is_none m.deleted_at

-- The rows of a page, by the cursor that is given; the one after goes first.
unfoldable pub cursor_rows : ListParams → Option ℕ → Option ℕ → List Message → List Message
cursor_rows params (some after) before ms =
    sort_asc (λ m. m.sequence)
      (filter (λ m. is_shown params.conversation_id m && ltb after m.sequence) ms)
cursor_rows params none (some before) ms =
    sort_desc (λ m. m.sequence)
      (filter (λ m. is_shown params.conversation_id m && ltb m.sequence before) ms)
cursor_rows params none none ms =
    sort_desc (λ m. m.sequence) (filter (is_shown params.conversation_id) ms)

-- `qb.limit(n)`; whether the query builder reads a limit of 0 as no limit is a parameter.
abbrev pub limited {ℓ} : {A : Type ℓ} → Bool → ℕ → List A → List A
limited zero_is_none n xs = if zero_is_none && n == 0 then xs else take n xs

unfoldable pub page : Bool → ListParams → List Message → List Message
unfolding cursor_rows
page zero_is_none params ms =
    limited zero_is_none (page_size params.limit)
      (cursor_rows params params.after_sequence params.before_sequence ms)

unfoldable pub list_messages : BodyCipher → Bool → ListParams → Action (List DecryptedMessage)
unfolding page decrypt_all
list_messages cipher zero_is_none params = do
  rows ← gets (λ s. page zero_is_none params s.messages)
  decrypt_all cipher rows
