-- ===== src/Messages/Rows.antt =====
-- The rows that messages.service.ts selects and builds.
use messageries.Base.{
  Bool, List, Option, false, filter, is_none, is_some, map, none, not, some, true, ℕ, ◌&&◌, ◌==◌,
}
use messageries.Base.Text.{Text, text_eq}
use messageries.Entities.Chat.{ConversationParticipant, Message, MessageReceipt}

-- The two unique keys of the table.
abbrev pub same_place : Message → Message → Bool
same_place m x = x.conversation_id == m.conversation_id && x.sequence == m.sequence

-- A column that is NULL equals nothing.
abbrev pub key_eq : Option Text → Option Text → Bool
key_eq none _ = false
key_eq (some _) none = false
key_eq (some a) (some b) = text_eq a b

abbrev pub same_key : Message → Message → Bool
same_key m x =
    x.conversation_id == m.conversation_id
    && x.sender_id == m.sender_id
    && key_eq x.idempotency_key m.idempotency_key

abbrev pub by_key : ℕ → ℕ → Text → Message → Bool
by_key conv sender key x =
    x.conversation_id == conv && x.sender_id == sender && key_eq x.idempotency_key (some key)

-- `!part || part.leftAt`
abbrev pub has_left : Option ConversationParticipant → Bool
has_left none = true
has_left (some p) = is_some p.left_at

-- `p.userId !== senderId && !p.leftAt`
abbrev pub is_reader : ℕ → ConversationParticipant → Bool
is_reader sender p = not (p.user_id == sender) && is_none p.left_at

abbrev pub receipt_row : ℕ → ConversationParticipant → MessageReceipt
receipt_row message p = record {
  message_id = message;
  user_id = p.user_id;
  delivered_at = none;
  read_at = none;
}

unfoldable pub receipts_for : ℕ → ℕ → List ConversationParticipant → List MessageReceipt
receipts_for message sender ps = map (receipt_row message) (filter (is_reader sender) ps)

-- The recipients of the event: also those who have left.
unfoldable pub recipients_of : ℕ → List ConversationParticipant → List ℕ
recipients_of sender ps = map (λ p. p.user_id) (filter (λ p. not (p.user_id == sender)) ps)

abbrev pub of_conv : ℕ → Message → Bool
of_conv conv m = m.conversation_id == conv
