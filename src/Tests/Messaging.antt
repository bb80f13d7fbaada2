-- ===== src/Tests/Messaging.antt =====
-- The theorems on messages at the conversation of the fixtures.
use messageries.Base.{All, [], arith, length, none, refl, some, true, ◌∷◌, ◌≡◌, ◌≤◌, ◌⊎◌}
use messageries.Base.Text.{trim}
use messageries.Conversations.{
  assert_can_write, bump_last_message, find_conversation, list_participants,
}
use messageries.Db.{Db, ok, transaction}
use messageries.Entities.Chat.{Message}
use messageries.Messages.Decryption.{DecryptedMessage, shown_text, to_decrypted}
use messageries.Messages.Listing.{ListParams, page}
use messageries.Messages.Pages.{InOrder, InWindow, page_sound}
use messageries.Messages.Retry.{Accepted, replay_echoes_new_text, send_again}
use messageries.Messages.Rows.{receipts_for, recipients_of}
use messageries.Messages.Sending.{
  SendMessageInput, checked_body, deliver, find_existing, insert_message, message_row, send,
  send_checked, send_in_tx, send_into, store_message, with_body,
}
use messageries.Messages.Sequence.{IsNumbered, send-IsNumbered}
use messageries.Realtime.{publish_message_created}
use messageries.Tests.Fixtures.{at, cfg, cipher, conv, scanner, shop}

abbrev hello : SendMessageInput
hello = record {
  conversation_id = 20;
  sender_id = 1;
  body = 32 ∷ 104 ∷ 105 ∷ [];
  idempotency_key = some (7 ∷ []);
}

abbrev again : SendMessageInput
again = record hello { body = 121 ∷ 111 ∷ [] }

abbrev first : Message
first = message_row cipher scanner cfg (at 1000 50) hello conv (scanner.scan (104 ∷ 105 ∷ []))

abbrev after_hello : Db
after_hello = (send cipher scanner cfg (at 1000 50) hello shop).1

shop-IsNumbered : IsNumbered shop
unfolding find_conversation
shop-IsNumbered id c h = ground arith

send-IsNumbered_example : IsNumbered after_hello
send-IsNumbered_example = send-IsNumbered cipher scanner cfg (at 1000 50) hello shop shop-IsNumbered

abbrev reply : DecryptedMessage
reply = record { message = first; body = 104 ∷ 105 ∷ [] }

said_hello : send cipher scanner cfg (at 1000 50) hello shop ≡ (ok reply, after_hello)
unfolding send send_checked checked_body trim transaction send_in_tx find_conversation send_into
    assert_can_write find_existing store_message insert_message message_row with_body
    bump_last_message deliver to_decrypted shown_text publish_message_created list_participants
    receipts_for recipients_of
said_hello = refl

send_again_example :
    (d' : DecryptedMessage) × (d'.message ≡ first)
    × (send cipher scanner cfg (at 2000 60) again after_hello
        ≡ (ok d', (publish_message_created cfg d'.message d'.body after_hello).1))
unfolding checked_body trim
send_again_example =
    send_again cipher scanner cfg (at 1000 50) (at 2000 60) hello again shop after_hello reply 7 []
      (121 ∷ 111 ∷ []) said_hello refl refl refl refl refl

-- A text of spaces is refused.
accepted : Accepted cfg again after_hello
unfolding send send_checked checked_body trim transaction send_in_tx find_conversation send_into
    assert_can_write find_existing store_message insert_message message_row with_body
    bump_last_message deliver to_decrypted shown_text publish_message_created list_participants
    receipts_for recipients_of
accepted = record {
  text = 121 ∷ 111 ∷ [];
  conv = record conv { last_message_at = some 1000; last_sequence = 1 };
  checked = refl;
  located = refl;
  clear = refl;
  opened = refl;
  present = refl;
}

replay_echoes_new_text_example : send cipher scanner cfg (at 2000 60) again after_hello ≡ (
  ok (record { message = first; body = 121 ∷ 111 ∷ [] }),
  (publish_message_created cfg first (121 ∷ 111 ∷ []) after_hello).1,
)
unfolding send send_checked checked_body trim transaction send_in_tx find_conversation send_into
    assert_can_write find_existing store_message insert_message message_row with_body
    bump_last_message deliver to_decrypted shown_text publish_message_created list_participants
    receipts_for recipients_of accepted
replay_echoes_new_text_example =
    replay_echoes_new_text cipher scanner cfg (at 2000 60) again after_hello accepted first refl
      refl

abbrev newest : ListParams
newest = record {
  conversation_id = 20;
  after_sequence = some 0;
  before_sequence = none;
  limit = none;
}

page_sound_example :
    let rows = page true newest (first ∷ []) in
    All (InWindow 20 (some 0) none) rows
    × InOrder (some 0) rows
    × ((newest.limit ≡ some 0) ⊎ (length rows ≤ 100))
page_sound_example = page_sound true newest (first ∷ [])
