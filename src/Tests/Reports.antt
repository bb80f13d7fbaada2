-- ===== src/Tests/Reports.antt =====
-- A run of the moderation: a message of the shop is reported and hidden.
use messageries.Base.{[], none, refl, ◌∷◌, ◌≡◌}
use messageries.Base.Text.{trim}
use messageries.Conversations.{assert_can_write, bump_last_message, find_conversation}
use messageries.Db.{Db, ok, transaction}
use messageries.Entities.Chat.{MessageReport}
use messageries.Messages.Decryption.{shown_text, to_decrypted}
use messageries.Messages.Sending.{
  SendMessageInput, checked_body, deliver, find_existing, insert_message, message_row, send,
  send_checked, send_in_tx, send_into, store_message, with_body,
}
use messageries.Moderation.{
  ReportInput, ResolveInput, hide_message, report, report_row, resolve, resolved,
}
use messageries.Realtime.{publish_message_created}
use messageries.Tests.Fixtures.{at, cfg, cipher, scanner, shop}

abbrev greeting : SendMessageInput
greeting = record {
  conversation_id = 20;
  sender_id = 1;
  body = 104 ∷ 105 ∷ [];
  idempotency_key = none;
}

abbrev talking : Db
talking = (send cipher scanner cfg (at 1000 50) greeting shop).1

abbrev complaint : ReportInput
complaint = record { message_id = 50; reporter_id = 2; reason = 115 ∷ 112 ∷ []; details = none }

abbrev reported : Db
reported = (report (at 2000 60) complaint talking).1

abbrev hiding : ResolveInput
hiding = record { report_id = 60; moderator_id = 3; action = hide_message }

abbrev handled : MessageReport
handled = resolved (at 3000 70) hiding (report_row (at 2000 60) complaint)

abbrev moderated_shop : Db
moderated_shop = (resolve (at 3000 70) hiding reported).1

resolve_run : resolve (at 3000 70) hiding reported ≡ (ok handled, moderated_shop)
unfolding resolve report send send_checked checked_body send_in_tx send_into store_message
    insert_message transaction find_conversation deliver to_decrypted shown_text
    publish_message_created bump_last_message find_existing message_row with_body assert_can_write
    trim
resolve_run = refl
