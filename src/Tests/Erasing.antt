-- ===== src/Tests/Erasing.antt =====
-- The theorems on the export and the anonymisation of an account, at the account of alice.
use messageries.Base.{All, [], any, false, filter, find, none, refl, some, true, ℕ, ◌+◌, ◌∷◌, ◌≡◌}
use messageries.Auth.{is_disabled}
use messageries.Base.Text.{Text, codes, trim}
use messageries.Conversations.{
  assert_can_write, bump_last_message, find_conversation, get_or_create_for_order,
  list_participants,
}
use messageries.Db.{Db, ok, transaction}
use messageries.Entities.Accounts.{customer}
use messageries.Entities.Chat.{OutboxEvent}
use messageries.Histories.{Reach, Reach-IsNumbered, anonymizes, here, next, opens, sends}
use messageries.Messages.Decryption.{DecryptedMessage, shown_text, to_decrypted}
use messageries.Messages.Rows.{receipts_for, recipients_of}
use messageries.Messages.Sending.{
  SendMessageInput, checked_body, deliver, find_existing, insert_message, message_row, send,
  send_checked, send_in_tx, send_into, store_message, with_body,
}
use messageries.Messages.Sequence.{IsNumbered}
use messageries.Privacy.{
  UserExport, anonymize_in_tx, anonymize_user, erase_user, has_user_id, is_sent_by,
}
use messageries.Privacy.Erasure.{IsBlank, anonymize_user_erases}
use messageries.Privacy.Residue.{sent_text_survives, text_of}
use messageries.Realtime.{publish_message_created}
use messageries.Tests.Fixtures.{alice, at, cfg, cipher, conv, crypt, hash, scanner, shop}
use messageries.Tests.Searching.{engine}
use messageries.Tokens.{live_of, revoke_all_for_user, revoke_live}

abbrev print_id : ℕ → Text
print_id id = (id + 48) ∷ []

abbrev said : SendMessageInput
said = record { conversation_id = 20; sender_id = 1; body = 104 ∷ 105 ∷ []; idempotency_key = none }

abbrev told_shop : Db
told_shop = (send cipher scanner cfg (at 1000 50) said shop).1

abbrev spoken : DecryptedMessage
spoken = record {
  message = message_row cipher scanner cfg (at 1000 50) said conv (scanner.scan (104 ∷ 105 ∷ []));
  body = 104 ∷ 105 ∷ [];
}

told : send cipher scanner cfg (at 1000 50) said shop ≡ (ok spoken, told_shop)
unfolding send send_checked checked_body trim transaction send_in_tx find_conversation send_into
    assert_can_write find_existing store_message insert_message message_row with_body
    bump_last_message deliver to_decrypted shown_text publish_message_created list_participants
    receipts_for recipients_of
told = refl

abbrev erased_shop : Db
erased_shop = (anonymize_user crypt print_id hash cfg (at 2000 60) 1 1 told_shop).1

anonymized :
    anonymize_user crypt print_id hash cfg (at 2000 60) 1 1 told_shop ≡ (ok tt, erased_shop)
unfolding send send_checked checked_body trim transaction send_in_tx find_conversation send_into
    assert_can_write find_existing store_message insert_message message_row with_body
    bump_last_message deliver to_decrypted shown_text publish_message_created list_participants
    receipts_for recipients_of anonymize_user anonymize_in_tx erase_user revoke_all_for_user
    revoke_live
anonymized = refl

known : find (has_user_id 1) told_shop.users ≡ some alice
unfolding send send_checked checked_body trim transaction send_in_tx find_conversation send_into
    assert_can_write find_existing store_message insert_message message_row with_body
    bump_last_message deliver to_decrypted shown_text publish_message_created list_participants
    receipts_for recipients_of
known = refl

anonymize_user_erases_example :
    All (IsBlank cipher erased_shop) (filter (is_sent_by 1) erased_shop.messages)
    × (any (live_of 1) erased_shop.refresh_tokens ≡ false)
    × All (λ x. is_disabled x ≡ true) (filter (has_user_id 1) erased_shop.users)
anonymize_user_erases_example =
    anonymize_user_erases crypt print_id hash cfg (at 2000 60) cipher 1 1 told_shop erased_shop
      alice known refl anonymized

abbrev empty_shop : Db
empty_shop = record shop { conversations = []; participants = [] }

abbrev opened_shop : Db
opened_shop = (get_or_create_for_order false (at 500 20) 10 1 empty_shop).1

abbrev spoken_shop : Db
spoken_shop = (send cipher scanner cfg (at 1000 50) said opened_shop).1

abbrev wiped_shop : Db
wiped_shop = (anonymize_user crypt print_id hash cfg (at 2000 60) 1 1 spoken_shop).1

way : Reach engine true cipher scanner cfg crypt print_id hash empty_shop wiped_shop
way =
    next (next (next here (opens false (at 500 20) 10 1 tt refl)) (sends (at 1000 50) said refl))
      (anonymizes (at 2000 60) 1 1 refl)

Reach-IsNumbered_example : IsNumbered wiped_shop
Reach-IsNumbered_example =
    Reach-IsNumbered engine true cipher scanner cfg crypt print_id hash refl refl way

abbrev export_of_erased : UserExport
export_of_erased = record {
  exported_at = 3000;
  user_id = 1;
  email = codes "anon_1@deleted.invalid";
  role = customer;
  display_name = some (codes "Utilisateur supprimé");
  created_at = 0;
  conversations = 20 ∷ [];
  messages = [];
  attachments = [];
}

sent_text_survives_example :
    let s'' = (anonymize_user crypt print_id hash cfg (at 2000 60) 1 1 told_shop).1 in
    (t : Text) × (e : OutboxEvent) × (checked_body cfg (104 ∷ 105 ∷ []) ≡ ok t)
    × (s''.outbox ≡ e ∷ [])
    × (text_of e.payload ≡ (scanner.scan t).cleaned)
sent_text_survives_example =
    sent_text_survives cipher scanner cfg (at 1000 50) crypt print_id hash (at 2000 60) said 1 1
      shop told_shop spoken told refl
