-- ===== src/Tests/Chats.antt =====
-- The theorems on orders, conversations and access at the shop of the fixtures.
use messageries.Base.{false, find, refl, some, true, ◌≡◌, ◌⊎◌}
use messageries.Conversations.{
  assert_can_access, create_for_order, find_conversation, get_by_id_or_throw, is_active,
  save_participant,
}
use messageries.Conversations.Access.{assert_can_access_inv}
use messageries.Conversations.Creation.{race_loser}
use messageries.Db.{err, in_failed_transaction}
use messageries.Entities.Accounts.{is_staff, seller}
use messageries.Entities.Chat.{ConversationParticipant}
use messageries.Tests.Fixtures.{at, conv, order, shop}

-- The seller gets in, and agent 3 joins.
assert_can_access_inv_example :
    (find_conversation 20 shop ≡ some conv)
    × (((p : ConversationParticipant) × (find (is_active 20 2) shop.participants ≡ some p)
          × (seller ≡ p.role)
          × (shop ≡ shop))
        ⊎ ((is_staff seller ≡ true)
            × (seller ≡ seller)
            × (shop.participants ≡ save_participant (at 1000 50) 20 2 seller shop.participants)))
unfolding assert_can_access find_conversation get_by_id_or_throw
assert_can_access_inv_example =
    assert_can_access_inv (at 1000 50) 2 seller 20 shop shop
      (record { conversation = conv; participant_role = seller }) refl

race_loser_example :
    create_for_order false (at 1000 50) 1 order shop ≡ (err in_failed_transaction, shop)
race_loser_example = race_loser false (at 1000 50) 1 order shop conv refl
