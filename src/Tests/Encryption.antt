-- ===== src/Tests/Encryption.antt =====
-- The theorems on the end-to-end mode at the shop of the fixtures.
use messageries.Base.{All, List, [], false, length, none, refl, some, ℕ, ◌∷◌, ◌≡◌, ◌≢◌, ◌≤◌, ◌⊎◌}
use messageries.Base.Sorting.{Ascends, sort_asc}
use messageries.Conversations.{assert_can_access, find_conversation, get_by_id_or_throw}
use messageries.Db.{Db, Error, err, transaction}
use messageries.E2ee.{
  EnableInput, MlsInput, PullInput, claim_in_tx, claim_key_package, enable_e2ee, enable_in_tx,
  next_package, pull_rows, save_mls, save_welcomes,
}
use messageries.E2ee.Boundary.{enable_closes_send}
use messageries.E2ee.Groups.{IsReceivable, pull_rows_sound}
use messageries.E2ee.KeyPackages.{claim_once}
use messageries.Entities.Accounts.{customer, seller}
use messageries.Entities.Mls.{MlsGroup, MlsKeyPackage, MlsMessage, commit}
use messageries.Messages.Sending.{SendMessageInput, send}
use messageries.Tests.Fixtures.{alice, at, cfg, cipher, scanner, shop}

-- The seller has an account too.
abbrev peopled : Db
peopled = record shop { users = alice ∷ record alice { id = 2 } ∷ [] }

abbrev key_package_row : ℕ → MlsKeyPackage
key_package_row n = record {
  id = n;
  user_id = 2;
  device_id = 1 ∷ [];
  cipher_suite = 7 ∷ [];
  key_package = n ∷ [];
  consumed_at = none;
  consumed_by = none;
  expires_at = 9000;
  created_at = n;
}

abbrev stocked : Db
stocked = record peopled { key_packages = key_package_row 31 ∷ key_package_row 30 ∷ [] }

claim_once_example : ◌≢◌ {A = ℕ} 30 31
unfolding claim_key_package claim_in_tx next_package transaction sort_asc
claim_once_example =
    claim_once (at 1000 50) (at 2000 60) 2 1 2 3 (7 ∷ []) (7 ∷ []) stocked
      (claim_key_package (at 1000 50) 2 1 (7 ∷ []) stocked).1
      (claim_key_package (at 2000 60) 2 3 (7 ∷ [])
        (claim_key_package (at 1000 50) 2 1 (7 ∷ []) stocked).1).1
      (record { key_package_id = 30; key_package = 30 ∷ []; device_id = 1 ∷ [] })
      (record { key_package_id = 31; key_package = 31 ∷ []; device_id = 1 ∷ [] }) refl refl

abbrev opening : EnableInput
opening = record {
  conversation_id = 20;
  actor_id = 1;
  actor_role = customer;
  group_id_mls = 5 ∷ [];
  cipher_suite = 7 ∷ [];
  welcome_messages =
      record { target_user_id = 2; ciphertext = 8 ∷ []; sender_device_id = 1 ∷ [] } ∷ [];
}

abbrev encrypted_shop : Db
encrypted_shop = (enable_e2ee (at 1000 50) opening peopled).1

abbrev plain_message : SendMessageInput
plain_message = record {
  conversation_id = 20;
  sender_id = 2;
  body = 104 ∷ 105 ∷ [];
  idempotency_key = none;
}

enable_closes_send_example :
    (e : Error) × (send cipher scanner cfg (at 2000 60) plain_message encrypted_shop
      ≡ (err e, encrypted_shop))
unfolding enable_e2ee enable_in_tx save_welcomes save_mls assert_can_access get_by_id_or_throw
    find_conversation transaction
enable_closes_send_example =
    enable_closes_send cipher scanner cfg (at 1000 50) (at 2000 60) opening plain_message peopled
      encrypted_shop 50 refl refl

abbrev group : MlsGroup
group = record {
  id = 50;
  conversation_id = 20;
  group_id_mls = 5 ∷ [];
  cipher_suite = 7 ∷ [];
  epoch = 0;
  created_by = 1;
  created_at = 1000;
}

abbrev commit_input : MlsInput
commit_input = record {
  conversation_id = 20;
  sender_id = 2;
  sender_role = seller;
  sender_device_id = 1 ∷ [];
  kind = commit;
  epoch = some 0;
  ciphertext = 9 ∷ [];
  target_user_id = none;
}

abbrev grouped : Db
grouped = record peopled { groups = group ∷ [] }

abbrev pull_input : PullInput
pull_input = record {
  conversation_id = 20;
  user_id = 2;
  user_role = seller;
  after_sequence = none;
  limit = none;
}

abbrev pulled : List MlsMessage
pulled = pull_rows false pull_input 50 encrypted_shop.mls_messages

pull_rows_sound_example :
    All (IsReceivable pull_input 50) pulled
    × Ascends (λ m. m.sequence) pulled
    × ((pull_input.limit ≡ some 0) ⊎ (length pulled ≤ 500))
pull_rows_sound_example = pull_rows_sound false pull_input 50 encrypted_shop.mls_messages
