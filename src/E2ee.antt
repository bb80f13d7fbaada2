-- ===== src/E2ee.antt =====
-- backend/src/modules/e2ee/e2ee.service.ts: the server's part of MLS. It hands out key packages,
-- keeps a group for a conversation, and carries messages that it cannot read.
pub mod KeyPackages
pub mod Groups
pub mod Boundary
use Prim.Native.Nat.{max}
use mathlib.Core.List.{head?}
use messageries.Base.{
  Bool, List, Option, [], any, count, filter, find, if◌then◌else◌, is_none, leb, length, ltb, min,
  none, not, or_default, some, true, update_where, ℕ, ◌&&◌, ◌*◌, ◌++◌, ◌+◌, ◌==◌, ◌∷◌,
}
use messageries.Audit.{log}
use messageries.Base.Sorting.{sort_asc}
use messageries.Base.Text.{Text, text_eq}
use messageries.Conversations.{assert_can_access, has_conv_id}
use messageries.Db.{
  Action, Db, Env, bad_request, conflict, gets, internal, modify, not_found, or_throw, pure,
  throw_if, transaction, unique_violation, when, ◌>>=◌, ◌>>◌,
}
use messageries.Entities.Accounts.{User, UserRole, group_opened}
use messageries.Entities.Mls.{MlsGroup, MlsKeyPackage, MlsKind, MlsMessage, is_commit, welcome}
use messageries.Messages.Listing.{limited}
use messageries.Scanner.{is_empty}

pub record KeyPackageInput : Type 0 where
  pub user_id : ℕ
  pub device_id : Text
  pub cipher_suite : Text
  pub key_packages : List (List ℕ)
  pub ttl_days : Option ℕ

pub record Claimed : Type 0 where
  pub key_package_id : ℕ
  pub key_package : List ℕ
  pub device_id : Text

pub record WelcomeMessage : Type 0 where
  pub target_user_id : ℕ
  pub ciphertext : List ℕ
  pub sender_device_id : Text

pub record EnableInput : Type 0 where
  pub conversation_id : ℕ
  pub actor_id : ℕ
  pub actor_role : UserRole
  pub group_id_mls : List ℕ
  pub cipher_suite : Text
  pub welcome_messages : List WelcomeMessage

-- `epoch` is what PostgreSQL reads of the text, `none` where it refuses it; a text is taken not to be a
-- negative number, which it does not refuse.
pub record MlsInput : Type 0 where
  pub conversation_id : ℕ
  pub sender_id : ℕ
  pub sender_role : UserRole
  pub sender_device_id : Text
  pub kind : MlsKind
  pub epoch : Option ℕ
  pub ciphertext : List ℕ
  pub target_user_id : Option ℕ

pub record PullInput : Type 0 where
  pub conversation_id : ℕ
  pub user_id : ℕ
  pub user_role : UserRole
  pub after_sequence : Option ℕ
  pub limit : Option ℕ

-- An unconsumed, unexpired package of the user for the suite.
abbrev pub is_available : ℕ → ℕ → Text → MlsKeyPackage → Bool
is_available now user suite k =
    k.user_id == user
    && text_eq k.cipher_suite suite
    && is_none k.consumed_at
    && ltb now k.expires_at

abbrev pub in_group : ℕ → MlsMessage → Bool
in_group g m = m.group_id == g

-- `COALESCE(MAX(sequence), 0)` over a group.
unfoldable pub max_sequence : ℕ → List MlsMessage → ℕ
max_sequence g [] = 0
max_sequence g (m ∷ ms) =
    if in_group g m then max m.sequence (max_sequence g ms) else max_sequence g ms

abbrev pub has_group : ℕ → MlsGroup → Bool
has_group conv g = g.conversation_id == conv

abbrev pub has_group_id : ℕ → MlsGroup → Bool
has_group_id id g = g.id == id

-- One more than the greatest `bigint`.
abbrev pub bigint_limit : ℕ
bigint_limit = 9223372036854775808

-- A commit that would lift the epoch of its group over its `bigint`.
abbrev pub is_last_epoch : MlsKind → MlsGroup → Bool
is_last_epoch kind g = is_commit kind && not (ltb (g.epoch + 1) bigint_limit)

-- A reference to the table of the users.
abbrev pub is_known : Option ℕ → List User → Bool
is_known none users = true
is_known (some id) users = any (λ u. u.id == id) users

-- `varchar(64)`, `bigint` and the two references of `mls_messages`.
abbrev pub fits_columns : MlsMessage → List User → Bool
fits_columns m users =
    leb (length (or_default m.sender_device_id [])) 64
    && ltb m.epoch bigint_limit
    && ltb m.sequence bigint_limit
    && is_known m.sender_user_id users
    && is_known m.target_user_id users

module _ (env : Env) where
  -- One row for each package of the pool, numbered from `n`.
  unfoldable pub package_rows : KeyPackageInput → ℕ → List (List ℕ) → List MlsKeyPackage
  package_rows input n [] = []
  package_rows input n (kp ∷ kps) =
      record {
        id = env.uuid n;
        user_id = input.user_id;
        device_id = input.device_id;
        cipher_suite = input.cipher_suite;
        key_package = kp;
        consumed_at = none;
        consumed_by = none;
        expires_at = env.now + or_default input.ttl_days 30 * 86400000;
        created_at = env.now;
      }
      ∷ package_rows input (n + 1) kps

  unfoldable pub publish_key_packages : KeyPackageInput → Action ℕ
  publish_key_packages input = do
    throw_if (is_empty input.key_packages) (bad_request "Empty pool")
    throw_if (ltb 100 (length input.key_packages)) (bad_request "Pool too large")
    modify
        (λ s. record s { key_packages = package_rows input 0 input.key_packages ++ s.key_packages })
    pure (length (package_rows input 0 input.key_packages))

  -- The oldest package that is available.
  unfoldable pub next_package : ℕ → Text → Db → Option MlsKeyPackage
  next_package user suite s =
      head? (sort_asc (λ k. k.created_at) (filter (is_available env.now user suite) s.key_packages))

  unfoldable pub claim_in_tx : ℕ → ℕ → Text → Action Claimed
  claim_in_tx target requester suite = do
    row ← gets (next_package target suite)
    kp ← or_throw row (not_found "Aucun KeyPackage disponible pour ce user")
    modify (λ s. record s {
      key_packages =
          update_where (λ k. k.id == kp.id)
            (λ k. record k { consumed_at = some env.now; consumed_by = some requester })
            s.key_packages;
    })
    pure (record { key_package_id = kp.id; key_package = kp.key_package; device_id = kp.device_id })

  unfoldable pub claim_key_package : ℕ → ℕ → Text → Action Claimed
  claim_key_package target requester suite = transaction (claim_in_tx target requester suite)

  unfoldable pub count_available : ℕ → Text → Db → ℕ
  count_available user suite s = count (is_available env.now user suite) s.key_packages

  -- The row is refused where it does not fit its columns or names an unknown user, or where (group,
  -- sequence) is taken.
  unfoldable pub save_mls : MlsMessage → Action (Unit {0})
  save_mls m = do
    users ← gets (λ s. s.users)
    throw_if (not (fits_columns m users)) internal
    rows ← gets (λ s. s.mls_messages)
    throw_if (any (λ x. in_group m.group_id x && x.sequence == m.sequence) rows) unique_violation
    modify (λ s. record s { mls_messages = m ∷ s.mls_messages })

  abbrev pub welcome_row : EnableInput → ℕ → ℕ → WelcomeMessage → MlsMessage
  welcome_row input group seq w = record {
    id = env.uuid (seq + 1);
    group_id = group;
    sender_user_id = some input.actor_id;
    sender_device_id = some w.sender_device_id;
    kind = welcome;
    epoch = 0;
    sequence = seq;
    target_user_id = some w.target_user_id;
    ciphertext = w.ciphertext;
    created_at = env.now;
  }

  -- The loop over the welcomes; `seq` is the last number given.
  unfoldable pub save_welcomes : EnableInput → ℕ → ℕ → List WelcomeMessage → Action (Unit {0})
  save_welcomes input group seq [] = pure tt
  save_welcomes input group seq (w ∷ ws) =
      let rest = save_welcomes input group (seq + 1) ws in
      save_mls (welcome_row input group (seq + 1) w) >> rest

  unfoldable pub enable_in_tx : EnableInput → Action ℕ
  enable_in_tx input = do
    taken ← gets (λ s. any (has_group input.conversation_id) s.groups)
    throw_if taken unique_violation
    modify (λ s. record s {
      groups =
          record {
            id = env.uuid 0;
            conversation_id = input.conversation_id;
            group_id_mls = input.group_id_mls;
            cipher_suite = input.cipher_suite;
            epoch = 0;
            created_by = input.actor_id;
            created_at = env.now;
          }
          ∷ s.groups;
    })
    save_welcomes input (env.uuid 0) 0 input.welcome_messages
    modify (λ s. record s {
      conversations =
          update_where (has_conv_id input.conversation_id)
            (λ c. record c { e2ee_enabled = true; e2ee_enabled_at = some env.now }) s.conversations;
    })
    log env 1 (some input.actor_id) "e2ee.enabled" "conversation" (some input.conversation_id)
        (group_opened input.cipher_suite (length input.welcome_messages))
    pure (env.uuid 0)

  unfoldable pub enable_e2ee : EnableInput → Action ℕ
  enable_e2ee input = do
    access ← assert_can_access env input.actor_id input.actor_role input.conversation_id
    throw_if access.conversation.e2ee_enabled (conflict "Déjà E2EE")
    transaction (enable_in_tx input)

  abbrev pub mls_row : MlsInput → ℕ → ℕ → ℕ → MlsMessage
  mls_row input group epoch seq = record {
    id = env.uuid 0;
    group_id = group;
    sender_user_id = some input.sender_id;
    sender_device_id = some input.sender_device_id;
    kind = input.kind;
    epoch = epoch;
    sequence = seq;
    target_user_id = input.target_user_id;
    ciphertext = input.ciphertext;
    created_at = env.now;
  }

  -- Under the lock of the group: the next number, and the next epoch for a commit.
  unfoldable pub send_mls_in_tx : MlsInput → ℕ → Action (ℕ × ℕ)
  send_mls_in_tx input group_id = do
    row ← gets (λ s. find (has_group_id group_id) s.groups)
    g ← or_throw row internal
    number ← gets (λ s. max_sequence g.id s.mls_messages + 1)
    throw_if (is_last_epoch input.kind g) internal
    when (is_commit input.kind) (
        modify (λ s. record s {
          groups =
              update_where (has_group_id g.id) (λ x. record x { epoch = g.epoch + 1 }) s.groups;
        }))
    epoch ← or_throw input.epoch internal
    save_mls (mls_row input g.id epoch number)
    pure (env.uuid 0, number)

  unfoldable pub send_mls_message : MlsInput → Action (ℕ × ℕ)
  send_mls_message input = do
    access ← assert_can_access env input.sender_id input.sender_role input.conversation_id
    row ← gets (λ s. find (has_group input.conversation_id) s.groups)
    group ← or_throw row (not_found "Pas de groupe MLS")
    transaction (send_mls_in_tx input group.id)

-- Addressed to nobody in particular, or to the user.
abbrev pub is_for : ℕ → MlsMessage → Bool
is_for user m = elim m.target_user_id [ none ↦ true | some u ↦ u == user ]

abbrev pub after_cursor : Option ℕ → MlsMessage → Bool
after_cursor none m = true
after_cursor (some a) m = ltb a m.sequence

unfoldable pub pull_rows : Bool → PullInput → ℕ → List MlsMessage → List MlsMessage
pull_rows zero_is_none input group ms =
    limited zero_is_none (min (or_default input.limit 100) 500) (
      sort_asc (λ m. m.sequence)
        (filter
          (λ m. in_group group m && is_for input.user_id m && after_cursor input.after_sequence m)
          ms))

module _ (env : Env) where
  unfoldable pub list_mls_messages : Bool → PullInput → Action (List MlsMessage)
  list_mls_messages zero_is_none input = do
    access ← assert_can_access env input.user_id input.user_role input.conversation_id
    row ← gets (λ s. find (has_group input.conversation_id) s.groups)
    group ← or_throw row (not_found "Pas de groupe MLS")
    gets (λ s. pull_rows zero_is_none input group.id s.mls_messages)
