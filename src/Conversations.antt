-- ===== src/Conversations.antt =====
-- backend/src/modules/conversations/conversations.service.ts: one conversation for each order, and
-- who may see it.
pub mod Access
pub mod Creation
pub mod Activity
use messageries.Base.{
  Bool, List, Option, any, false, filter, find, if◌then◌else◌, is_none, none, not, some, suc, take,
  update_where, ℕ, ◌&&◌, ◌++◌, ◌==◌, ◌∷◌,
}
use messageries.Audit.{log}
use messageries.Base.Sorting.{sort_desc}
use messageries.Base.Text.{codes}
use messageries.Db.{
  Action, Db, Env, Error, conflict, err, forbidden, gets, in_failed_transaction, modify, not_found,
  ok, or_throw, pure, throw, throw_if, transaction, unique_violation, ◌>>=◌, ◌>>◌,
}
use messageries.Entities.Accounts.{
  Order, UserRole, conversation_of, customer, is_staff, joined_as, seller,
}
use messageries.Entities.Chat.{
  Conversation, ConversationParticipant, ParticipantRole, is_open, open_conv,
}
use messageries.Orders.{get_order_or_throw}

abbrev pub has_conv_id : ℕ → Conversation → Bool
has_conv_id id c = c.id == id

abbrev pub has_order : ℕ → Conversation → Bool
has_order order c = c.order_id == order

abbrev pub is_member : ℕ → ℕ → ConversationParticipant → Bool
is_member conv user p = p.conversation_id == conv && p.user_id == user

-- With `left_at IS NULL`.
abbrev pub is_active : ℕ → ℕ → ConversationParticipant → Bool
is_active conv user p = is_member conv user p && is_none p.left_at

unfoldable pub find_conversation : ℕ → Db → Option Conversation
find_conversation id s = find (has_conv_id id) s.conversations

unfoldable pub get_by_id_or_throw : ℕ → Action Conversation
unfolding find_conversation
get_by_id_or_throw id = do
  row ← gets (find_conversation id)
  or_throw row (not_found "Conversation introuvable")

abbrev pub participant_row : Env → ℕ → ℕ → ParticipantRole → ConversationParticipant
participant_row env conv user role = record {
  conversation_id = conv;
  user_id = user;
  role = role;
  joined_at = env.now;
  left_at = none;
  muted = false;
  last_read_sequence = 0;
}

abbrev pub conversation_row : Env → Order → Conversation
conversation_row env order = record {
  id = env.uuid 0;
  order_id = order.id;
  status = open_conv;
  subject = some (codes "Commande " ++ order.external_ref);
  last_message_at = none;
  last_sequence = 0;
  created_at = env.now;
  updated_at = env.now;
  search_indexed = false;
  search_indexed_at = none;
  e2ee_enabled = false;
  e2ee_enabled_at = none;
}

-- The two rows are inserted together; their key is (conversation, user).
insert_parties : Env → Order → Action (Unit {0})
insert_parties env order = do
  throw_if (order.customer_id == order.seller_id) unique_violation
  modify (λ s. record s {
    participants =
        participant_row env (env.uuid 0) order.customer_id customer
        ∷ participant_row env (env.uuid 0) order.seller_id seller
        ∷ s.participants;
  })

-- The `try` block of the transaction; `order_id` is unique in the table.
insert_conversation : Env → ℕ → Order → Action Conversation
unfolding insert_parties
insert_conversation env actor order = do
  taken ← gets (λ s. any (has_order order.id) s.conversations)
  throw_if taken unique_violation
  modify (λ s. record s { conversations = conversation_row env order ∷ s.conversations })
  insert_parties env order
  log env 1 (some actor) "conversation.created" "conversation" (some (env.uuid 0))
      (conversation_of order.id order.external_ref)
  pure (conversation_row env order)

-- The `catch` block: the row of the other request is looked up, by a statement of the transaction
-- that has just failed. `usable` says whether the server still accepts one.
recover : Bool → ℕ → Error → Action Conversation
recover usable order unique_violation =
    if usable
    then (gets (λ s. find (has_order order) s.conversations) >>= λ row.
        or_throw row unique_violation)
    else throw in_failed_transaction
recover usable order e = throw e

-- `try { … } catch (e) { … }`: what the block wrote before it threw stays in the transaction.
abbrev pub catching : {A : Type 0} → Action A → (Error → Action A) → Action A
catching body handler s =
    let (r, s') = body s in elim r [ ok a ↦ (ok a, s') | err e ↦ handler e s' ]

unfoldable pub create_for_order : Bool → Env → ℕ → Order → Action Conversation
unfolding insert_conversation recover transaction
create_for_order usable env actor order =
    transaction (catching (insert_conversation env actor order) (recover usable order.id))

unfoldable pub get_or_create_for_order : Bool → Env → ℕ → ℕ → Action Conversation
unfolding create_for_order get_order_or_throw
get_or_create_for_order usable env order_id actor = do
  order ← get_order_or_throw order_id
  existing ← gets (λ s. find (has_order order_id) s.conversations)
  elim existing [ some conv ↦ pure conv | none ↦ create_for_order usable env actor order ]

-- `ORDER BY last_message_at DESC NULLS LAST`
abbrev recency : Conversation → ℕ
recency c = elim c.last_message_at [ none ↦ 0 | some t ↦ suc t ]

unfoldable pub list_for_user : ℕ → ℕ → Db → List Conversation
list_for_user user limit s =
    take limit
      (sort_desc recency (filter (λ c. any (is_active c.id user) s.participants) s.conversations))

pub record Granted : Type 0 where
  pub conversation : Conversation
  pub participant_role : ParticipantRole

-- `partRepo.save`: the row of this key gets the new role, or the row is inserted.
unfoldable pub save_participant :
    Env → ℕ → ℕ → UserRole → List ConversationParticipant → List ConversationParticipant
save_participant env conv user role ps =
    if any (is_member conv user) ps
    then update_where (is_member conv user) (λ p. record p { role = role }) ps
    else participant_row env conv user role ∷ ps

-- Support and administrators join, and the access is logged.
unfoldable pub join_as_staff : Env → ℕ → UserRole → Conversation → Action Granted
unfolding save_participant
join_as_staff env user role conv = do
  modify (λ s. record s { participants = save_participant env conv.id user role s.participants })
  log env 0 (some user) "conversation.support_joined" "conversation" (some conv.id) (joined_as role)
  pure (record { conversation = conv; participant_role = role })

unfoldable pub assert_can_access : Env → ℕ → UserRole → ℕ → Action Granted
unfolding get_by_id_or_throw join_as_staff
assert_can_access env user role conversation_id = do
  conv ← get_by_id_or_throw conversation_id
  participant ← gets (λ s. find (is_active conversation_id user) s.participants)
  elim participant [
    | some p ↦ pure (record { conversation = conv; participant_role = p.role })
    | none ↦
        if is_staff role
        then join_as_staff env user role conv
        else throw (forbidden "Vous n'êtes pas autorisé sur cette conversation")
  ]

unfoldable pub assert_can_write : Conversation → Action (Unit {0})
assert_can_write conv =
    throw_if (not (is_open conv.status)) (conflict "Conversation fermée ou archivée")

unfoldable pub bump_last_message : Env → ℕ → ℕ → Action (Unit {0})
bump_last_message env conversation_id sequence = modify λ s. record s {
  conversations =
      update_where (has_conv_id conversation_id)
        (λ c. record c { last_message_at = some env.now; last_sequence = sequence })
        s.conversations;
}

unfoldable pub list_participants : ℕ → Db → List ConversationParticipant
list_participants conv s = filter (λ p. p.conversation_id == conv) s.participants
