-- ===== src/Conversations/Creation.antt =====
-- `getOrCreateForOrder` of backend/src/modules/conversations/conversations.service.ts, also where two
-- requests ask for one order at once.
use messageries.Base.{
  Bool, Bool-cases, List, Option-cases, [], any, arith, false, find, find_sound, if◌then◌else◌, inl,
  inr, some, subst, sym, true, ℕ, ◌==◌, ◌∷◌, ◌≡◌, ◌⊎◌,
}
use messageries.Conversations.{
  conversation_row, create_for_order, get_or_create_for_order, has_order,
}
use messageries.Db.{Db, Env, err, in_failed_transaction, ok}
use messageries.Entities.Accounts.{Order}
use messageries.Entities.Chat.{Conversation}
use messageries.Orders.{find_order}
use messageries.RateLimit.Bounds.{accepted}

-- No two conversations have one order (the column is UNIQUE).
abbrev pub OrdersDistinct : List Conversation → Type 0
OrdersDistinct [] = Unit
OrdersDistinct (c ∷ cs) = (any (has_order c.order_id) cs ≡ false) × OrdersDistinct cs

find-has_order :
    (order : ℕ) (cs : List Conversation) (c : Conversation)
    → find (has_order order) cs ≡ some c
    → any (has_order order) cs ≡ true
find-has_order order [] c h = ground arith
find-has_order order (x ∷ cs) c h = ground (arith, find-has_order order cs c)

module _ (usable : Bool) (env : Env) where
  -- Opening a conversation for an order keeps the orders of the conversations distinct, whatever
  -- the outcome.
  pub create_for_order-OrdersDistinct :
      (actor : ℕ) (order : Order) (s : Db)
      → OrdersDistinct s.conversations
      → OrdersDistinct (create_for_order usable env actor order s).1.conversations
  unfolding create_for_order
  create_for_order-OrdersDistinct actor order s d = ground arith

  -- Looking a conversation up, or opening it, keeps the orders of the conversations distinct,
  -- whatever the outcome.
  pub get_or_create-OrdersDistinct :
      (order_id actor : ℕ) (s : Db)
      → OrdersDistinct s.conversations
      → OrdersDistinct (get_or_create_for_order usable env order_id actor s).1.conversations
  unfolding get_or_create_for_order find_order
  get_or_create-OrdersDistinct order_id actor s d = elim (Option-cases (find_order order_id s)) [
    | inl missing ↦ ground arith
    | inr (o, known) ↦ ground (arith, create_for_order-OrdersDistinct actor o s d)
  ]

  -- The request that loses a race: the other's row is there when it inserts its own. PostgreSQL takes
  -- no further statement in a failed transaction, so the lookup of the `catch` block throws as well
  -- and the call fails; were the transaction usable, it would return the other's row. The tables
  -- stay as they were in both cases.
  pub race_loser :
      (actor : ℕ) (order : Order) (s : Db) (c : Conversation)
      → find (has_order order.id) s.conversations ≡ some c
      → create_for_order usable env actor order s
        ≡ (if usable then ok c else err in_failed_transaction, s)
  unfolding create_for_order
  race_loser actor order s c found = ground (arith, find-has_order order.id s.conversations c found)

-- Once a call has returned a conversation, every later call for that order returns the same one and
-- changes nothing, whoever makes it: the caller is not compared with the parties of the order.
pub get_or_create_again :
    (usable usable' : Bool) (env later : Env) (order_id actor other : ℕ) (s s' : Db)
    (c : Conversation)
    → get_or_create_for_order usable env order_id actor s ≡ (ok c, s')
    → get_or_create_for_order usable' later order_id other s' ≡ (ok c, s')
unfolding get_or_create_for_order create_for_order find_order
get_or_create_again usable usable' env later order_id actor other s s' c e =
    elim (Option-cases (find (λ (o : Order). o.id == order_id) s.orders)) [
      | inl missing ↦ absurd (ground arith)
      | inr (o, known) ↦
          ground (arith, find_sound (λ (o : Order). o.id == order_id) s.orders o known)
    ]

-- What a call wrote: no message, and at most the row of a new conversation.
abbrev pub Opened : Env → Db → Db → Type 0
Opened env s s' =
    (s'.messages ≡ s.messages)
    × ((s'.conversations ≡ s.conversations)
        ⊎ ((order : Order) × (s'.conversations ≡ conversation_row env order ∷ s.conversations)))

create_for_order-Opened :
    (usable : Bool) (env : Env) (actor : ℕ) (order : Order) (s : Db)
    → Opened env s (create_for_order usable env actor order s).1
unfolding create_for_order
create_for_order-Opened usable env actor order s =
    elim (Bool-cases (any (has_order order.id) s.conversations)) [
      | inl taken ↦ (ground arith, inl (ground arith))
      | inr free ↦ elim (Bool-cases (order.customer_id == order.seller_id)) [
        | inr distinct ↦ (ground arith, inr (order, ground arith))
        | inl same ↦ elim (Bool-cases usable) [
          | inl accepted ↦ (ground arith, inr (order, ground arith))
          | inr aborted ↦ (ground arith, inl (ground arith))
        ]
      ]
    ]

pub get_or_create-Opened :
    (usable : Bool) (env : Env) (order_id actor : ℕ) (s : Db)
    → Opened env s (get_or_create_for_order usable env order_id actor s).1
unfolding get_or_create_for_order find_order
get_or_create-Opened usable env order_id actor s =
    elim (Option-cases (find (λ (o : Order). o.id == order_id) s.orders)) [
      | inl missing ↦ (ground arith, inl (ground arith))
      | inr (o, known) ↦ elim (Option-cases (find (has_order order_id) s.conversations)) [
        | inr (c, found) ↦ (ground arith, inl (ground arith))
        | inl unopened ↦
            let same : (get_or_create_for_order usable env order_id actor s).1
                ≡ (create_for_order usable env actor o s).1 =
              ground arith in
            subst (Opened env s) (sym same) (create_for_order-Opened usable env actor o s)
      ]
    ]
