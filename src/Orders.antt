-- ===== src/Orders.antt =====
-- backend/src/modules/orders/orders.service.ts.
use messageries.Base.{Option, any, arith, find, or_default, ℕ, ◌==◌, ◌∷◌, ◌≡◌}
use messageries.Base.Text.{Text, codes, text_eq, text_eq_refl}
use messageries.Db.{
  Action, Db, Env, err, gets, modify, not_found, ok, or_throw, pure, throw_if, unique_violation,
  ◌>>=◌, ◌>>◌,
}
use messageries.Entities.Accounts.{Order, OrderStatus, open_order}

pub record OrderInput : Type 0 where
  pub external_ref : Text
  pub customer_id : ℕ
  pub seller_id : ℕ
  pub status : Option OrderStatus
  pub total_cents : Option ℕ
  pub currency : Option Text

unfoldable pub find_order : ℕ → Db → Option Order
find_order id s = find (λ o. o.id == id) s.orders

unfoldable pub get_order_or_throw : ℕ → Action Order
get_order_or_throw id = do
  row ← gets (find_order id)
  or_throw row (not_found "Commande introuvable")

abbrev order_row : Env → OrderInput → Order
order_row env input = record {
  id = env.uuid 0;
  external_ref = input.external_ref;
  customer_id = input.customer_id;
  seller_id = input.seller_id;
  status = or_default input.status open_order;
  total_cents = or_default input.total_cents 0;
  currency = or_default input.currency (codes "EUR");
  created_at = env.now;
}

-- The entity that is saved has no identifier, so the row is inserted; `external_ref` is unique.
unfoldable pub upsert_from_external : Env → OrderInput → Action Order
upsert_from_external env input = do
  taken ← gets (λ s. any (λ o. text_eq o.external_ref input.external_ref) s.orders)
  throw_if taken unique_violation
  modify (λ s. record s { orders = order_row env input ∷ s.orders })
  pure (order_row env input)

-- A second synchronisation of one order does not update it: it throws and changes nothing.
pub upsert_again_fails :
    (env later : Env) (input again : OrderInput) (s s' : Db) (o : Order)
    → upsert_from_external env input s ≡ (ok o, s')
    → again.external_ref ≡ input.external_ref
    → upsert_from_external later again s' ≡ (err unique_violation, s')
unfolding upsert_from_external
upsert_again_fails env later input again s s' o e same =
    rw same (ground (arith, text_eq_refl input.external_ref))
