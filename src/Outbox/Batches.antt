-- ===== src/Outbox/Batches.antt =====
-- `processBatch` of backend/src/modules/outbox/outbox.worker.ts: what becomes of the events of a batch.
use messageries.Base.{
  All, All-map, All-update_where, Bool, List, Option-cases, [], arith, false, filter, filter-All-of,
  inl, inr, length, not, refl, subst, suc, sym, true, update_where, zero, ℕ, ◌+◌, ◌^◌, ◌∷◌, ◌≡◌,
  ◌≤◌,
}
use messageries.Config.{Config}
use messageries.Conversations.{find_conversation}
use messageries.Db.{Db, Env, Error, Result, err, ok, outcome, transaction}
use messageries.Entities.Accounts.{User}
use messageries.Entities.Chat.{OutboxEvent, Payload, message_created, message_read}
use messageries.Nats.{publish, publish-same}
use messageries.Notifications.{notify_new_message, notify_user, notify_users, send_email, users_in}
use messageries.Outbox.{
  Outside, batch, handle, has_event_id, is_due, mark, on_message_created, postponed, process_batch,
  processed, settle, settle_all,
}

-- An event of the identifier is not due.
abbrev pub IsSettled : ℕ → ℕ → OutboxEvent → Type 0
IsSettled now id e = has_event_id id e ≡ true → is_due now e ≡ false

pub power_pos : (n : ℕ) → 1 ≤ 2 ^ n
power_pos zero = omega arith
power_pos (suc n) = omega (arith, power_pos n)

update-IsSettled :
    (now id : ℕ) (q : OutboxEvent → Bool) (f : OutboxEvent → OutboxEvent) (es : List OutboxEvent)
    → ((x : OutboxEvent) → is_due now (f x) ≡ false)
    → All (IsSettled now id) es
    → All (IsSettled now id) (update_where q f es)
update-IsSettled now id q f [] h a = tt
update-IsSettled now id q f (e ∷ es) h a = ground (arith, h e, update-IsSettled now id q f es h a.1)

module _ (outside : Outside) (cfg : Config) (env : Env) where
  notify_user-outbox :
      (message conv : ℕ) (u : User) (s : Db)
      → (notify_user outside.mailer cfg env message conv u s).1.outbox ≡ s.outbox
  unfolding notify_user send_email
  notify_user-outbox message conv u s = ground arith

  notify_users-outbox :
      (message conv : ℕ) (us : List User) (s : Db)
      → (notify_users outside.mailer cfg env message conv us s).1.outbox ≡ s.outbox
  unfolding notify_users
  notify_users-outbox message conv [] s = refl
  notify_users-outbox message conv (u ∷ us) s =
      let kept = notify_user-outbox message conv u s in
      let one = notify_user outside.mailer cfg env message conv u in
      elim (outcome (one s)) [
        | inl (a, s', done) ↦ ground (arith, kept, done, notify_users-outbox message conv us s')
        | inr (e, s', threw) ↦ ground (arith, kept, threw)
      ]

  on_message_created-outbox :
      (p : Payload) (s : Db) → (on_message_created outside cfg env p s).1.outbox ≡ s.outbox
  unfolding on_message_created notify_new_message
  on_message_created-outbox (message_read conv user upto) s = refl
  on_message_created-outbox (message_created message conv sender sequence at body flags recipients)
        s =
      let offline = filter (λ r. not (outside.online r)) recipients in
      elim (Option-cases (find_conversation conv s)) [
        | inl missing ↦ ground arith
        | inr (c, found) ↦ ground (arith, notify_users-outbox message c.id (users_in offline s) s)
      ]

  -- `handle` writes nothing to the outbox.
  pub handle-outbox : (e : OutboxEvent) (s : Db) → (handle outside cfg env e s).1.outbox ≡ s.outbox
  unfolding handle
  handle-outbox e s =
      let same = publish-same outside.nats e.event_type e.payload e.id s in
      elim (outcome (publish outside.nats e.event_type e.payload e.id s)) [
        | inl (a, s', done) ↦ ground (arith, same, done, on_message_created-outbox e.payload s)
        | inr (error, s', threw) ↦
            ground (arith, same, threw, on_message_created-outbox e.payload s)
      ]

  postponed-not_due :
      (attempts : ℕ) (error : Error) (e : OutboxEvent)
      → is_due env.now (postponed outside cfg env attempts error e) ≡ false
  postponed-not_due attempts error e = ground (arith, power_pos attempts)

  mark-IsSettled :
      (row : OutboxEvent) (id : ℕ) (r : Result (Unit {0})) (s : Db)
      → All (IsSettled env.now id) s.outbox
      → All (IsSettled env.now id) (mark outside cfg env row r s).outbox
  unfolding mark
  mark-IsSettled row id (ok a) s h =
      update-IsSettled env.now id (has_event_id row.id) (processed outside cfg env) s.outbox
        (λ x. refl) h
  mark-IsSettled row id (err e) s h =
      update-IsSettled env.now id (has_event_id row.id)
        (postponed outside cfg env (row.attempts + 1) e) s.outbox
        (postponed-not_due (row.attempts + 1) e) h

  -- The rows of the event itself are settled, whatever they were.
  mark-settles :
      (row : OutboxEvent) (r : Result (Unit {0})) (s : Db)
      → All (IsSettled env.now row.id) (mark outside cfg env row r s).outbox
  unfolding mark
  mark-settles row (ok a) s =
      All-update_where (IsSettled env.now row.id) (has_event_id row.id) (processed outside cfg env)
        s.outbox (λ x hit e. refl) (λ x miss e. absurd (ground arith))
  mark-settles row (err error) s =
      All-update_where (IsSettled env.now row.id) (has_event_id row.id)
        (postponed outside cfg env (row.attempts + 1) error) s.outbox
        (λ x hit e. postponed-not_due (row.attempts + 1) error x)
        (λ x miss e. absurd (ground arith))

  settle_all-keeps :
      (rows : List OutboxEvent) (id : ℕ) (s : Db)
      → All (IsSettled env.now id) s.outbox
      → All (IsSettled env.now id) (settle_all outside cfg env rows s).1.outbox
  unfolding settle_all settle
  settle_all-keeps [] id s h = h
  settle_all-keeps (row ∷ rows) id s h =
      let (r, s') = handle outside cfg env row s in
      settle_all-keeps rows id (mark outside cfg env row r s') (
        mark-IsSettled row id r s'
          (subst (All (IsSettled env.now id)) (sym (handle-outbox row s)) h))

  pub settle_all-settles :
      (rows : List OutboxEvent) (s : Db)
      → let (r, s') = settle_all outside cfg env rows s in
        (r ≡ ok tt) × All (λ row. All (IsSettled env.now row.id) s'.outbox) rows
  unfolding settle_all settle
  settle_all-settles [] s = (refl, tt)
  settle_all-settles (row ∷ rows) s =
      let (r, s') = handle outside cfg env row s in
      let (returned, settled) = settle_all-settles rows (mark outside cfg env row r s') in
      (
        returned,
        (
          settle_all-keeps rows row.id (mark outside cfg env row r s') (mark-settles row r s'),
          settled,
        ),
      )

  -- A batch always returns the number of the events that it took, whatever fails; and none of them
  -- is due any more: it is processed, or put off to a later time.
  pub process_batch_settles :
      (size : ℕ) (s : Db)
      → let rows = batch size env.now s.outbox in
        let (r, s') = process_batch outside cfg env size s in
        (r ≡ ok (length rows))
        × All
            (λ row. All (λ e. is_due env.now e ≡ false) (filter (has_event_id row.id) s'.outbox))
            rows
  unfolding process_batch transaction
  process_batch_settles size s =
      let rows = batch size env.now s.outbox in
      let (returned, settled) = settle_all-settles rows s in
      let s' = (settle_all outside cfg env rows s).1 in
      let ended : process_batch outside cfg env size s ≡ (ok (length rows), s') =
        ground (arith, returned) in
      rw ended (
        refl,
        All-map (λ row. All (IsSettled env.now row.id) s'.outbox) _
            (λ row h.
              filter-All-of (λ e. is_due env.now e ≡ false) (has_event_id row.id) s'.outbox h)
            rows settled,
      )
