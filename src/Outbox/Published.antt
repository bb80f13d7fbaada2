-- ===== src/Outbox/Published.antt =====
-- What the worker of backend/src/modules/outbox/outbox.worker.ts marks as processed while its publisher
-- has a client.
use messageries.Base.{
  All, All-filter, All-map, All-take, Bool, Bool-cases, List, [], ap, arith, false, filter, inl,
  inr, is_none, length, refl, some, subst, sym, true, update_where, ℕ, ◌+◌, ◌∙◌, ◌∷◌, ◌≡◌,
}
use messageries.Base.Sorting.{sort_asc, sort_asc-All}
use messageries.Base.Text.{Text}
use messageries.Config.{Config}
use messageries.Db.{Db, Env, Result, err, ok, transaction}
use messageries.Entities.Chat.{OutboxEvent, Payload}
use messageries.Nats.{publish, subject_of}
use messageries.Outbox.{
  Outside, batch, handle, has_event_id, is_due, mark, postponed, process_batch, processed, settle,
  settle_all,
}
use messageries.Outbox.Batches.{handle-outbox, settle_all-settles}

module _ (js : Text → ℕ → Payload → Bool) where
  -- The stream took the event.
  abbrev pub was_taken : OutboxEvent → Bool
  was_taken e = js (subject_of e.event_type) e.id e.payload

  abbrev pub IsPublished : OutboxEvent → Type 0
  IsPublished e = is_none e.processed_at ≡ false → was_taken e ≡ true

  -- The events under an identifier are taken alike.
  abbrev IsLike : OutboxEvent → OutboxEvent → Type 0
  IsLike row e = has_event_id row.id e ≡ true → was_taken e ≡ was_taken row

  update-IsPublished :
      (row : OutboxEvent) (f : OutboxEvent → OutboxEvent) (es : List OutboxEvent)
      → ((x : OutboxEvent) → was_taken x ≡ true → IsPublished (f x))
      → was_taken row ≡ true
      → All (IsLike row) es
      → All IsPublished es
      → All IsPublished (update_where (has_event_id row.id) f es)
  update-IsPublished row f [] h taken like a = tt
  update-IsPublished row f (e ∷ es) h taken like a =
      let rest = update-IsPublished row f es h taken like.1 a.1 in
      elim (Bool-cases (has_event_id row.id e)) [
        | inl hit ↦ rw hit (h e (like.0 hit ∙ taken), rest)
        | inr miss ↦ rw miss (a.0, rest)
      ]

  keep-IsPublished :
      (q : OutboxEvent → Bool) (f : OutboxEvent → OutboxEvent) (es : List OutboxEvent)
      → ((x : OutboxEvent) → IsPublished x → IsPublished (f x))
      → All IsPublished es
      → All IsPublished (update_where q f es)
  keep-IsPublished q f [] h a = tt
  keep-IsPublished q f (e ∷ es) h a = ground (arith, h e a.0, keep-IsPublished q f es h a.1)

  keep-IsLike :
      (row : OutboxEvent) (q : OutboxEvent → Bool) (f : OutboxEvent → OutboxEvent)
      (es : List OutboxEvent)
      → ((x : OutboxEvent) → IsLike row x → IsLike row (f x))
      → All (IsLike row) es
      → All (IsLike row) (update_where q f es)
  keep-IsLike row q f [] h a = tt
  keep-IsLike row q f (e ∷ es) h a = ground (arith, h e a.0, keep-IsLike row q f es h a.1)

  -- One event stands under an identifier, as the primary key has it.
  abbrev pub IsKeyed : List OutboxEvent → Type 0
  IsKeyed es =
      All
        (λ row.
          All
            (λ e.
              has_event_id row.id e ≡ true
              → (e.id ≡ row.id) × (e.event_type ≡ row.event_type) × (e.payload ≡ row.payload))
            es)
        es

  module _ (outside : Outside) (cfg : Config) (env : Env) where
    abbrev connected : Outside
    connected = record outside { nats = record { enabled = true; js = some js } }

    handle-taken :
        (row : OutboxEvent) (s : Db)
        → (handle connected cfg env row s).0 ≡ ok tt
        → was_taken row ≡ true
    unfolding handle publish
    handle-taken row s h = ground arith

    mark-IsLike :
        (row marked : OutboxEvent) (r : Result (Unit {0})) (s : Db)
        → All (IsLike row) s.outbox
        → All (IsLike row) (mark connected cfg env marked r s).outbox
    unfolding mark
    mark-IsLike row marked (ok a) s h =
        keep-IsLike row (has_event_id marked.id) (processed connected cfg env) s.outbox (λ x k. k) h
    mark-IsLike row marked (err e) s h =
        keep-IsLike row (has_event_id marked.id)
          (postponed connected cfg env (marked.attempts + 1) e) s.outbox (λ x k. k) h

    mark-IsPublished :
        (row : OutboxEvent) (r : Result (Unit {0})) (s : Db)
        → (r ≡ ok tt → was_taken row ≡ true)
        → All (IsLike row) s.outbox
        → All IsPublished s.outbox
        → All IsPublished (mark connected cfg env row r s).outbox
    unfolding mark
    mark-IsPublished row (ok tt) s taken like h =
        update-IsPublished row (processed connected cfg env) s.outbox (λ x t k. t) (taken refl) like
          h
    mark-IsPublished row (err e) s taken like h =
        keep-IsPublished (has_event_id row.id) (postponed connected cfg env (row.attempts + 1) e)
          s.outbox (λ x k. k) h

    settle_all-IsPublished :
        (rows : List OutboxEvent) (s : Db)
        → All (λ row. All (IsLike row) s.outbox) rows
        → All IsPublished s.outbox
        → All IsPublished (settle_all connected cfg env rows s).1.outbox
    unfolding settle_all settle
    settle_all-IsPublished [] s like h = h
    settle_all-IsPublished (row ∷ rows) s like h =
        let (r, s') = handle connected cfg env row s in
        let same = sym (handle-outbox connected cfg env row s) in
        settle_all-IsPublished rows (mark connected cfg env row r s')
          (All-map (λ x. All (IsLike x) s.outbox)
            (λ x. All (IsLike x) (mark connected cfg env row r s').outbox)
            (λ x k. mark-IsLike x row r s' (subst (All (IsLike x)) same k)) rows like.1)
          (mark-IsPublished row r s' (handle-taken row s) (subst (All (IsLike row)) same like.0)
            (subst (All IsPublished) same h))

    keyed-IsLike : (es : List OutboxEvent) → IsKeyed es → All (λ row. All (IsLike row) es) es
    keyed-IsLike es keyed =
        All-map _ (λ row. All (IsLike row) es)
          (λ row h.
            All-map _ (IsLike row)
              (λ e k hit.
                let (same_id, same_type, same_payload) = k hit in
                ap (λ t. js (subject_of t) e.id e.payload) same_type
                ∙ ap (λ i. js (subject_of row.event_type) i e.payload) same_id
                ∙ ap (λ p. js (subject_of row.event_type) row.id p) same_payload)
              es h)
          es keyed

    -- A worker whose publisher has a client marks an event as processed only when the stream has
    -- taken it: if that holds of an outbox with one event under an identifier, it holds after a
    -- batch.
    pub process_batch-IsPublished :
        (size : ℕ) (s : Db)
        → IsKeyed s.outbox
        → All IsPublished s.outbox
        → All IsPublished
            (process_batch
              (record outside { nats = record { enabled = true; js = some js } })
              cfg
              env
              size
              s).1.outbox
    unfolding process_batch transaction batch
    process_batch-IsPublished size s keyed h =
        let rows = batch size env.now s.outbox in
        let like = keyed-IsLike s.outbox keyed in
        let due = filter (is_due env.now) s.outbox in
        let chosen =
          All-take (λ row. All (IsLike row) s.outbox) size (sort_asc (λ e. e.created_at) due)
            (sort_asc-All (λ e. e.created_at) _ due
              (All-filter _ (is_due env.now) s.outbox like)) in
        let (returned, settled) = settle_all-settles connected cfg env rows s in
        let s' = (settle_all connected cfg env rows s).1 in
        let ended : process_batch connected cfg env size s ≡ (ok (length rows), s') =
          ground (arith, returned) in
        subst (λ x. All IsPublished x.outbox) (sym (ap (λ x. x.1) ended))
          (settle_all-IsPublished rows s chosen h)
