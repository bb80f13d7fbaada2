-- ===== src/Outbox/Draining.antt =====
-- The loop of backend/src/modules/outbox/outbox.worker.ts works a backlog off.
use messageries.Base.{
  All, All-map, All-take, Bool, Bool-cases, List, [], any, ap, arith, count, false, filter, inl,
  inr, length, refl, subst, suc, sym, true, update_where, zero, ℕ, ◌&&◌, ◌+◌, ◌<◌, ◌^◌, ◌∙◌, ◌∷◌,
  ◌≡◌, ◌≤◌, ◌⊎◌,
}
use messageries.Base.Sorting.{sort_asc, sort_asc-All}
use messageries.Config.{Config}
use messageries.Db.{Db, Env, Error, Result, err, ok, transaction}
use messageries.Entities.Chat.{OutboxEvent}
use messageries.Outbox.{
  Outside, backoff, batch, handle, has_event_id, is_due, mark, postponed, process_batch, processed,
  settle, settle_all,
}
use messageries.Outbox.Batches.{handle-outbox, power_pos, settle_all-settles}
use messageries.Outbox.Loop.{batch_size, before_tick, idle_pause, pause_after, tick}

module _ (q p : OutboxEvent → Bool) (f : OutboxEvent → OutboxEvent) where
  count-update-le :
      ((x : OutboxEvent) → p (f x) ≡ false)
      → (es : List OutboxEvent) → count p (update_where q f es) ≤ count p es
  count-update-le h [] = omega arith
  count-update-le h (e ∷ es) = ground (arith, h e, count-update-le h es)

  count-update-lt :
      ((x : OutboxEvent) → p (f x) ≡ false)
      → (es : List OutboxEvent) → any (λ x. q x && p x) es ≡ true
      → count p (update_where q f es) + 1 ≤ count p es
  count-update-lt h [] found = absurd (ground arith)
  count-update-lt h (e ∷ es) found = elim (Bool-cases (q e && p e)) [
    | inl hit ↦ ground (arith, h e, count-update-le h es)
    | inr miss ↦ ground (arith, h e, count-update-lt h es)
  ]

first_or_none :
    (es : List OutboxEvent)
    → (es ≡ []) ⊎ ((e : OutboxEvent) × (rest : List OutboxEvent) × (es ≡ e ∷ rest))
first_or_none [] = inl refl
first_or_none (e ∷ rest) = inr (e, rest, refl)

-- Every event that is chosen is found again by its identifier.
found_again :
    (d p : OutboxEvent → Bool)
    → ((x : OutboxEvent) → d x ≡ true → p x ≡ true)
    → (es : List OutboxEvent)
    → All (λ r. any (λ x. has_event_id r.id x && p x) es ≡ true) (filter d es)
found_again d p h [] = tt
found_again d p h (e ∷ es) =
    let rest =
      All-map (λ r. any (λ x. has_event_id r.id x && p x) es ≡ true)
        (λ r. any (λ x. has_event_id r.id x && p x) (e ∷ es) ≡ true) (λ r k. ground (arith, k))
        (filter d es) (found_again d p h es) in
    elim (Bool-cases (d e)) [
      | inl yes_due ↦ rw yes_due (ground (arith, h e yes_due), rest)
      | inr not_due ↦ rw not_due rest
    ]

-- The first attempt already waits for two seconds.
backoff_least : (attempts : ℕ) → 2 ≤ backoff (attempts + 1)
backoff_least attempts =
    let shifted : 2 ^ (attempts + 1) ≡ 2 ^ suc attempts = ap (λ n. 2 ^ n) (omega arith) in
    let big : 2 ≤ 2 ^ suc attempts = omega (arith, power_pos attempts) in
    ground (arith, shifted, big)

module _ (outside : Outside) (cfg : Config) where
  -- What is still due by a time, and is not handed on.
  abbrev pub backlog : ℕ → Db → ℕ
  backlog until s = count (is_due until) s.outbox

  module _ (env : Env) (until : ℕ) (soon : until < env.now + 2000) where
    postponed-later :
        (attempts : ℕ) (error : Error) (e : OutboxEvent)
        → is_due until (postponed outside cfg env (attempts + 1) error e) ≡ false
    postponed-later attempts error e = ground (arith, backoff_least attempts)

    mark-backlog_le :
        (row : OutboxEvent) (r : Result (Unit {0})) (s : Db)
        → backlog until (mark outside cfg env row r s) ≤ backlog until s
    unfolding mark
    mark-backlog_le row (ok a) s =
        count-update-le (has_event_id row.id) (is_due until) (processed outside cfg env) (λ x. refl)
          s.outbox
    mark-backlog_le row (err e) s =
        count-update-le (has_event_id row.id) (is_due until)
          (postponed outside cfg env (row.attempts + 1) e) (postponed-later row.attempts e) s.outbox

    mark-backlog_lt :
        (row : OutboxEvent) (r : Result (Unit {0})) (s : Db)
        → any (λ x. has_event_id row.id x && is_due until x) s.outbox ≡ true
        → backlog until (mark outside cfg env row r s) + 1 ≤ backlog until s
    unfolding mark
    mark-backlog_lt row (ok a) s found =
        count-update-lt (has_event_id row.id) (is_due until) (processed outside cfg env) (λ x. refl)
          s.outbox found
    mark-backlog_lt row (err e) s found =
        count-update-lt (has_event_id row.id) (is_due until)
          (postponed outside cfg env (row.attempts + 1) e) (postponed-later row.attempts e) s.outbox
          found

    settle_all-backlog_le :
        (rows : List OutboxEvent) (s : Db)
        → backlog until (settle_all outside cfg env rows s).1 ≤ backlog until s
    unfolding settle_all settle
    settle_all-backlog_le [] s = omega arith
    settle_all-backlog_le (row ∷ rows) s =
        let (r, s') = handle outside cfg env row s in
        let same = handle-outbox outside cfg env row s in
        let one = mark-backlog_le row r s' in
        let rest = settle_all-backlog_le rows (mark outside cfg env row r s') in
        ground (arith, same, one, rest)

    settle_all-backlog_lt :
        (row : OutboxEvent) (rows : List OutboxEvent) (s : Db)
        → any (λ x. has_event_id row.id x && is_due until x) s.outbox ≡ true
        → backlog until (settle_all outside cfg env (row ∷ rows) s).1 + 1 ≤ backlog until s
    unfolding settle_all settle
    settle_all-backlog_lt row rows s found =
        let (r, s') = handle outside cfg env row s in
        let same = handle-outbox outside cfg env row s in
        let one =
          mark-backlog_lt row r s'
            (ap (any (λ x. has_event_id row.id x && is_due until x)) same ∙ found) in
        let rest = settle_all-backlog_le rows (mark outside cfg env row r s') in
        ground (arith, same, one, rest)

    batch-found :
        (size : ℕ) (s : Db)
        → env.now ≤ until
        → All
            (λ r. any (λ x. has_event_id r.id x && is_due until x) s.outbox ≡ true)
            (batch size env.now s.outbox)
    unfolding batch
    batch-found size s early =
        let due = filter (is_due env.now) s.outbox in
        let found = found_again (is_due env.now) (is_due until) (λ x h. ground arith) s.outbox in
        All-take _ size (sort_asc (λ e. e.created_at) due)
          (sort_asc-All (λ e. e.created_at) _ due found)

    -- A tick is idle, or it makes the backlog smaller.
    tick_progress :
        (s : Db)
        → env.now ≤ until
        → ((tick outside cfg env s).0 ≡ idle_pause)
          ⊎ (backlog until (tick outside cfg env s).1 + 1 ≤ backlog until s)
    unfolding tick process_batch transaction
    tick_progress s early =
        let rows = batch batch_size env.now s.outbox in
        let found = batch-found batch_size s early in
        let (returned, settled) = settle_all-settles outside cfg env rows s in
        let s' = (settle_all outside cfg env rows s).1 in
        let ended : process_batch outside cfg env batch_size s ≡ (ok (length rows), s') =
          ground (arith, returned) in
        elim (first_or_none rows) [
          | inl empty ↦
              inl (ap (λ x. pause_after x.0) ended ∙ ap (λ r. pause_after (ok (length r))) empty)
          | inr (row, rest, full) ↦
              let hit =
                (subst (All (λ r. any (λ x. has_event_id r.id x && is_due until x) s.outbox ≡ true))
                  full found).0 in
              let less = settle_all-backlog_lt row rest s hit in
              inr (
                subst (λ x. backlog until x + 1 ≤ backlog until s) (sym (ap (λ x. x.1) ended))
                  (subst
                    (λ r. backlog until (settle_all outside cfg env r s).1 + 1 ≤ backlog until s)
                    (sym full) less))
        ]

  progress_from :
      (now : ℕ) (env : ℕ → Env) (s : Db)
      → ((i : ℕ) → (now ≤ (env i).now) × ((env i).now < now + 2000))
      → ((tick outside cfg (env 0) s).0 ≡ idle_pause)
        ⊎ (backlog (now + 1999) (tick outside cfg (env 0) s).1 + 1 ≤ backlog (now + 1999) s)
  progress_from now env s in_time =
      let (from, until) = in_time 0 in
      tick_progress (env 0) (now + 1999) (omega arith) s (omega arith)

  -- The backlog of the outbox is worked off. Whatever fails and whatever the later random choices, if
  -- the ticks of the loop fall into less than two seconds, one of the first of them finds nothing more
  -- to do: at the latest the tick whose number is that of the events that are due by the end of that
  -- time.
  pub loop_drains :
      (bound now : ℕ) (env : ℕ → Env) (s : Db)
      → ((i : ℕ) → (now ≤ (env i).now) × ((env i).now < now + 2000))
      → backlog (now + 1999) s ≤ bound
      → (k : ℕ) × (k ≤ bound)
        × ((tick outside cfg (env k) (before_tick outside cfg k env s)).0 ≡ idle_pause)
  unfolding before_tick
  loop_drains zero now env s in_time few = elim (progress_from now env s in_time) [
    | inl idle ↦ (0, omega arith, idle)
    | inr less ↦ absurd (omega arith)
  ]
  loop_drains (suc b) now env s in_time few = elim (progress_from now env s in_time) [
    | inl idle ↦ (0, omega arith, idle)
    | inr less ↦
        let (k, early, idle) =
          loop_drains b now (λ i. env (suc i)) (tick outside cfg (env 0) s).1 (λ i. in_time (suc i))
            (omega arith) in
        (suc k, omega arith, idle)
  ]
