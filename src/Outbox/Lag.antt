-- ===== src/Outbox/Lag.antt =====
-- `publishLagMetric` of backend/src/modules/outbox/outbox.worker.ts: how long the oldest event has been
-- waiting.
use messageries.Base.{
  All, All-map, List, Option, Option-cases, [], arith, if◌then◌else◌, inl, inr, is_none, min, none,
  some, true, ℕ, ◌*◌, ◌+◌, ◌-◌, ◌/◌, ◌<◌, ◌∷◌, ◌≡◌, ◌≤◌,
}
use messageries.Base.Text.{codes}
use messageries.Db.{Db, Env}
use messageries.Entities.Chat.{OutboxEvent}
use messageries.Metrics.{MetricsService, gauge}

-- `MIN(created_at)` over the events that are not processed.
abbrev pub oldest : List OutboxEvent → Option ℕ
oldest [] = none
oldest (e ∷ es) =
    let rest = oldest es in
    if is_none e.processed_at
    then (elim rest [ none ↦ some e.created_at | some at ↦ some (min e.created_at at) ])
    else rest

-- In seconds, rounded as PostgreSQL rounds to an `int`; 0 where nothing waits.
unfoldable pub lag_seconds : ℕ → List OutboxEvent → ℕ
lag_seconds now es = elim (oldest es) [ none ↦ 0 | some at ↦ (now - at + 500) / 1000 ]

-- The measurement, every thirty seconds.
unfoldable pub publish_lag_metric : Env → Db → MetricsService → MetricsService
publish_lag_metric env s m =
    gauge env.now (codes "OutboxLagSeconds") (lag_seconds env.now s.outbox) none (codes "Seconds") m

-- Nothing waits where there is no oldest event.
oldest-none-All :
    (P : OutboxEvent → Type 0) (es : List OutboxEvent)
    → oldest es ≡ none
    → All (λ e. is_none e.processed_at ≡ true → P e) es
oldest-none-All P [] h = tt
oldest-none-All P (e ∷ es) h = elim (Option-cases (oldest es)) [
  | inl empty ↦ (λ waits. absurd (ground arith), oldest-none-All P es empty)
  | inr (other, found) ↦ absurd (ground arith)
]

oldest-All :
    (es : List OutboxEvent) (at : ℕ)
    → oldest es ≡ some at
    → All (λ e. is_none e.processed_at ≡ true → at ≤ e.created_at) es
oldest-All [] at h = tt
oldest-All (e ∷ es) at h = elim (Option-cases (oldest es)) [
  | inl empty ↦ (λ waits. ground arith, oldest-none-All (λ x. at ≤ x.created_at) es empty)
  | inr (other, found) ↦ (
    λ waits. ground arith,
    let earlier : at ≤ other = ground arith in
        All-map (λ x. is_none x.processed_at ≡ true → other ≤ x.created_at)
          (λ x. is_none x.processed_at ≡ true → at ≤ x.created_at)
          (λ x k waits. let le = k waits in omega arith) es (oldest-All es other found),
  )
]

-- No event waits longer than the lag, but for the half second of the rounding.
pub lag_seconds-bound :
    (now : ℕ) (es : List OutboxEvent)
    → All
        (λ e. is_none e.processed_at ≡ true → now < e.created_at + lag_seconds now es * 1000 + 500)
        es
unfolding lag_seconds
lag_seconds-bound now es = elim (Option-cases (oldest es)) [
  | inl empty ↦ oldest-none-All (λ e. now < e.created_at + lag_seconds now es * 1000 + 500) es empty
  | inr (at, found) ↦
      let lag : lag_seconds now es ≡ (now - at + 500) / 1000 = ground (arith, found) in
      All-map (λ e. is_none e.processed_at ≡ true → at ≤ e.created_at)
        (λ e. is_none e.processed_at ≡ true → now < e.created_at + lag_seconds now es * 1000 + 500)
        (λ e k waits. let le = k waits in omega arith) es (oldest-All es at found)
]
