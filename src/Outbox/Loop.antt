-- ===== src/Outbox/Loop.antt =====
-- `loop` of backend/src/modules/outbox/outbox.worker.ts: a tick after the other, with a pause that
-- depends on how the batch ended. A tick sets the timer of the next at its end, so `running` is false
-- whenever one starts.
use messageries.Base.{if◌then◌else◌, suc, zero, ℕ, ◌==◌}
use messageries.Config.{Config}
use messageries.Db.{Db, Env, Result, err, ok}
use messageries.Outbox.{Outside, process_batch, processed}

abbrev pub batch_size : ℕ
batch_size = 20

-- In milliseconds: after a batch without events, after one with events, and after an error.
abbrev pub idle_pause : ℕ
idle_pause = 1500

abbrev pub busy_pause : ℕ
busy_pause = 50

abbrev pub error_pause : ℕ
error_pause = 3000

abbrev pub pause_after : Result ℕ → ℕ
pause_after (ok processed) = if processed == 0 then idle_pause else busy_pause
pause_after (err e) = error_pause

module _ (outside : Outside) (cfg : Config) where
  -- The pause that a tick sets, and what it leaves.
  unfoldable pub tick : Env → Db → ℕ × Db
  tick env s = let (r, s') = process_batch outside cfg env batch_size s in (pause_after r, s')

  -- The database before the tick of a number; each tick has its time and its random choices.
  unfoldable pub before_tick : ℕ → (ℕ → Env) → Db → Db
  before_tick zero env s = s
  before_tick (suc n) env s = before_tick n (λ i. env (suc i)) (tick (env 0) s).1
