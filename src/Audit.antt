-- ===== src/Audit.antt =====
-- backend/src/modules/audit/audit.service.ts: a row that cannot be written is only logged.
use messageries.Base.{ℕ, String, Option, none, ◌∷◌, if◌then◌else◌}
use messageries.Entities.Accounts.{Metadata}
use messageries.Db.{Action, Env, modify}

-- `audit_id` numbers the identifier of the row among those of the call.
abbrev pub log : Env → ℕ → Option ℕ → String → String → Option ℕ → Metadata → Action (Unit {0})
log env audit_id actor action target_type target metadata = modify λ s.
    if env.audit_up
    then record s {
      audit_log =
          record {
            id = env.uuid audit_id;
            actor_id = actor;
            action = action;
            target_type = target_type;
            target_id = target;
            ip = none;
            user_agent = none;
            metadata = metadata;
            created_at = env.now;
          }
          ∷ s.audit_log;
    }
    else s
