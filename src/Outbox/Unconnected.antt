-- ===== src/Outbox/Unconnected.antt =====
-- The worker of backend/src/modules/outbox/outbox.worker.ts beside a publisher of
-- backend/src/modules/nats/nats.service.ts that did not connect.
use messageries.Base.{false, none, ◌≡◌}
use messageries.Config.{Config}
use messageries.Db.{Db, Env}
use messageries.Nats.{NatsPackage, NatsService, on_module_init}
use messageries.Outbox.{Outside}

-- The publisher that the settings switch off.
abbrev pub switched_off : NatsService
switched_off = record { enabled = false; js = none }

module _ (outside : Outside) (cfg : Config) (env : Env) (nats : NatsPackage)
    (cut : nats.connect ≡ false) where
  abbrev started : Outside
  started = record outside { nats = on_module_init nats cfg }

  abbrev without : Outside
  without = record outside { nats = switched_off }
