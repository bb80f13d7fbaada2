-- ===== src/Nats.antt =====
-- backend/src/modules/nats/nats.service.ts: the publisher of events. The package `nats` is a parameter.
use messageries.Base.{
  Bool, Option, Option-cases, String, arith, false, if◌then◌else◌, inl, inr, is_some, none, not,
  some, true, ℕ, ◌&&◌, ◌++◌, ◌≡◌,
}
use messageries.Base.Text.{Text, codes}
use messageries.Config.{Config}
use messageries.Db.{Action, Db, internal, pure, throw_if, ◌>>◌}
use messageries.Entities.Chat.{Payload}

-- What the start of the publisher comes to: which of the calls of `nats` return, and what the stream
-- takes.
pub record NatsPackage : Type 0 where
  pub is_installed : Bool
  pub connect : Bool
  pub jetstream_manager : Bool
  pub js_publish : (subject : Text) → (msg_id : ℕ) → Payload → Bool

-- The service after `onModuleInit`: `js` is there or not.
pub record NatsService : Type 0 where
  pub enabled : Bool
  pub js : Option ((subject : Text) → (msg_id : ℕ) → Payload → Bool)

-- The client is kept as soon as there is one: an error of `ensureStream` is only logged.
unfoldable pub on_module_init : NatsPackage → Config → NatsService
on_module_init nats cfg =
    if cfg.nats_enabled && nats.is_installed && nats.connect && nats.jetstream_manager
    then record { enabled = cfg.nats_enabled; js = some nats.js_publish }
    else record { enabled = cfg.nats_enabled; js = none }

-- `messaging.events.<type>`
abbrev pub subject_of : String → Text
subject_of event_type = codes "messaging.events." ++ codes event_type

module _ (nats : NatsService) where
  -- `true` if it was published, `false` without a client.
  unfoldable pub publish : String → Payload → ℕ → Action Bool
  publish event_type payload msg_id = elim nats.js [
    | none ↦ pure false
    | some js ↦ throw_if (not (js (subject_of event_type) msg_id payload)) internal >> pure true
  ]

  abbrev pub is_enabled : Bool
  is_enabled = nats.enabled && is_some nats.js

  -- Publishing leaves the database alone.
  pub publish-same :
      (event_type : String) (payload : Payload) (msg_id : ℕ) (s : Db)
      → (publish event_type payload msg_id s).1 ≡ s
  unfolding publish
  publish-same event_type payload msg_id s = elim (Option-cases nats.js) [
    | inl missing ↦ ground arith
    | inr (js, there) ↦ ground arith
  ]
