-- ===== src/Realtime.antt =====
-- backend/src/modules/realtime/realtime.service.ts: events to the room of a conversation, unless a
-- dedicated gateway sends them. An event is taken to reach the server of sockets.
use messageries.Base.{if◌then◌else◌, ℕ, ◌∷◌}
use messageries.Base.Text.{Text}
use messageries.Config.{Config}
use messageries.Db.{Action, Emission, created_event, deleted_event, modify, read_event}
use messageries.Entities.Chat.{Message}

abbrev emit : Config → Emission → Action (Unit {0})
emit cfg event =
    modify λ s. if cfg.ws_gateway_dedicated then s else record s { emitted = event ∷ s.emitted }

unfoldable pub publish_message_created : Config → Message → Text → Action (Unit {0})
publish_message_created cfg m body =
    emit cfg (created_event m.id m.conversation_id m.sender_id m.sequence body m.created_at)

unfoldable pub publish_message_deleted : Config → Message → Action (Unit {0})
publish_message_deleted cfg m = emit cfg (deleted_event m.id m.conversation_id m.sequence)

unfoldable pub publish_read_receipt : Config → ℕ → ℕ → ℕ → Action (Unit {0})
publish_read_receipt cfg conv user upto = emit cfg (read_event conv user upto)
