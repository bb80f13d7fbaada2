-- ===== src/Tests/Servers.antt =====
-- The theorem on the stand-alone WebSocket server, with a user who is in no conversation.
use messageries.Base.{[], arith, none, refl, some, true, ◌∷◌, ◌≡◌}
use messageries.Auth.{Jwt, JwtPayload}
use messageries.Entities.Accounts.{customer}
use messageries.RateLimit.{check, incremented}
use messageries.WsGateway.{
  MessageCreatedEvent, WsServer, connection, conversation_join, conversation_leave, default_limit,
  join, message_created, on_event,
}
use messageries.WsGateway.Events.{Reach, connects, here, leaves, next}
use messageries.WsGateway.Fanout.{joined_hears}
use messageries.WsGateway.Staying.{Stays, lasts, stays}
use messageries.WsGateway.Membership.{deliveries_to}
use messageries.WsGateway.Handshake.{extract_token}

abbrev stranger : JwtPayload
stranger = record { sub = 9; email = 98 ∷ []; role = customer }

abbrev stranger_jwt : Jwt
stranger_jwt = record { sign = λ now p. []; verify = λ now t. some stranger }

abbrev server : WsServer
server = record { counters = λ u m. none; users = λ s. none; rooms = [] }

abbrev server_on : WsServer
server_on = connection stranger_jwt 1000 4 (some (116 ∷ [])) none server

abbrev private_message : MessageCreatedEvent
private_message = record {
  message_id = 50;
  conversation_id = 50 ∷ 48 ∷ [];
  sender_id = 1;
  sequence = 1;
  created_at = 900;
  body = some (104 ∷ 105 ∷ []);
  moderation_flags = [];
  recipients = 2 ∷ [];
}

way : Reach stranger_jwt server server_on
way = next here (connects 1000 4 (some (116 ∷ [])) none refl refl)

allowed : (check default_limit 2000 9 server_on.counters).0 ≡ true
unfolding check connection join incremented extract_token
allowed = refl

abbrev joined_server : WsServer
joined_server = (conversation_join 2000 4 stranger (some (50 ∷ 48 ∷ [])) server_on).1

-- Another socket of the same user leaves the conversation.
abbrev later_server : WsServer
later_server = (conversation_leave 5 (some (50 ∷ 48 ∷ [])) joined_server).1

stay : Stays stranger_jwt 4 (50 ∷ 48 ∷ []) joined_server later_server
stay = lasts stays (leaves 5 (some (50 ∷ 48 ∷ [])) refl) refl

joined_hears_example :
    let left = (conversation_leave 4 (some (50 ∷ 48 ∷ [])) later_server).1 in
    (deliveries_to 4 (on_event (message_created private_message) later_server) ≡ 1)
    × (deliveries_to 4 (on_event (message_created private_message) left) ≡ 0)
joined_hears_example =
    joined_hears stranger_jwt 2000 4 stranger private_message refl way allowed (omega arith) refl
      stay
