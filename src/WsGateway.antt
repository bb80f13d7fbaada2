-- ===== src/WsGateway.antt =====
-- ws-gateway/src: the stand-alone WebSocket server, with the token of the handshake (auth.ts), the
-- rooms and the handlers (server.ts), and the events that its NATS consumer takes.
pub mod Handshake
pub mod Membership
pub mod Events
pub mod Staying
pub mod Fanout
use messageries.Base.{
  Bool, List, Option, [], any, false, filter, if◌then◌else◌, length, ltb, map, none, not, some, ℕ,
  ◌&&◌, ◌==◌, ◌∷◌,
}
use messageries.Auth.{Jwt, JwtPayload}
use messageries.Base.Text.{Text, text_eq}
use messageries.Gateway.{Ack, accepted_ack, bad_request_ack, rate_limited}
use messageries.RateLimit.{Counters, check}
use messageries.Scanner.{is_empty}
use messageries.WsGateway.Handshake.{extract_token}

-- `user:<id>` and `conv:<text>`
pub data Room : Type 0 where
  user_room : ℕ → Room
  conv_room : Text → Room

abbrev pub room_eq : Room → Room → Bool
room_eq (user_room u) (user_room v) = u == v
room_eq (user_room u) (conv_room c) = false
room_eq (conv_room c) (user_room u) = false
room_eq (conv_room c) (conv_room d) = text_eq c d

pub record MessageCreatedEvent : Type 0 where
  pub message_id : ℕ
  pub conversation_id : Text
  pub sender_id : ℕ
  pub sequence : ℕ
  pub created_at : ℕ
  pub body : Option Text
  pub moderation_flags : List Text
  pub recipients : List ℕ

-- The events of the stream, by the type that the subject names.
pub data NatsEvent : Type 0 where
  message_created : MessageCreatedEvent → NatsEvent
  message_deleted : (message_id : ℕ) (conversation_id : Text) (sequence : ℕ) → NatsEvent
  message_read : (user_id : ℕ) (conversation_id : Text) (upto_sequence : ℕ) → NatsEvent
  unknown_event : Text → NatsEvent

-- What a browser receives.
pub data ClientEvent : Type 0 where
  created_for_client :
      (id : ℕ) (conversation_id : Text) (sender_id sequence : ℕ) (body : Option Text)
      (created_at : ℕ) (moderation_flags : List Text)
      → ClientEvent
  deleted_for_client : (id : ℕ) (conversation_id : Text) (sequence : ℕ) → ClientEvent
  read_for_client : (user_id : ℕ) (conversation_id : Text) (upto_sequence : ℕ) → ClientEvent
  typing_for_client : (conversation_id : Text) (user_id : ℕ) (is_typing : Bool) → ClientEvent

-- `users` holds the data of the sockets that are connected.
pub record WsServer : Type 0 where
  pub counters : Counters
  pub users : ℕ → Option JwtPayload
  pub rooms : List (ℕ × Room)

abbrev pub is_member : ℕ → Room → ℕ × Room → Bool
is_member socket room m = m.0 == socket && room_eq m.1 room

-- `socket.join(room)`
unfoldable pub join : ℕ → Room → WsServer → WsServer
join socket room g =
    if any (is_member socket room) g.rooms then g else record g { rooms = (socket, room) ∷ g.rooms }

-- `io.to(room).emit(event)`
abbrev pub emit_to : Room → ClientEvent → WsServer → List (ℕ × ClientEvent)
emit_to room event g = map (λ m. (m.0, event)) (filter (λ m. room_eq m.1 room) g.rooms)

-- `socket.to(room).emit(event)`: the other sockets of the room.
abbrev pub emit_to_others : ℕ → Room → ClientEvent → WsServer → List (ℕ × ClientEvent)
emit_to_others socket room event g =
    map (λ m. (m.0, event)) (filter (λ m. room_eq m.1 room && not (m.0 == socket)) g.rooms)

module _ (jwt : Jwt) (now : ℕ) where
  -- The middleware and the connection: a socket without a token that verifies is refused.
  unfoldable pub connection : ℕ → Option Text → Option Text → WsServer → WsServer
  connection socket auth cookie g = elim (extract_token auth cookie) [
    | none ↦ g
    | some token ↦ elim (jwt.verify now token) [
      | none ↦ g
      | some user ↦
          join socket (user_room user.sub)
            (record g { users = λ x. if x == socket then some user else g.users x })
    ]
  ]

-- The socket server takes a socket that is closed out of its rooms.
unfoldable pub disconnection : ℕ → WsServer → WsServer
disconnection socket g = record g {
  users = λ x. if x == socket then none else g.users x;
  rooms = filter (λ m. not (m.0 == socket)) g.rooms;
}

-- The limit per minute that the constructor of the limiter falls back to, and that server.ts keeps.
abbrev pub default_limit : ℕ
default_limit = 120

abbrev pub max_id_length : ℕ
max_id_length = 64

-- The handlers of a socket of the user, at a time; `body` is the conversation where it is a string.
module _ (now socket : ℕ) (user : JwtPayload) where
  unfoldable pub conversation_join : Option Text → WsServer → Ack × WsServer
  conversation_join body g =
      let (allowed, counters) = check default_limit now user.sub g.counters in
      let g' : WsServer = record g { counters = counters } in
      if not allowed then (rate_limited, g') else elim body [
        | none ↦ (bad_request_ack, g')
        | some conv ↦
            if ltb max_id_length (length conv)
            then (bad_request_ack, g')
            else (accepted_ack, join socket (conv_room conv) g')
      ]

  unfoldable pub typing : Option Text → Bool → WsServer → List (ℕ × ClientEvent) × WsServer
  typing body is_typing g =
      let (allowed, counters) = check default_limit now user.sub g.counters in
      let g' : WsServer = record g { counters = counters } in
      if not allowed then ([], g') else elim body [
        | none ↦ ([], g')
        | some conv ↦ (
          emit_to_others socket (conv_room conv) (typing_for_client conv user.sub is_typing) g',
          g',
        )
      ]

-- An empty text leaves nothing.
unfoldable pub conversation_leave : ℕ → Option Text → WsServer → Ack × WsServer
conversation_leave socket none g = (accepted_ack, g)
conversation_leave socket (some conv) g = if is_empty conv then (accepted_ack, g) else (
  accepted_ack,
  record g { rooms = filter (λ m. not (is_member socket (conv_room conv) m)) g.rooms },
)

-- `onEvent`
unfoldable pub on_event : NatsEvent → WsServer → List (ℕ × ClientEvent)
on_event (message_created e) g =
    emit_to (conv_room e.conversation_id)
      (created_for_client e.message_id e.conversation_id e.sender_id e.sequence e.body e.created_at
        e.moderation_flags)
      g
on_event (message_deleted id conv sequence) g =
    emit_to (conv_room conv) (deleted_for_client id conv sequence) g
on_event (message_read user conv upto) g =
    emit_to (conv_room conv) (read_for_client user conv upto) g
on_event (unknown_event type) g = []
