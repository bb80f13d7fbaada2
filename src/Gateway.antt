-- ===== src/Gateway.antt =====
-- backend/src/modules/realtime/realtime.gateway.ts: sockets with the user that their token names, the
-- rooms of conversations that they are in, and what is sent to a room.
pub mod Members
pub mod Rooms
use messageries.Base.{
  Bool, List, Option, [], any, filter, if◌then◌else◌, map, none, not, some, ℕ, ◌&&◌, ◌==◌, ◌∷◌,
}
use messageries.Auth.{Jwt, JwtPayload}
use messageries.Base.Text.{Text}
use messageries.Config.{Config}
use messageries.Conversations.{assert_can_access}
use messageries.Db.{Db, Emission, Env, err, ok, typing_event}
use messageries.Presence.{Presence, connect, disconnect, heartbeat}
use messageries.RateLimit.{Counters, check}

pub record Gateway : Type 0 where
  pub db : Db
  pub presence : Presence
  pub counters : Counters
  pub users : ℕ → Option JwtPayload
  pub rooms : List (ℕ × ℕ)

-- The acknowledgement of an event.
pub data Ack : Type 0 where
  accepted_ack rate_limited bad_request_ack forbidden_ack : Ack

-- A typing event as it reaches a socket.
pub record Delivery : Type 0 where
  pub socket : ℕ
  pub event : Emission

-- `socket.join(room)` of a room that the socket may be in already.
abbrev pub join_room : ℕ → ℕ → List (ℕ × ℕ) → List (ℕ × ℕ)
join_room socket conv rooms =
    if any (λ r. r.0 == socket && r.1 == conv) rooms then rooms else (socket, conv) ∷ rooms

abbrev pub leave_room : ℕ → ℕ → List (ℕ × ℕ) → List (ℕ × ℕ)
leave_room socket conv rooms = filter (λ r. not (r.0 == socket && r.1 == conv)) rooms

-- The other sockets of the room.
abbrev pub others_in : ℕ → ℕ → List (ℕ × ℕ) → List (ℕ × ℕ)
others_in socket conv rooms = filter (λ r. r.1 == conv && not (r.0 == socket)) rooms

module _ (jwt : Jwt) (cfg : Config) (env : Env) where
  -- The token of the handshake or of the cookie; without one that verifies the socket is closed.
  unfoldable pub handle_connection : ℕ → Option Text → Gateway → Gateway
  handle_connection socket none g = g
  handle_connection socket (some token) g = elim (jwt.verify env.now token) [
    | none ↦ g
    | some payload ↦ record g {
      users = λ x. if x == socket then some payload else g.users x;
      presence = connect env.now payload.sub socket g.presence;
    }
  ]

  -- The socket leaves its rooms, as the socket server does for one that is closed.
  unfoldable pub handle_disconnect : ℕ → Gateway → Gateway
  handle_disconnect socket g = elim (g.users socket) [
    | none ↦ g
    | some user ↦ record g {
      users = λ x. if x == socket then none else g.users x;
      presence = disconnect env.now user.sub socket g.presence;
      rooms = filter (λ r. not (r.0 == socket)) g.rooms;
    }
  ]

  unfoldable pub rate_limit_ok : JwtPayload → Gateway → Bool × Gateway
  rate_limit_ok user g =
      let (ok_now, counters) =
        check cfg.rate_limit_ws_events_per_minute env.now user.sub g.counters in
      (ok_now, record g { counters = counters })

  -- After the limiter: a conversation has to be named, and access granted to it.
  unfoldable pub join_checked : ℕ → JwtPayload → Option ℕ → Gateway → Ack × Gateway
  join_checked socket user none g = (bad_request_ack, g)
  join_checked socket user (some conv) g =
      let (r, db) = assert_can_access env user.sub user.role conv g.db in
      elim r [
        | err e ↦ (forbidden_ack, record g { db = db })
        | ok a ↦ (accepted_ack, record g { db = db; rooms = join_room socket conv g.rooms })
      ]

  unfoldable pub on_join : ℕ → JwtPayload → Option ℕ → Gateway → Ack × Gateway
  on_join socket user body g =
      let (ok_now, g') = rate_limit_ok user g in
      if ok_now then join_checked socket user body g' else (rate_limited, g')

  unfoldable pub on_leave : ℕ → Option ℕ → Gateway → Ack × Gateway
  on_leave socket none g = (accepted_ack, g)
  on_leave socket (some conv) g =
      (accepted_ack, record g { rooms = leave_room socket conv g.rooms })

  unfoldable pub typing_checked :
      ℕ → JwtPayload → Option ℕ → Bool → Gateway → List Delivery × Gateway
  typing_checked socket user none is_typing g = ([], g)
  typing_checked socket user (some conv) is_typing g =
      let (r, db) = assert_can_access env user.sub user.role conv g.db in
      elim r [
        | err e ↦ ([], record g { db = db })
        | ok a ↦ (
          map (λ m. record { socket = m.0; event = typing_event conv user.sub is_typing })
              (others_in socket conv g.rooms),
          record g { db = db },
        )
      ]

  unfoldable pub on_typing : ℕ → JwtPayload → Option ℕ → Bool → Gateway → List Delivery × Gateway
  on_typing socket user body is_typing g =
      let (ok_now, g') = rate_limit_ok user g in
      if ok_now then typing_checked socket user body is_typing g' else ([], g')

  unfoldable pub on_ping : ℕ → Gateway → Gateway
  on_ping socket g = elim (g.users socket) [
    | none ↦ g
    | some user ↦ record g { presence = heartbeat env.now user.sub g.presence }
  ]
