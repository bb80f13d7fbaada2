-- ===== src/Gateway/Rooms.antt =====
-- Who is in the rooms of realtime.gateway.ts, over any sequence of events.
use messageries.Base.{
  All, All-filter, Bool, Option, [], none, not, some, subst, sym, ℕ, ◌&&◌, ◌==◌, ◌≡◌,
}
use messageries.Auth.{Jwt, JwtPayload}
use messageries.Base.Text.{Text}
use messageries.Config.{Config}
use messageries.Conversations.Activity.{KeepsActive}
use messageries.Db.{Db, Env}
use messageries.Gateway.{
  Gateway, handle_connection, handle_disconnect, on_join, on_leave, on_ping, on_typing,
  rate_limit_ok,
}
use messageries.Gateway.Members.{
  IsAdmitted, RoomsAdmitted, carried, connected-RoomsAdmitted, disconnected-RoomsAdmitted,
  on_join-RoomsAdmitted, on_ping-RoomsAdmitted, on_typing-IsHeard, room_of,
}

module _ (jwt : Jwt) (cfg : Config) where
  -- The events of the gateway, and the other requests, which change the database but end nobody's
  -- participation. A socket that connects is new.
  pub data Step (g h : Gateway) : Type 0 where
    connects :
        (env : Env) (socket : ℕ) (token : Option Text)
        → g.users socket ≡ none
        → h ≡ handle_connection jwt cfg env socket token g
        → Step g h
    disconnects : (env : Env) (socket : ℕ) → h ≡ handle_disconnect jwt cfg env socket g → Step g h
    joins :
        (env : Env) (socket : ℕ) (user : JwtPayload) (body : Option ℕ)
        → g.users socket ≡ some user
        → h ≡ (on_join jwt cfg env socket user body g).1
        → Step g h
    leaves :
        (env : Env) (socket : ℕ) (body : Option ℕ)
        → h ≡ (on_leave jwt cfg env socket body g).1
        → Step g h
    types :
        (env : Env) (socket : ℕ) (user : JwtPayload) (body : Option ℕ) (is_typing : Bool)
        → g.users socket ≡ some user
        → h ≡ (on_typing jwt cfg env socket user body is_typing g).1
        → Step g h
    pings : (env : Env) (socket : ℕ) → h ≡ on_ping jwt cfg env socket g → Step g h
    elsewhere : (db : Db) → KeepsActive g.db db → h ≡ record g { db = db } → Step g h

  pub data Reach (g : Gateway) : Gateway → Type 0 where
    here : Reach g g
    next : {h k : Gateway} → Reach g h → Step h k → Reach g k

  pub Step-RoomsAdmitted : (g h : Gateway) → Step g h → RoomsAdmitted g → RoomsAdmitted h
  unfolding on_join on_leave on_typing on_ping rate_limit_ok
  Step-RoomsAdmitted g h (connects env socket token fresh e) a =
      subst RoomsAdmitted (sym e) (connected-RoomsAdmitted jwt cfg env socket token g fresh a)
  Step-RoomsAdmitted g h (disconnects env socket e) a =
      subst RoomsAdmitted (sym e) (disconnected-RoomsAdmitted jwt cfg env socket g a)
  Step-RoomsAdmitted g h (joins env socket user body known e) a =
      subst RoomsAdmitted (sym e) (on_join-RoomsAdmitted jwt cfg env socket user body g known a)
  Step-RoomsAdmitted g h (leaves env socket none e) a = subst RoomsAdmitted (sym e) a
  Step-RoomsAdmitted g h (leaves env socket (some conv) e) a =
      subst RoomsAdmitted (sym e)
        (All-filter (IsAdmitted g) (λ r. not (r.0 == socket && r.1 == conv)) g.rooms a)
  Step-RoomsAdmitted g h (types env socket user body b known e) a =
      subst RoomsAdmitted (sym e) (on_typing-IsHeard jwt cfg env socket user body b g a).0
  Step-RoomsAdmitted g h (pings env socket e) a =
      subst RoomsAdmitted (sym e) (on_ping-RoomsAdmitted jwt cfg env socket g a)
  Step-RoomsAdmitted g h (elsewhere db kept e) a =
      subst RoomsAdmitted (sym e)
        (carried jwt cfg g (record g { db = db }) (λ x p k. k) kept g.rooms a)

  -- In every state that the gateway reaches from one without rooms, whoever is in the room of a
  -- conversation takes part in it or is staff.
  pub Reach-RoomsAdmitted : {g h : Gateway} → g.rooms ≡ [] → Reach g h → RoomsAdmitted h
  Reach-RoomsAdmitted {g} empty here = subst (All (IsAdmitted g)) (sym empty) tt
  Reach-RoomsAdmitted empty (next {h} {k} r step) =
      Step-RoomsAdmitted h k step (Reach-RoomsAdmitted empty r)

  -- A typing event reaches only sockets of users who take part in the conversation or are staff, in
  -- every state that the gateway reaches from one without rooms by its events and by other requests
  -- that end nobody's participation.
  pub typing_heard :
      {g h : Gateway} (env : Env) (socket : ℕ) (user : JwtPayload) (body : Option ℕ) (b : Bool)
      → g.rooms ≡ []
      → Reach g h
      → let x = on_typing jwt cfg env socket user body b h in
        All (λ d. IsAdmitted x.1 (d.socket, room_of d.event)) x.0
  typing_heard {g} {h} env socket user body b empty r =
      (on_typing-IsHeard jwt cfg env socket user body b h (Reach-RoomsAdmitted empty r)).1
