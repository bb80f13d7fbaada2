-- ===== src/WsGateway/Events.antt =====
-- The events of the sockets of ws-gateway/src/server.ts, which keep a socket in a room once.
use messageries.Base.{
  Bool, Bool-cases, Option, Option-cases, [], arith, if◌then◌else◌, inl, inr, length, ltb, none,
  not, some, subst, sym, ℕ, ◌==◌, ◌≡◌,
}
use messageries.Auth.{Jwt, JwtPayload}
use messageries.Base.Text.{Text}
use messageries.RateLimit.{check}
use messageries.Scanner.{is_empty}
use messageries.WsGateway.{
  WsServer, connection, conv_room, conversation_join, conversation_leave, default_limit,
  disconnection, is_member, max_id_length, typing, user_room,
}
use messageries.WsGateway.Handshake.{extract_token}
use messageries.WsGateway.Membership.{IsSingle, count-filter_le, join-IsSingle}

pub conversation_join-IsSingle :
    (now socket : ℕ) (user : JwtPayload) (body : Option Text) (g : WsServer)
    → IsSingle g
    → IsSingle (conversation_join now socket user body g).1
unfolding conversation_join
conversation_join-IsSingle now socket user none g h s r =
    elim (Bool-cases (check default_limit now user.sub g.counters).0) [
      | inl t ↦ rw (t, conversation_join) (h s r)
      | inr f ↦ rw (f, conversation_join) (h s r)
    ]
conversation_join-IsSingle now socket user (some conv) g h s r =
    let limit = check default_limit now user.sub g.counters in
    let g' : WsServer = record g { counters = limit.1 } in
    elim (Bool-cases limit.0) [
      | inr f ↦ rw (f, conversation_join) (h s r)
      | inl t ↦
          rw (t, conversation_join)
            (elim (Bool-cases (ltb max_id_length (length conv))) [
              | inl long ↦ rw long (h s r)
              | inr short ↦ rw short (join-IsSingle socket (conv_room conv) g' h s r)
            ])
    ]

conversation_leave-IsSingle :
    (socket : ℕ) (body : Option Text) (g : WsServer)
    → IsSingle g
    → IsSingle (conversation_leave socket body g).1
unfolding conversation_leave
conversation_leave-IsSingle socket none g h s r = h s r
conversation_leave-IsSingle socket (some conv) g h s r = elim (Bool-cases (is_empty conv)) [
  | inl t ↦ rw t (h s r)
  | inr f ↦
      let fewer =
        count-filter_le (is_member s r) (λ m. not (is_member socket (conv_room conv) m)) g.rooms in
      rw f (omega (arith, fewer, h s r))
]

typing-IsSingle :
    (now socket : ℕ) (user : JwtPayload) (body : Option Text) (b : Bool) (g : WsServer)
    → IsSingle g
    → IsSingle (typing now socket user body b g).1
unfolding typing
typing-IsSingle now socket user none b g h s r =
    elim (Bool-cases (check default_limit now user.sub g.counters).0) [
      | inr f ↦ rw (f, typing) (h s r)
      | inl t ↦ rw (t, typing) (h s r)
    ]
typing-IsSingle now socket user (some conv) b g h s r =
    elim (Bool-cases (check default_limit now user.sub g.counters).0) [
      | inr f ↦ rw (f, typing) (h s r)
      | inl t ↦ rw (t, typing) (h s r)
    ]

connection-IsSingle :
    (jwt : Jwt) (now socket : ℕ) (auth cookie : Option Text) (g : WsServer)
    → IsSingle g
    → IsSingle (connection jwt now socket auth cookie g)
unfolding connection
connection-IsSingle jwt now socket auth cookie g h s r =
    elim (Option-cases (extract_token auth cookie)) [
      | inl no_token ↦ rw (no_token, connection) (h s r)
      | inr (token, found) ↦
          rw (found, connection)
            (elim (Option-cases (jwt.verify now token)) [
              | inl bad ↦ rw bad (h s r)
              | inr (user, good) ↦
                  let g' : WsServer = record g {
                    users = λ x. if x == socket then some user else g.users x;
                  } in
                  rw good (join-IsSingle socket (user_room user.sub) g' h s r)
            ])
    ]

module _ (jwt : Jwt) where
  -- The events of the sockets, in any order.
  pub data Step (g h : WsServer) : Type 0 where
    connects :
        (now socket : ℕ) (auth cookie : Option Text)
        → g.users socket ≡ none
        → h ≡ connection jwt now socket auth cookie g
        → Step g h
    disconnects : (socket : ℕ) → h ≡ disconnection socket g → Step g h
    joins :
        (now socket : ℕ) (user : JwtPayload) (body : Option Text)
        → g.users socket ≡ some user
        → h ≡ (conversation_join now socket user body g).1
        → Step g h
    leaves : (socket : ℕ) (body : Option Text) → h ≡ (conversation_leave socket body g).1 → Step g h
    types :
        (now socket : ℕ) (user : JwtPayload) (body : Option Text) (b : Bool)
        → g.users socket ≡ some user
        → h ≡ (typing now socket user body b g).1
        → Step g h

  pub data Reach (g : WsServer) : WsServer → Type 0 where
    here : Reach g g
    next : {h k : WsServer} → Reach g h → Step h k → Reach g k

  pub Step-IsSingle : (g h : WsServer) → Step g h → IsSingle g → IsSingle h
  unfolding disconnection
  Step-IsSingle g h (connects now socket auth cookie fresh e) single =
      subst IsSingle (sym e) (connection-IsSingle jwt now socket auth cookie g single)
  Step-IsSingle g h (disconnects socket e) single = subst IsSingle (sym e) (λ s r.
      omega (arith, count-filter_le (is_member s r) (λ m. not (m.0 == socket)) g.rooms, single s r))
  Step-IsSingle g h (joins now socket user body known e) single =
      subst IsSingle (sym e) (conversation_join-IsSingle now socket user body g single)
  Step-IsSingle g h (leaves socket body e) single =
      subst IsSingle (sym e) (conversation_leave-IsSingle socket body g single)
  Step-IsSingle g h (types now socket user body b known e) single =
      subst IsSingle (sym e) (typing-IsSingle now socket user body b g single)

  pub Reach-IsSingle : {g h : WsServer} → g.rooms ≡ [] → Reach g h → IsSingle h
  Reach-IsSingle {g} empty here = λ s r. rw empty (omega arith)
  Reach-IsSingle empty (next {h} {k} r step) = Step-IsSingle h k step (Reach-IsSingle empty r)
