-- ===== src/WsGateway/Staying.antt =====
-- The sockets that stay in a conversation of ws-gateway/src/server.ts while others come and go.
use messageries.Base.{
  ==_refl, Bool, Bool-cases, List, Option, Option-cases, [], any, arith, count, false, filter,
  if◌then◌else◌, inl, inr, length, ltb, none, not, refl, some, subst, sym, true, ℕ, ◌==◌, ◌∷◌, ◌≡◌,
  ◌≤◌,
}
use messageries.Auth.{Jwt, JwtPayload}
use messageries.Base.Text.{Text}
use messageries.RateLimit.{check}
use messageries.Scanner.{is_empty}
use messageries.WsGateway.{
  Room, WsServer, connection, conv_room, conversation_join, conversation_leave, default_limit,
  disconnection, is_member, join, max_id_length, typing, user_room,
}
use messageries.WsGateway.Events.{Step, Step-IsSingle, connects, disconnects, joins, leaves, types}
use messageries.WsGateway.Handshake.{extract_token}
use messageries.WsGateway.Membership.{IsSingle, count_some, room_eq_refl, room_eq_sound}

-- The event ends the stay of the socket in the conversation: the socket leaves it or is closed.
abbrev pub ends : {jwt : Jwt} {g h : WsServer} → ℕ → Text → Step jwt g h → Bool
ends socket conv (connects now s auth cookie fresh e) = false
ends socket conv (disconnects s e) = socket == s
ends socket conv (joins now s user body known e) = false
ends socket conv (leaves s none e) = false
ends socket conv (leaves s (some c) e) = is_member s (conv_room c) (socket, conv_room conv)
ends socket conv (types now s user body b known e) = false

-- The events between two states, none of which ends the stay of the socket in the conversation.
pub data Stays (jwt : Jwt) (socket : ℕ) (conv : Text) (g : WsServer) : WsServer → Type 0 where
  stays : Stays jwt socket conv g g
  lasts :
      {h k : WsServer}
      → Stays jwt socket conv g h
      → (step : Step jwt h k) → ends socket conv step ≡ false
      → Stays jwt socket conv g k

abbrev pub IsIn : ℕ → Room → WsServer → Type 0
IsIn socket room g = any (is_member socket room) g.rooms ≡ true

any-filter :
    (p q : ℕ × Room → Bool) (ms : List (ℕ × Room))
    → ((m : ℕ × Room) → p m ≡ true → q m ≡ true)
    → any p ms ≡ true
    → any p (filter q ms) ≡ true
any-filter p q [] keep h = h
any-filter p q (m ∷ ms) keep h = elim (Bool-cases (p m)) [
  | inl t ↦ rw (keep m t, t) refl
  | inr f ↦ ground (arith, any-filter p q ms keep)
]

is_member_sound :
    (socket : ℕ) (room : Room) (m : ℕ × Room) → is_member socket room m ≡ true → m ≡ (socket, room)
is_member_sound socket room (s, r) h =
    let same_socket : s ≡ socket = ground arith in
    let same_room : r ≡ room = room_eq_sound r room (ground arith) in
    rw (same_socket, same_room) refl

kept_join-IsIn :
    (s : ℕ) (r : Room) (socket : ℕ) (room : Room) (g : WsServer)
    → IsIn socket room g
    → IsIn socket room (join s r g)
unfolding join
kept_join-IsIn s r socket room g h = elim (Bool-cases (any (is_member s r) g.rooms)) [
  | inl t ↦ rw t h
  | inr f ↦ ground arith
]

conversation_join-IsIn :
    (now s : ℕ) (user : JwtPayload) (body : Option Text) (socket : ℕ) (room : Room) (g : WsServer)
    → IsIn socket room g
    → IsIn socket room (conversation_join now s user body g).1
unfolding conversation_join
conversation_join-IsIn now s user none socket room g h =
    elim (Bool-cases (check default_limit now user.sub g.counters).0) [
      | inl t ↦ rw (t, conversation_join) h
      | inr f ↦ rw (f, conversation_join) h
    ]
conversation_join-IsIn now s user (some conv) socket room g h =
    let limit = check default_limit now user.sub g.counters in
    let g' : WsServer = record g { counters = limit.1 } in
    elim (Bool-cases limit.0) [
      | inr f ↦ rw (f, conversation_join) h
      | inl t ↦
          rw (t, conversation_join)
            (elim (Bool-cases (ltb max_id_length (length conv))) [
              | inl long ↦ rw long h
              | inr short ↦ rw short (kept_join-IsIn s (conv_room conv) socket room g' h)
            ])
    ]

typing-IsIn :
    (now s : ℕ) (user : JwtPayload) (body : Option Text) (b : Bool) (socket : ℕ) (room : Room)
    (g : WsServer)
    → IsIn socket room g
    → IsIn socket room (typing now s user body b g).1
unfolding typing
typing-IsIn now s user none b socket room g h =
    elim (Bool-cases (check default_limit now user.sub g.counters).0) [
      | inr f ↦ rw (f, typing) h
      | inl t ↦ rw (t, typing) h
    ]
typing-IsIn now s user (some conv) b socket room g h =
    elim (Bool-cases (check default_limit now user.sub g.counters).0) [
      | inr f ↦ rw (f, typing) h
      | inl t ↦ rw (t, typing) h
    ]

connection-IsIn :
    (jwt : Jwt) (now s : ℕ) (auth cookie : Option Text) (socket : ℕ) (room : Room) (g : WsServer)
    → IsIn socket room g
    → IsIn socket room (connection jwt now s auth cookie g)
unfolding connection
connection-IsIn jwt now s auth cookie socket room g h =
    elim (Option-cases (extract_token auth cookie)) [
      | inl no_token ↦ rw (no_token, connection) h
      | inr (token, found) ↦
          rw (found, connection)
            (elim (Option-cases (jwt.verify now token)) [
              | inl bad ↦ rw bad h
              | inr (user, good) ↦
                  let g' : WsServer = record g {
                    users = λ x. if x == s then some user else g.users x;
                  } in
                  rw good (kept_join-IsIn s (user_room user.sub) socket room g' h)
            ])
    ]

-- A member that the filter throws out is the one that the event ends the stay of.
kept :
    (socket : ℕ) (room : Room) (out : ℕ × Room → Bool) (g : WsServer)
    → out (socket, room) ≡ false
    → IsIn socket room g
    → any (is_member socket room) (filter (λ m. not (out m)) g.rooms) ≡ true
kept socket room out g other =
    any-filter (is_member socket room) (λ m. not (out m)) g.rooms
      (λ m same. rw (is_member_sound socket room m same, other) refl)

ends-IsIn :
    {jwt : Jwt} {g h : WsServer} (socket : ℕ) (conv : Text) (step : Step jwt g h)
    → ends socket conv step ≡ false
    → IsIn socket (conv_room conv) g
    → IsIn socket (conv_room conv) h
unfolding disconnection conversation_leave
ends-IsIn {jwt} {g} {h} socket conv (connects now s auth cookie fresh e) other inside =
    subst (IsIn socket (conv_room conv)) (sym e)
      (connection-IsIn jwt now s auth cookie socket (conv_room conv) g inside)
ends-IsIn {jwt} {g} {h} socket conv (disconnects s e) other inside =
    subst (IsIn socket (conv_room conv)) (sym e)
      (kept socket (conv_room conv) (λ m. m.0 == s) g other inside)
ends-IsIn {jwt} {g} {h} socket conv (joins now s user body known e) other inside =
    subst (IsIn socket (conv_room conv)) (sym e)
      (conversation_join-IsIn now s user body socket (conv_room conv) g inside)
ends-IsIn {jwt} {g} {h} socket conv (leaves s none e) other inside =
    subst (IsIn socket (conv_room conv)) (sym e) inside
ends-IsIn {jwt} {g} {h} socket conv (leaves s (some c) e) other inside =
    subst (IsIn socket (conv_room conv)) (sym e) (elim (Bool-cases (is_empty c)) [
      | inl t ↦ rw t inside
      | inr f ↦ rw f (kept socket (conv_room conv) (is_member s (conv_room c)) g other inside)
    ])
ends-IsIn {jwt} {g} {h} socket conv (types now s user body b known e) other inside =
    subst (IsIn socket (conv_room conv)) (sym e)
      (typing-IsIn now s user body b socket (conv_room conv) g inside)

module _ (jwt : Jwt) (socket : ℕ) (conv : Text) where
  pub Stays-IsIn :
      {g h : WsServer}
      → Stays jwt socket conv g h
      → IsIn socket (conv_room conv) g
      → IsIn socket (conv_room conv) h
  Stays-IsIn stays inside = inside
  Stays-IsIn (lasts way step other) inside =
      ends-IsIn socket conv step other (Stays-IsIn way inside)

  pub Stays-IsSingle : {g h : WsServer} → Stays jwt socket conv g h → IsSingle g → IsSingle h
  Stays-IsSingle stays single = single
  Stays-IsSingle (lasts {h} {k} way step other) single =
      Step-IsSingle jwt h k step (Stays-IsSingle way single)

join-IsIn : (socket : ℕ) (room : Room) (g : WsServer) → IsIn socket room (join socket room g)
unfolding join
join-IsIn socket room g = elim (Bool-cases (any (is_member socket room) g.rooms)) [
  | inl t ↦ rw t t
  | inr f ↦ rw (f, ==_refl socket, room_eq_refl room) refl
]

pub joined-IsIn :
    (now socket : ℕ) (user : JwtPayload) (conv : Text) (g : WsServer)
    → (check default_limit now user.sub g.counters).0 ≡ true
    → length conv ≤ max_id_length
    → IsIn socket (conv_room conv) (conversation_join now socket user (some conv) g).1
unfolding conversation_join
joined-IsIn now socket user conv g allowed short =
    let limit = check default_limit now user.sub g.counters in
    let g' : WsServer = record g { counters = limit.1 } in
    let fits : ltb max_id_length (length conv) ≡ false = ground arith in
    rw (allowed, fits) (join-IsIn socket (conv_room conv) g')

pub inside_once :
    (socket : ℕ) (room : Room) (g : WsServer)
    → IsSingle g
    → IsIn socket room g
    → count (is_member socket room) g.rooms ≡ 1
inside_once socket room g single inside =
    omega (arith, single socket room, count_some (is_member socket room) g.rooms inside)
