-- ===== src/Gateway/Members.antt =====
-- Who is in the rooms of realtime.gateway.ts after each of its handlers.
use messageries.Base.{
  All, Bool, Bool-cases, List, Option, Option-cases, [], any, arith, false, filter, if◌then◌else◌,
  inl, inr, map, none, not, refl, some, subst, sym, true, ℕ, ◌&&◌, ◌==◌, ◌||◌, ◌∙◌, ◌∷◌, ◌≡◌,
}
use messageries.Auth.{Jwt, JwtPayload}
use messageries.Base.Text.{Text}
use messageries.Config.{Config}
use messageries.Conversations.{Granted, assert_can_access}
use messageries.Conversations.Access.{assert_can_access_inv}
use messageries.Conversations.Activity.{KeepsActive, assert_can_access-KeepsActive, has_active}
use messageries.Db.{
  Db, Emission, Env, created_event, deleted_event, ok, outcome, read_event, typing_event,
}
use messageries.Entities.Accounts.{is_staff}
use messageries.Gateway.{
  Delivery, Gateway, accepted_ack, forbidden_ack, handle_connection, handle_disconnect,
  join_checked, join_room, on_join, on_ping, on_typing, others_in, rate_limit_ok, typing_checked,
}
use messageries.Presence.{connect, disconnect}

-- The user takes part in the conversation, or is staff.
abbrev pub admitted : Db → ℕ → JwtPayload → Bool
admitted db conv p = has_active conv p.sub db || is_staff p.role

-- A member of a room whose socket has a user who is admitted.
abbrev pub IsAdmitted : Gateway → ℕ × ℕ → Type 0
IsAdmitted g r = (p : JwtPayload) × (g.users r.0 ≡ some p) × (admitted g.db r.1 p ≡ true)

abbrev pub RoomsAdmitted : Gateway → Type 0
RoomsAdmitted g = All (IsAdmitted g) g.rooms

access-admitted :
    (env : Env) (user : JwtPayload) (conv : ℕ) (db db' : Db) (a : Granted)
    → assert_can_access env user.sub user.role conv db ≡ (ok a, db')
    → admitted db' conv user ≡ true
access-admitted env user conv db db' a h =
    let (found, how) = assert_can_access_inv env user.sub user.role conv db db' a h in
    elim how [
      | inl (p, member, role, same) ↦ ground arith
      | inr (staff, role, entered) ↦ ground arith
    ]

-- The conversation that a typing event is about.
abbrev pub room_of : Emission → ℕ
room_of (created_event id conv sender sequence body at) = conv
room_of (deleted_event id conv sequence) = conv
room_of (read_event conv user upto) = conv
room_of (typing_event conv user is_typing) = conv

-- The rooms are admitted, and so is every socket that an event of a room reaches.
abbrev pub IsHeard : List Delivery × Gateway → Type 0
IsHeard x = RoomsAdmitted x.1 × All (λ d. IsAdmitted x.1 (d.socket, room_of d.event)) x.0

abbrev deliveries : ℕ → ℕ → Bool → List (ℕ × ℕ) → List Delivery
deliveries conv user b =
    map (λ (m : ℕ × ℕ). record { socket = m.0; event = typing_event conv user b })

heard-others :
    (g : Gateway) (socket conv user : ℕ) (b : Bool) (rooms : List (ℕ × ℕ))
    → All (IsAdmitted g) rooms
    → All
        (λ d. IsAdmitted g (d.socket, room_of d.event))
        (deliveries conv user b (others_in socket conv rooms))
heard-others g socket conv user b [] a = tt
heard-others g socket conv user b (r ∷ rooms) (mine, rest) =
    elim (Bool-cases (r.1 == conv && not (r.0 == socket))) [
      | inr f ↦ rw f (heard-others g socket conv user b rooms rest)
      | inl t ↦
          let same : r.1 ≡ conv = ground arith in
          rw t (
            subst (λ c. IsAdmitted g (r.0, c)) same mine,
            heard-others g socket conv user b rooms rest,
          )
    ]

join_room-All :
    (P : ℕ × ℕ → Type 0) (socket conv : ℕ) (rooms : List (ℕ × ℕ))
    → P (socket, conv)
    → All P rooms
    → All P (join_room socket conv rooms)
join_room-All P socket conv rooms new old =
    elim (Bool-cases (any (λ r. r.0 == socket && r.1 == conv) rooms)) [
      | inl t ↦ rw t old
      | inr f ↦ rw f (new, old)
    ]

module _ (jwt : Jwt) (cfg : Config) where
  -- Members stay admitted where their users stay and nobody's participation ends.
  pub carried :
      (g h : Gateway)
      → ((socket : ℕ) (p : JwtPayload) → g.users socket ≡ some p → h.users socket ≡ some p)
      → KeepsActive g.db h.db
      → (rooms : List (ℕ × ℕ)) → All (IsAdmitted g) rooms
      → All (IsAdmitted h) rooms
  carried g h users kept [] a = tt
  carried g h users kept (r ∷ rooms) ((p, known, granted), rest) =
      ((p, users r.0 p known, ground (arith, kept r.1 p.sub)), carried g h users kept rooms rest)

  joined-RoomsAdmitted :
      (env : Env) (socket : ℕ) (user : JwtPayload) (body : Option ℕ) (g : Gateway)
      → g.users socket ≡ some user
      → RoomsAdmitted g
      → RoomsAdmitted (join_checked jwt cfg env socket user body g).1
  unfolding join_checked
  joined-RoomsAdmitted env socket user none g known a = a
  joined-RoomsAdmitted env socket user (some conv) g known a =
      let access = assert_can_access env user.sub user.role conv in
      let kept = assert_can_access-KeepsActive env user.sub user.role conv g.db in
      elim (outcome (access g.db)) [
        | inr (e, db, refused) ↦
            let g' = record g { db = db } in
            let ended : join_checked jwt cfg env socket user (some conv) g ≡ (forbidden_ack, g') =
              ground arith in
            subst (λ x. RoomsAdmitted x.1) (sym ended)
              (carried g g' (λ x p h. h) (subst (λ x. KeepsActive g.db x.1) refused kept) g.rooms a)
        | inl (granted, db, done) ↦
            let g' : Gateway = record g { db = db; rooms = join_room socket conv g.rooms } in
            let ended : join_checked jwt cfg env socket user (some conv) g ≡ (accepted_ack, g') =
              ground arith in
            subst (λ x. RoomsAdmitted x.1) (sym ended)
              (join_room-All (IsAdmitted g') socket conv g.rooms
                (user, known, access-admitted env user conv g.db db granted done)
                (carried g g' (λ x p h. h) (subst (λ x. KeepsActive g.db x.1) done kept) g.rooms a))
      ]

  typed-RoomsAdmitted :
      (env : Env) (socket : ℕ) (user : JwtPayload) (body : Option ℕ) (b : Bool) (g : Gateway)
      → RoomsAdmitted g
      → IsHeard (typing_checked jwt cfg env socket user body b g)
  unfolding typing_checked
  typed-RoomsAdmitted env socket user none b g a = (a, tt)
  typed-RoomsAdmitted env socket user (some conv) b g a =
      let access = assert_can_access env user.sub user.role conv in
      let kept = assert_can_access-KeepsActive env user.sub user.role conv g.db in
      elim (outcome (access g.db)) [
        | inr (e, db, refused) ↦
            let g' = record g { db = db } in
            let ended : typing_checked jwt cfg env socket user (some conv) b g ≡ ([], g') =
              ground arith in
            subst IsHeard (sym ended) (
              carried g g' (λ x p h. h) (subst (λ x. KeepsActive g.db x.1) refused kept) g.rooms a,
              tt,
            )
        | inl (granted, db, done) ↦
            let g' : Gateway = record g { db = db } in
            let sent = deliveries conv user.sub b (others_in socket conv g.rooms) in
            let ended : typing_checked jwt cfg env socket user (some conv) b g ≡ (sent, g') =
              ground arith in
            let still =
              carried g g' (λ x p h. h) (subst (λ x. KeepsActive g.db x.1) done kept) g.rooms a in
            subst IsHeard (sym ended) (still, heard-others g' socket conv user.sub b g.rooms still)
      ]

  pub on_join-RoomsAdmitted :
      (env : Env) (socket : ℕ) (user : JwtPayload) (body : Option ℕ) (g : Gateway)
      → g.users socket ≡ some user
      → RoomsAdmitted g
      → RoomsAdmitted (on_join jwt cfg env socket user body g).1
  unfolding on_join rate_limit_ok
  on_join-RoomsAdmitted env socket user body g known a =
      let limit = rate_limit_ok jwt cfg env user g in
      elim (Bool-cases limit.0) [
        | inl t ↦ rw (t, on_join) (joined-RoomsAdmitted env socket user body limit.1 known a)
        | inr f ↦ rw (f, on_join) a
      ]

  pub on_typing-IsHeard :
      (env : Env) (socket : ℕ) (user : JwtPayload) (body : Option ℕ) (b : Bool) (g : Gateway)
      → RoomsAdmitted g
      → IsHeard (on_typing jwt cfg env socket user body b g)
  unfolding on_typing rate_limit_ok
  on_typing-IsHeard env socket user body b g a =
      let limit = rate_limit_ok jwt cfg env user g in
      elim (Bool-cases limit.0) [
        | inl t ↦ rw (t, on_typing) (typed-RoomsAdmitted env socket user body b limit.1 a)
        | inr f ↦ rw (f, on_typing) (a, tt)
      ]

  pub on_ping-RoomsAdmitted :
      (env : Env) (socket : ℕ) (g : Gateway)
      → RoomsAdmitted g
      → RoomsAdmitted (on_ping jwt cfg env socket g)
  unfolding on_ping
  on_ping-RoomsAdmitted env socket g a = elim (Option-cases (g.users socket)) [
    | inl unknown ↦ rw (unknown, on_ping) a
    | inr (user, known) ↦ rw (known, on_ping) a
  ]

  set_user-stays :
      (users : ℕ → Option JwtPayload) (socket : ℕ) (payload : JwtPayload)
      → users socket ≡ none
      → (x : ℕ) (p : JwtPayload) → users x ≡ some p
      → (if x == socket then some payload else users x) ≡ some p
  set_user-stays users socket payload fresh x p h = elim (Bool-cases (x == socket)) [
    | inr f ↦ rw f h
    | inl t ↦
        let same : x ≡ socket = ground arith in
        let clash : none ≡ some p = sym fresh ∙ subst (λ y. users y ≡ some p) same h in
        ground (arith, clash)
  ]

  pub connected-RoomsAdmitted :
      (env : Env) (socket : ℕ) (token : Option Text) (g : Gateway)
      → g.users socket ≡ none
      → RoomsAdmitted g
      → RoomsAdmitted (handle_connection jwt cfg env socket token g)
  unfolding handle_connection
  connected-RoomsAdmitted env socket none g fresh a = a
  connected-RoomsAdmitted env socket (some token) g fresh a =
      elim (Option-cases (jwt.verify env.now token)) [
        | inl bad ↦ rw (bad, handle_connection) a
        | inr (payload, good) ↦
            let g' : Gateway = record g {
              users = λ x. if x == socket then some payload else g.users x;
              presence = connect env.now payload.sub socket g.presence;
            } in
            let ended : handle_connection jwt cfg env socket (some token) g ≡ g' = ground arith in
            subst RoomsAdmitted (sym ended) (
              carried g g' (set_user-stays g.users socket payload fresh) (λ conv user h. h) g.rooms
                a)
      ]

  left-All :
      (g h : Gateway) (socket : ℕ)
      → ((x : ℕ) → (x == socket) ≡ false → h.users x ≡ g.users x)
      → h.db ≡ g.db
      → (rooms : List (ℕ × ℕ)) → All (IsAdmitted g) rooms
      → All (IsAdmitted h) (filter (λ r. not (r.0 == socket)) rooms)
  left-All g h socket users same [] a = tt
  left-All g h socket users same (r ∷ rooms) ((p, known, granted), rest) =
      elim (Bool-cases (r.0 == socket)) [
        | inl t ↦ rw t (left-All g h socket users same rooms rest)
        | inr f ↦ rw f (
          (p, users r.0 f ∙ known, subst (λ d. admitted d r.1 p ≡ true) (sym same) granted),
          left-All g h socket users same rooms rest,
        )
      ]

  pub disconnected-RoomsAdmitted :
      (env : Env) (socket : ℕ) (g : Gateway)
      → RoomsAdmitted g
      → RoomsAdmitted (handle_disconnect jwt cfg env socket g)
  unfolding handle_disconnect
  disconnected-RoomsAdmitted env socket g a = elim (Option-cases (g.users socket)) [
    | inl unknown ↦ rw (unknown, handle_disconnect) a
    | inr (user, known) ↦
        let g' : Gateway = record g {
          users = λ x. if x == socket then none else g.users x;
          presence = disconnect env.now user.sub socket g.presence;
          rooms = filter (λ r. not (r.0 == socket)) g.rooms;
        } in
        let ended : handle_disconnect jwt cfg env socket g ≡ g' = ground arith in
        subst RoomsAdmitted (sym ended) (left-All g g' socket (λ x f. rw f refl) refl g.rooms a)
  ]
