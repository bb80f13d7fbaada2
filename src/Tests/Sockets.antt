-- ===== src/Tests/Sockets.antt =====
-- The theorems on sockets, rooms and limits, with alice in the shop's conversation.
use messageries.Base.{All, [], none, refl, some, true, ◌∷◌, ◌≡◌, ◌≤◌}
use messageries.Auth.{Jwt, JwtPayload}
use messageries.Entities.Accounts.{customer}
use messageries.Gateway.{Gateway, handle_connection, on_join, on_typing}
use messageries.Gateway.Members.{IsAdmitted, room_of}
use messageries.Gateway.Rooms.{Reach, connects, here, joins, next, typing_heard}
use messageries.RateLimit.Bounds.{accepted, accepted-le-limit}
use messageries.Tests.Fixtures.{at, cfg, shop}

abbrev alice_payload : JwtPayload
alice_payload = record { sub = 1; email = 97 ∷ []; role = customer }

-- Every token is that of alice.
abbrev alice_jwt : Jwt
alice_jwt = record { sign = λ now p. []; verify = λ now t. some alice_payload }

abbrev start : Gateway
start = record {
  db = shop;
  presence = λ u. none;
  counters = λ u m. none;
  users = λ s. none;
  rooms = [];
}

abbrev online : Gateway
online = handle_connection alice_jwt cfg (at 1000 0) 7 (some (116 ∷ [])) start

abbrev joined : Gateway
joined = (on_join alice_jwt cfg (at 2000 0) 7 alice_payload (some 20) online).1

known : online.users 7 ≡ some alice_payload
unfolding handle_connection
known = refl

way : Reach alice_jwt cfg start joined
way =
    next (next here (connects (at 1000 0) 7 (some (116 ∷ [])) refl refl))
      (joins (at 2000 0) 7 alice_payload (some 20) known refl)

typing_heard_example :
    let x = on_typing alice_jwt cfg (at 3000 0) 7 alice_payload (some 20) true joined in
    All (λ d. IsAdmitted x.1 (d.socket, room_of d.event)) x.0
typing_heard_example =
    typing_heard alice_jwt cfg (at 3000 0) 7 alice_payload (some 20) true refl way

accepted-le-limit_example :
    accepted 2 1 0 ((1000, 1) ∷ (2000, 1) ∷ (2000, 5) ∷ (3000, 1) ∷ []) (λ u m. none) ≤ 2
accepted-le-limit_example =
    accepted-le-limit 2 1 0 ((1000, 1) ∷ (2000, 1) ∷ (2000, 5) ∷ (3000, 1) ∷ [])
