-- ===== src/WsGateway/Handshake.antt =====
-- ws-gateway/src/auth.ts and `extractToken` of realtime.gateway.ts: where the token of a socket stands.
use messageries.Base.{Option, [], if◌then◌else◌, none, some, ◌==◌, ◌∷◌}
use messageries.Base.Text.{Text, codes}
use messageries.Scanner.{is_empty}

abbrev pub cookie_name : Text
cookie_name = codes "access_token="

-- `[^;]+` takes all it can.
abbrev pub value_of : Text → Text
value_of [] = []
value_of (c ∷ t) = if c == 59 then [] else c ∷ value_of t

-- The match of `access_token=([^;]+)` at the start of the text.
unfoldable pub match_here : Text → Text → Option Text
match_here [] t = if is_empty (value_of t) then none else some (value_of t)
match_here (c ∷ name) [] = none
match_here (c ∷ name) (d ∷ t) = let rest = match_here name t in if c == d then rest else none

-- The leftmost match.
unfoldable pub cookie_token : Text → Option Text
cookie_token [] = none
cookie_token (c ∷ t) =
    let later = cookie_token t in
    elim (match_here cookie_name (c ∷ t)) [ none ↦ later | some token ↦ some token ]

unfoldable pub from_cookie : Option Text → Option Text
from_cookie none = none
from_cookie (some cookie) = cookie_token cookie

-- `auth` is the token of the handshake where it is a string; an empty one counts for nothing.
unfoldable pub extract_token : Option Text → Option Text → Option Text
extract_token none cookie = from_cookie cookie
extract_token (some auth) cookie = if is_empty auth then from_cookie cookie else some auth
