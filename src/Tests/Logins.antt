-- ===== src/Tests/Logins.antt =====
-- The theorems on sessions over HTTP, for alice of the shop.
use messageries.Base.{
  List, Option, [], arith, false, if◌then◌else◌, length, ltb, none, refl, some, true, ℕ, ◌*◌, ◌+◌,
  ◌/◌, ◌==◌, ◌∷◌, ◌≡◌,
}
use messageries.Auth.{Jwt, JwtPayload, Meta, Session, issue_session, login, logout, payload_of}
use messageries.Base.Text.{Text}
use messageries.Db.{Db, Error, err, ok}
use messageries.Entities.Accounts.{User, UserRole, admin, customer, seller, support}
use messageries.Http.Cookies.{
  CookieChange, access_cookie, clear_cookie, login_answer, login_http, logout_http, refresh_cookie,
  refresh_http, set_auth_cookies,
}
use messageries.Http.Guards.{App, Credentials, authenticate}
use messageries.Http.Sessions.{IsSigner, brought, logged_out_refused, login_authenticates}
use messageries.Tests.Fixtures.{alice, at, cfg, cipher, crypt, hash, scanner, shop}
use messageries.Tokens.{issue, revoke}
use messageries.Users.{find_by_email, verify_password}

abbrev code_of : UserRole → ℕ
code_of customer = 0
code_of seller = 1
code_of support = 2
code_of admin = 3

abbrev role_of : ℕ → UserRole
role_of r =
    if r == 0 then customer else if r == 1 then seller else if r == 2 then support else admin

role_of-code_of : (r : UserRole) → role_of (code_of r) ≡ r
role_of-code_of customer = refl
role_of-code_of seller = refl
role_of-code_of support = refl
role_of-code_of admin = refl

-- A token is the payload with the time of its signature, good until 900 seconds after its second.
abbrev opened : ℕ → Text → Option JwtPayload
opened now (sub ∷ role ∷ at ∷ email) =
    if ltb (now / 1000) (at / 1000 + 900)
    then some (record { sub = sub; email = email; role = role_of role })
    else none
opened now token = none

abbrev open_jwt : Jwt
open_jwt = record { sign = λ at p. p.sub ∷ code_of p.role ∷ at ∷ p.email; verify = opened }

open_jwt-IsSigner : IsSigner open_jwt 900
open_jwt-IsSigner = record {
  signed_ne_nil = λ at p. ground arith;
  verifies = λ at now p from until. ground (arith, role_of-code_of p.role);
}

abbrev shop_app : App
shop_app = record {
  cipher = cipher;
  scanner = scanner;
  cfg = cfg;
  crypt = crypt;
  hash = hash;
  jwt = open_jwt;
  store = record {
    presign_put = λ key mime size ttl. key;
    presign_get = λ key ttl name. key;
    head = λ key. some 500;
    delete = λ key. true;
  };
  print_id = λ id. (id + 48) ∷ [];
  read_id = λ t. none;
  read_number = λ t. none;
  characters = length;
  to_base64 = λ b. b;
  from_base64 = λ t. t;
  usable = true;
  zero_is_none = false;
}

abbrev meta : Meta
meta = record { ip = none; user_agent = none }

abbrev session : Session
session = record {
  access_token = open_jwt.sign 1000 (payload_of alice);
  refresh_token = 5 ∷ [];
  refresh_expires_at = 1000 + 2592000 * 1000;
  user_id = 1;
  user_email = 97 ∷ [];
  user_role = customer;
  user_display_name = none;
}

abbrev stranger : Credentials
stranger = record { cookie = none; bearer = none }

abbrev set : List CookieChange
set = set_auth_cookies cfg session.access_token session.refresh_token

abbrev entered : Db
entered = (login_http shop_app (at 1000 50) (5 ∷ []) (97 ∷ []) (112 ∷ []) meta shop).1

login_run :
    login_http shop_app (at 1000 50) (5 ∷ []) (97 ∷ []) (112 ∷ []) meta shop
    ≡ (ok (login_answer session, set), entered)
unfolding login_http login issue_session issue find_by_email
login_run = refl

login_authenticates_example :
    (u : User) × (find_by_email crypt (97 ∷ []) shop ≡ some u)
    × (verify_password crypt u (112 ∷ []) ≡ true)
    × (authenticate shop_app (at 5000 70) (brought set stranger) entered
        ≡ (ok (payload_of u), entered))
login_authenticates_example =
    login_authenticates shop_app (at 1000 50) (5 ∷ []) (97 ∷ []) (112 ∷ []) meta shop entered
      (login_answer session) set stranger (at 5000 70) entered open_jwt-IsSigner login_run
      (omega arith) (omega arith)

abbrev cleared : List CookieChange
cleared = clear_cookie access_cookie ∷ clear_cookie refresh_cookie ∷ []

abbrev returning : Credentials
returning = record { cookie = some session.access_token; bearer = none }

abbrev left : Db
left = (logout_http shop_app (at 2000 60) returning (some (5 ∷ [])) entered).1

logged_out_refused_example :
    (e : Error) × ((refresh_http shop_app (at 3000 70) (6 ∷ []) none (some (5 ∷ [])) meta left).0
      ≡ err e)
    × ((refresh_http shop_app (at 3000 70) (6 ∷ []) (some (5 ∷ [])) none meta left).0 ≡ err e)
unfolding logout_http authenticate logout revoke
logged_out_refused_example =
    logged_out_refused shop_app (at 2000 60) returning 5 [] entered left cleared (at 3000 70)
      (6 ∷ []) meta refl
