-- ===== src/Http/Cookies.antt =====
-- `login`, `refresh`, `logout` and `setAuthCookies` of backend/src/modules/auth/auth.controller.ts: the
-- tokens travel in cookies that scripts cannot read.
use messageries.Base.{Bool, List, Option, [], some, true, ℕ, ◌*◌, ◌∷◌}
use messageries.Auth.{Meta, Session, login, logout, refresh, refresh_handler}
use messageries.Base.Text.{Text, codes}
use messageries.Config.{Config}
use messageries.Db.{Action, Env, pure, ◌>>=◌, ◌>>◌}
use messageries.Entities.Accounts.{UserRole}
use messageries.Http.Guards.{App, Credentials, authenticate}
use messageries.Presence.{ttl}

pub record SetCookie : Type 0 where
  pub name : Text
  pub value : Text
  pub max_age : ℕ
  pub http_only : Bool
  pub secure : Bool
  pub same_site_lax : Bool
  pub path : Text

-- What an answer does to the cookies of the client.
pub data CookieChange : Type 0 where
  set_cookie : SetCookie → CookieChange
  clear_cookie : Text → CookieChange

abbrev pub access_cookie : Text
access_cookie = codes "access_token"

abbrev pub refresh_cookie : Text
refresh_cookie = codes "refresh_token"

-- The body of the answer to a login, without the refresh token, which only the cookie has.
pub record LoginAnswer : Type 0 where
  pub user_id : ℕ
  pub user_email : Text
  pub user_role : UserRole
  pub user_display_name : Option Text
  pub access_token : Text

abbrev pub login_answer : Session → LoginAnswer
login_answer out = record {
  user_id = out.user_id;
  user_email = out.user_email;
  user_role = out.user_role;
  user_display_name = out.user_display_name;
  access_token = out.access_token;
}

module _ (cfg : Config) where
  -- The lifetimes are in milliseconds.
  abbrev pub auth_cookie : Text → Text → ℕ → CookieChange
  auth_cookie name value ttl = set_cookie (record {
    name = name;
    value = value;
    max_age = ttl * 1000;
    http_only = true;
    secure = cfg.is_production;
    same_site_lax = true;
    path = codes "/";
  })

  unfoldable pub set_auth_cookies : Text → Text → List CookieChange
  set_auth_cookies access refresh =
      auth_cookie access_cookie access cfg.jwt_access_ttl
      ∷ auth_cookie refresh_cookie refresh cfg.jwt_refresh_ttl
      ∷ []

module _ (app : App) (env : Env) where
  unfoldable pub login_http : Text → Text → Text → Meta → Action (LoginAnswer × List CookieChange)
  login_http raw email password meta = do
    out ← login app.crypt app.jwt app.hash app.cfg env raw email password meta
    pure (login_answer out, set_auth_cookies app.cfg out.access_token out.refresh_token)

  -- The cookie of the refresh token goes before the body.
  unfoldable pub refresh_http :
      Text → Option Text → Option Text → Meta → Action (Text × List CookieChange)
  refresh_http raw cookie body meta = do
    out ← refresh_handler app.crypt app.jwt app.hash app.cfg env raw cookie body meta
    pure (out.access_token, set_auth_cookies app.cfg out.access_token out.refresh_token)

  -- Behind the guard that authenticates.
  unfoldable pub logout_http : Credentials → Option Text → Action (List CookieChange)
  logout_http credentials cookie = do
    user ← authenticate app env credentials
    logout app.crypt app.jwt app.hash app.cfg env cookie (some user.sub)
    pure (clear_cookie access_cookie ∷ clear_cookie refresh_cookie ∷ [])
