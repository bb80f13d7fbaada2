-- ===== src/Http/Sessions.antt =====
-- A session over HTTP, from the login to the logout: backend/src/modules/auth/auth.controller.ts and
-- strategies/jwt.strategy.ts.
use messageries.Base.{
  List, Option, Option-cases, String, [], arith, find, if◌then◌else◌, inl, inr, is_some, none, refl,
  some, true, update_where, ℕ, ◌&&◌, ◌+◌, ◌/◌, ◌<◌, ◌∷◌, ◌≡◌, ◌≢◌, ◌≤◌,
}
use messageries.Auth.{Jwt, JwtPayload, Meta, login, logout, payload_of, refresh, refresh_handler}
use messageries.Auth.Sessions.{login_inv}
use messageries.Base.Text.{Text, text_eq}
use messageries.Db.{Db, Env, Error, err, forbidden, ok, outcome}
use messageries.Entities.Accounts.{RefreshToken, User}
use messageries.Http.Cookies.{
  CookieChange, LoginAnswer, access_cookie, clear_cookie, login_http, logout_http, refresh_http,
  set_auth_cookies, set_cookie,
}
use messageries.Http.Guards.{App, Credentials, authenticate, truthy_token}
use messageries.Tokens.{has_hash, is_live, revoke, revoke_row, rotate}
use messageries.Users.{find_by_email, verify_password}

-- What the JWT library promises: a token is no empty text, and is read back until it expires, which
-- it reckons in whole seconds: the second of the signature and the lifetime, added.
pub record IsSigner (jwt : Jwt) (ttl : ℕ) : Type 0 where
  pub signed_ne_nil : (at : ℕ) (p : JwtPayload) → jwt.sign at p ≢ []
  pub verifies :
      (at now : ℕ) (p : JwtPayload)
      → at ≤ now
      → now / 1000 < at / 1000 + ttl
      → jwt.verify now (jwt.sign at p) ≡ some p

-- What a cookie is after the changes of an answer, and what it was before; a cleared one has no value.
abbrev pub cookie_after : Text → List CookieChange → Option Text → Option Text
cookie_after name [] old = old
cookie_after name (set_cookie c ∷ cs) old =
    cookie_after name cs (if text_eq c.name name then some c.value else old)
cookie_after name (clear_cookie n ∷ cs) old =
    cookie_after name cs (if text_eq n name then none else old)

-- The cookies of a client after an answer, as the next request brings them.
abbrev pub brought : List CookieChange → Credentials → Credentials
brought cs old = record { cookie = cookie_after access_cookie cs old.cookie; bearer = old.bearer }

truthy-full : (t : Text) (other : Option Text) → t ≢ [] → truthy_token (some t) other ≡ some t
truthy-full [] other h = absurd (h refl)
truthy-full (c ∷ t) other h = refl

module _ (app : App) (env : Env) where
  -- After a login that succeeds, and until the access token expires, in whole seconds, the requests of
  -- the client are those of the account with the e-mail and the password, whatever cookies it had
  -- before; where the library reads back what it signs until then.
  pub login_authenticates :
      (raw email password : Text) (meta : Meta) (s s' : Db) (answer : LoginAnswer)
      (cookies : List CookieChange) (before : Credentials) (later : Env) (t : Db)
      → IsSigner app.jwt app.cfg.jwt_access_ttl
      → login_http app env raw email password meta s ≡ (ok (answer, cookies), s')
      → env.now ≤ later.now
      → later.now / 1000 < env.now / 1000 + app.cfg.jwt_access_ttl
      → (u : User) × (find_by_email app.crypt email s ≡ some u)
        × (verify_password app.crypt u password ≡ true)
        × (authenticate app later (brought cookies before) t ≡ (ok (payload_of u), t))
  unfolding login_http set_auth_cookies authenticate
  login_authenticates raw email password meta s s' answer cookies before later t signer done from
        until =
      elim (outcome (login app.crypt app.jwt app.hash app.cfg env raw email password meta s)) [
        | inr (e, s1, threw) ↦ absurd (ground arith)
        | inl (out, s1, logged) ↦
            let (u, found, enabled, verified, same, signed, stored) =
              login_inv app.crypt app.jwt app.hash app.cfg env raw email password meta s s1 out
                logged in
            let set : cookies ≡ set_auth_cookies app.cfg out.access_token out.refresh_token =
              ground arith in
            let kept =
              truthy-full (app.jwt.sign env.now (payload_of u)) none
                (signer.signed_ne_nil env.now (payload_of u)) in
            let read = signer.verifies env.now later.now (payload_of u) from until in
            (u, found, verified, ground (arith, set, signed, kept, read))
      ]

-- No row with the hash of a revoked token is live.
revoke-revoked :
    (hash : Text → ℕ) (now : ℕ) (reason : String) (token : Text) (ts : List RefreshToken)
    (f : RefreshToken)
    → find
        (has_hash (hash token))
        (update_where (λ t. has_hash (hash token) t && is_live t) (revoke_row now reason) ts)
      ≡ some f
    → is_some f.revoked_at ≡ true
revoke-revoked hash now reason token [] f h = absurd (ground arith)
revoke-revoked hash now reason token (t ∷ ts) f h =
    let ih = revoke-revoked hash now reason token ts f in ground (arith, ih)

module _ (app : App) (env : Env) where
  -- A refresh token that a logout was given is refused afterwards, whoever brings it, in the cookie
  -- or in the body, and whether or not it was live.
  pub logged_out_refused :
      (c : Credentials) (char : ℕ) (token : Text) (s s' : Db) (cs : List CookieChange) (later : Env)
      (raw : Text) (meta : Meta)
      → logout_http app env c (some (char ∷ token)) s ≡ (ok cs, s')
      → (e : Error) × ((refresh_http app later raw none (some (char ∷ token)) meta s').0 ≡ err e)
        × ((refresh_http app later raw (some (char ∷ token)) none meta s').0 ≡ err e)
  unfolding logout_http logout refresh_http refresh_handler refresh rotate revoke authenticate
  logged_out_refused c char token s s' cs later raw meta done =
      let revoked = revoke-revoked app.hash env.now "logout" (char ∷ token) s.refresh_tokens in
      elim (Option-cases (find (has_hash (app.hash (char ∷ token))) s'.refresh_tokens)) [
        | inl missing ↦ (forbidden "Refresh token invalide", ground arith, ground arith)
        | inr (f, found) ↦ (
          forbidden "Session compromise — reconnexion requise",
          ground (arith, revoked f),
          ground (arith, revoked f),
        )
      ]
