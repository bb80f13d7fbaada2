-- ===== src/Auth.antt =====
-- backend/src/modules/auth/auth.service.ts and the handlers of auth.controller.ts: sessions made of
-- an access token, which the JWT library signs (a parameter), and a refresh token.
pub mod Sessions
use messageries.Base.{Bool, Option, [], if◌then◌else◌, is_some, none, not, some, ℕ, ◌||◌, ◌∷◌}
use messageries.Base.Text.{Text}
use messageries.Config.{Config}
use messageries.Db.{Action, Env, gets, or_throw, pure, throw, throw_if, unauthorized, ◌>>=◌, ◌>>◌}
use messageries.Entities.Accounts.{User, UserRole}
use messageries.Tokens.{RotateInput, issue, revoke, revoke_all_for_user, rotate}
use messageries.Users.{Crypt, NewUser, create_user, find_by_email, find_by_id, verify_password}

pub record JwtPayload : Type 0 where
  pub sub : ℕ
  pub email : Text
  pub role : UserRole

-- `now` and the payload determine what is signed; a token that does not verify gives `none`.
pub record Jwt : Type 0 where
  pub sign : ℕ → JwtPayload → Text
  pub verify : ℕ → Text → Option JwtPayload

pub record Meta : Type 0 where
  pub ip : Option Text
  pub user_agent : Option Text

pub record Session : Type 0 where
  pub access_token : Text
  pub refresh_token : Text
  pub refresh_expires_at : ℕ
  pub user_id : ℕ
  pub user_email : Text
  pub user_role : UserRole
  pub user_display_name : Option Text

pub record Refreshed : Type 0 where
  pub access_token : Text
  pub refresh_token : Text
  pub refresh_expires_at : ℕ

abbrev pub payload_of : User → JwtPayload
payload_of u = record { sub = u.id; email = u.email; role = u.role }

-- `user.isSuspended || user.anonymizedAt`
abbrev pub is_disabled : User → Bool
is_disabled u = u.is_suspended || is_some u.anonymized_at

abbrev pub rotate_input : Text → Meta → RotateInput
rotate_input token meta = record { token = token; user_agent = meta.user_agent; ip = meta.ip }

module _ (crypt : Crypt) (jwt : Jwt) (hash : Text → ℕ) (cfg : Config) (env : Env) where
  unfoldable pub issue_session : Text → User → Meta → Action Session
  issue_session raw user meta = do
    let access_token = jwt.sign env.now (payload_of user)
    refresh ←
        issue hash cfg env raw (record {
          user_id = user.id;
          parent_id = none;
          user_agent = meta.user_agent;
          ip = meta.ip;
        })
    pure (record {
      access_token = access_token;
      refresh_token = refresh.token;
      refresh_expires_at = refresh.expires_at;
      user_id = user.id;
      user_email = user.email;
      user_role = user.role;
      user_display_name = user.display_name;
    })

  unfoldable pub login : Text → Text → Text → Meta → Action Session
  unfolding issue_session
  login raw email password meta = do
    row ← gets (find_by_email crypt email)
    user ← or_throw row (unauthorized "Identifiants invalides")
    throw_if (is_disabled user) (unauthorized "Identifiants invalides")
    throw_if (not (verify_password crypt user password)) (unauthorized "Identifiants invalides")
    issue_session raw user meta

  unfoldable pub refresh : Text → Text → Meta → Action Refreshed
  refresh raw token meta = do
    rotated ← rotate hash cfg env raw (rotate_input token meta)
    row ← gets (find_by_id rotated.user_id)
    user ← or_throw row (unauthorized "Compte invalide")
    throw_if (is_disabled user) (unauthorized "Compte invalide")
    pure (record {
      access_token = jwt.sign env.now (payload_of user);
      refresh_token = rotated.token;
      refresh_expires_at = rotated.expires_at;
    })

  -- An empty token is as good as none.
  unfoldable pub logout : Option Text → Option ℕ → Action (Unit {0})
  logout (some (c ∷ token)) user = revoke hash cfg env (c ∷ token) "logout"
  logout (some []) (some user) = revoke_all_for_user hash cfg env user "logout"
  logout (some []) none = pure tt
  logout none (some user) = revoke_all_for_user hash cfg env user "logout"
  logout none none = pure tt

  unfoldable pub verify_access : Text → Action JwtPayload
  verify_access token = or_throw (jwt.verify env.now token) (unauthorized "Token invalide")

  -- `POST /auth/register`: the answer does not tell whether the address was known.
  unfoldable pub register : ℕ → NewUser → Action (Unit {0})
  register salt input = do
    existing ← gets (find_by_email crypt input.email)
    if is_some existing then pure tt else (create_user crypt env salt input >>= λ user. pure tt)

  -- `if (!refresh) return 401`
  refresh_with : Text → Meta → Option Text → Action Refreshed
  unfolding refresh
  refresh_with raw meta none = throw (unauthorized "No refresh token")
  refresh_with raw meta (some []) = throw (unauthorized "No refresh token")
  refresh_with raw meta (some (c ∷ token)) = refresh raw (c ∷ token) meta

  -- `POST /auth/refresh`: the cookie, where there is one, goes before the body.
  unfoldable pub refresh_handler : Text → Option Text → Option Text → Meta → Action Refreshed
  unfolding refresh_with
  refresh_handler raw cookie body meta =
      refresh_with raw meta (if is_some cookie then cookie else body)
