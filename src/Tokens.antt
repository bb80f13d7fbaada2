-- ===== src/Tokens.antt =====
-- backend/src/modules/auth/refresh-tokens.service.ts: refresh tokens, stored by their hash, which
-- are rotated on use and revoked as a family when a revoked one comes back. The hash (SHA-256)
-- and the random token are parameters.
pub mod Table
pub mod Rotation
use messageries.Base.{
  Bool, List, Option, String, any, find, if◌then◌else◌, is_none, is_some, ltb, none, some,
  update_where, ℕ, ◌&&◌, ◌*◌, ◌+◌, ◌==◌, ◌∷◌,
}
use messageries.Base.Text.{Text}
use messageries.Config.{Config}
use messageries.Db.{
  Action, Env, forbidden, gets, modify, or_throw, pure, throw, throw_if, unique_violation, ◌>>=◌,
  ◌>>◌,
}
use messageries.Entities.Accounts.{RefreshToken}

pub record IssueInput : Type 0 where
  pub user_id : ℕ
  pub parent_id : Option ℕ
  pub user_agent : Option Text
  pub ip : Option Text

pub record Issued : Type 0 where
  pub token : Text
  pub expires_at : ℕ

pub record RotateInput : Type 0 where
  pub token : Text
  pub user_agent : Option Text
  pub ip : Option Text

pub record Rotated : Type 0 where
  pub user_id : ℕ
  pub token : Text
  pub expires_at : ℕ

-- What `rotate` passes to `issue`.
abbrev pub child_of : RefreshToken → RotateInput → IssueInput
child_of found input = record {
  user_id = found.user_id;
  parent_id = some found.id;
  user_agent = input.user_agent;
  ip = input.ip;
}

-- `revoked_at IS NULL`
abbrev pub is_live : RefreshToken → Bool
is_live t = is_none t.revoked_at

abbrev pub has_hash : ℕ → RefreshToken → Bool
has_hash h t = t.token_hash == h

abbrev pub live_of : ℕ → RefreshToken → Bool
live_of u t = t.user_id == u && is_live t

abbrev pub revoke_row : ℕ → String → RefreshToken → RefreshToken
revoke_row now reason t = record t { revoked_at = some now; revoked_reason = some reason }

-- The update that revokes every live token of a user.
unfoldable pub revoke_live : ℕ → String → ℕ → List RefreshToken → List RefreshToken
revoke_live now reason u = update_where (live_of u) (revoke_row now reason)

abbrev set_tokens : (List RefreshToken → List RefreshToken) → Action (Unit {0})
set_tokens f = modify λ s. record s { refresh_tokens = f s.refresh_tokens }

module _ (hash : Text → ℕ) (cfg : Config) (env : Env) where
  abbrev pub new_row : Text → IssueInput → RefreshToken
  new_row raw input = record {
    id = env.uuid 0;
    user_id = input.user_id;
    token_hash = hash raw;
    parent_id = input.parent_id;
    user_agent = input.user_agent;
    ip = input.ip;
    expires_at = env.now + cfg.jwt_refresh_ttl * 1000;
    revoked_at = none;
    revoked_reason = none;
    created_at = env.now;
  }

  -- `raw` is the random token; its hash is unique in the table.
  unfoldable pub issue : Text → IssueInput → Action Issued
  issue raw input = do
    tokens ← gets (λ s. s.refresh_tokens)
    throw_if (any (has_hash (hash raw)) tokens) unique_violation
    set_tokens (λ ts. new_row raw input ∷ ts)
    pure (record { token = raw; expires_at = env.now + cfg.jwt_refresh_ttl * 1000 })

  -- The branch of `rotate` for a token that was revoked before: theft is presumed.
  unfoldable pub replayed : RefreshToken → Action Rotated
  unfolding revoke_live
  replayed found = do
    set_tokens (revoke_live env.now "family_compromise" found.user_id)
    throw (forbidden "Session compromise — reconnexion requise")

  unfoldable pub renewed : Text → RotateInput → RefreshToken → Action Rotated
  unfolding issue
  renewed raw input found = do
    throw_if (ltb found.expires_at env.now) (forbidden "Refresh token expiré")
    set_tokens (update_where (λ t. t.id == found.id) (revoke_row env.now "rotated"))
    next ← issue raw (child_of found input)
    pure (record { user_id = found.user_id; token = next.token; expires_at = next.expires_at })

  -- `raw` is the random token that replaces the one given in.
  unfoldable pub rotate : Text → RotateInput → Action Rotated
  unfolding replayed renewed
  rotate raw input = do
    row ← gets (λ s. find (has_hash (hash input.token)) s.refresh_tokens)
    found ← or_throw row (forbidden "Refresh token invalide")
    if is_some found.revoked_at then replayed found else renewed raw input found

  unfoldable pub revoke_all_for_user : ℕ → String → Action (Unit {0})
  unfolding revoke_live
  revoke_all_for_user u reason = set_tokens (revoke_live env.now reason u)

  unfoldable pub revoke : Text → String → Action (Unit {0})
  revoke token reason =
      set_tokens
        (update_where (λ t. has_hash (hash token) t && is_live t) (revoke_row env.now reason))
