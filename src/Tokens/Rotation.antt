-- ===== src/Tokens/Rotation.antt =====
-- What a rotation does, and what happens to a token that is used twice.
use messageries.Base.{
  List, Option-cases, any, arith, count, false, find, find-eq_none-of_any, find-update_where, inl,
  inr, none, refl, some, update_where, ℕ, ◌==◌, ◌∷◌, ◌≡◌, ◌≤◌,
}
use messageries.Base.Text.{Text}
use messageries.Config.{Config}
use messageries.Db.{Db, Env, err, forbidden, ok, outcome}
use messageries.Entities.Accounts.{RefreshToken}
use messageries.Tokens.{
  RotateInput, Rotated, child_of, has_hash, live_of, new_row, revoke_row, rotate,
}
use messageries.Tokens.Table.{
  HashesDistinct, count-revoke_found, revoke-HashesDistinct, revoke_live-none,
}

-- The row `f` after its rotation.
abbrev retired : Env → RefreshToken → List RefreshToken → List RefreshToken
retired env f = update_where (λ t. t.id == f.id) (revoke_row env.now "rotated")

module _ (hash : Text → ℕ) (cfg : Config) (env : Env) (raw : Text) (input : RotateInput) where
  -- What a rotation that succeeds has found and has written.
  pub rotate_inv :
      (s s' : Db) (r : Rotated)
      → rotate hash cfg env raw input s ≡ (ok r, s')
      → (f : RefreshToken) × (find (has_hash (hash input.token)) s.refresh_tokens ≡ some f)
        × (f.revoked_at ≡ none)
        × (r.user_id ≡ f.user_id)
        × (any (has_hash (hash raw)) (retired env f s.refresh_tokens) ≡ false)
        × (s' ≡ record s {
          refresh_tokens =
              new_row hash cfg env raw (child_of f input) ∷ retired env f s.refresh_tokens;
        })
  unfolding rotate
  rotate_inv s s' r e = elim (Option-cases (find (has_hash (hash input.token)) s.refresh_tokens)) [
    | inl missing ↦ absurd (ground arith)
    | inr (f, found) ↦ (f, found, ground arith, ground arith, ground arith, ground arith)
  ]

  -- The token was not expired.
  pub rotate-unexpired :
      (s s' : Db) (r : Rotated) (f : RefreshToken)
      → rotate hash cfg env raw input s ≡ (ok r, s')
      → find (has_hash (hash input.token)) s.refresh_tokens ≡ some f
      → env.now ≤ f.expires_at
  unfolding rotate
  rotate-unexpired s s' r f e found = ground arith

  -- A rotation that succeeds leaves no more live tokens than there were: the old one is revoked.
  pub rotate-live_le :
      (s s' : Db) (r : Rotated)
      → rotate hash cfg env raw input s ≡ (ok r, s')
      → count (live_of r.user_id) s'.refresh_tokens ≤ count (live_of r.user_id) s.refresh_tokens
  rotate-live_le s s' r e =
      let (f, found, live, user, fresh, written) = rotate_inv s s' r e in
      ground (
        arith,
        count-revoke_found r.user_id env.now "rotated" (hash input.token) f s.refresh_tokens,
      )

  -- The hashes stay distinct, whatever the outcome.
  pub rotate-HashesDistinct :
      (s : Db)
      → HashesDistinct s.refresh_tokens
      → HashesDistinct (rotate hash cfg env raw input s).1.refresh_tokens
  unfolding rotate
  rotate-HashesDistinct s d =
      elim (Option-cases (find (has_hash (hash input.token)) s.refresh_tokens)) [
        | inl missing ↦ rw (missing, rotate) d
        | inr (f, found) ↦ ground (
          arith,
          revoke-HashesDistinct (live_of f.user_id) env.now "family_compromise" s.refresh_tokens d,
          revoke-HashesDistinct (λ t. t.id == f.id) env.now "rotated" s.refresh_tokens d,
        )
      ]

-- The row that a rotation leaves behind under the old hash is revoked.
pub rotated_row :
    (hash : Text → ℕ) (cfg : Config) (env : Env) (raw : Text) (input : RotateInput) (s s' : Db)
    (r : Rotated)
    → rotate hash cfg env raw input s ≡ (ok r, s')
    → (g : RefreshToken) × (find (has_hash (hash input.token)) s'.refresh_tokens ≡ some g)
      × (g.revoked_at ≡ some env.now)
      × (g.user_id ≡ r.user_id)
rotated_row hash cfg env raw input s s' r e =
    let (f, found, live, user, fresh, written) = rotate_inv hash cfg env raw input s s' r e in
    (
      revoke_row env.now "rotated" f,
      ground (
        arith,
        find-eq_none-of_any (has_hash (hash raw)) (retired env f s.refresh_tokens),
        find-update_where (has_hash (hash input.token)) (λ t. t.id == f.id)
            (revoke_row env.now "rotated") s.refresh_tokens (λ x. refl),
      ),
      refl,
      ground arith,
    )

-- A token that was rotated and comes back, by whoever holds it, is refused, and no token of its
-- user is live afterwards.
pub replay_revokes_family :
    (hash : Text → ℕ) (cfg : Config) (env later : Env) (raw raw' : Text) (input again : RotateInput)
    (s s' : Db) (r : Rotated)
    → rotate hash cfg env raw input s ≡ (ok r, s')
    → again.token ≡ input.token
    → let (outcome, s'') = rotate hash cfg later raw' again s' in
      (outcome ≡ err (forbidden "Session compromise — reconnexion requise"))
      × (any (live_of r.user_id) s''.refresh_tokens ≡ false)
unfolding rotate
replay_revokes_family hash cfg env later raw raw' input again s s' r e same =
    let (g, found, revoked, user) = rotated_row hash cfg env raw input s s' r e in
    ground (arith, revoke_live-none later.now "family_compromise" r.user_id s'.refresh_tokens)
