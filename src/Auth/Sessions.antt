-- ===== src/Auth/Sessions.antt =====
-- `login` and `refresh` of backend/src/modules/auth/auth.service.ts.
use messageries.Base.{
  ==_refl, Option-cases, any, arith, false, find, inl, inr, none, some, subst, sym, true, ℕ, ◌≡◌,
  ◌≤◌, ◌⊎◌,
}
use messageries.Auth.{
  Jwt, Meta, Refreshed, Session, is_disabled, login, payload_of, refresh, rotate_input,
}
use messageries.Base.Text.{Text}
use messageries.Config.{Config}
use messageries.Db.{Db, Env, Error, err, ok, outcome, unauthorized}
use messageries.Entities.Accounts.{RefreshToken, User}
use messageries.Tokens.{has_hash, issue, new_row, rotate}
use messageries.Tokens.Rotation.{rotate-unexpired, rotate_inv, rotated_row}
use messageries.Users.{Crypt, find_by_email, find_by_id, verify_password}

module _ (crypt : Crypt) (jwt : Jwt) (hash : Text → ℕ) (cfg : Config) (env : Env) where
  -- A login that succeeds is that of a known account, neither suspended nor anonymised, whose
  -- password verifies; the session is signed for it, and its refresh token is stored live.
  pub login_inv :
      (raw email password : Text) (meta : Meta) (s s' : Db) (session : Session)
      → login crypt jwt hash cfg env raw email password meta s ≡ (ok session, s')
      → (u : User) × (find_by_email crypt email s ≡ some u)
        × (is_disabled u ≡ false)
        × (verify_password crypt u password ≡ true)
        × (session.user_id ≡ u.id)
        × (session.access_token ≡ jwt.sign env.now (payload_of u))
        × (find (has_hash (hash session.refresh_token)) s'.refresh_tokens
            ≡ some (
                new_row hash cfg env raw (record {
                  user_id = u.id;
                  parent_id = none;
                  user_agent = meta.user_agent;
                  ip = meta.ip;
                })))
  unfolding login issue
  login_inv raw email password meta s s' session e =
      elim (Option-cases (find_by_email crypt email s)) [
        | inl missing ↦ absurd (ground arith)
        | inr (u, found) ↦ (
          u,
          found,
          ground arith,
          ground arith,
          ground arith,
          ground arith,
          ground (arith, ==_refl (hash raw)),
        )
      ]

  -- A login that fails changes nothing, and says the same of an unknown address, a disabled
  -- account and a wrong password; only a random token that was drawn before gives another error.
  pub login_fails :
      (raw email password : Text) (meta : Meta) (s : Db) (e : Error)
      → (login crypt jwt hash cfg env raw email password meta s).0 ≡ err e
      → ((login crypt jwt hash cfg env raw email password meta s).1 ≡ s)
        × ((e ≡ unauthorized "Identifiants invalides")
            ⊎ (any (has_hash (hash raw)) s.refresh_tokens ≡ true))
  unfolding login issue
  login_fails raw email password meta s e h = ground arith

  -- A refresh that succeeds spends a live token that is not expired, of an account that is still
  -- neither suspended nor anonymised: afterwards the row under its hash is revoked. The new access
  -- token is signed for that account as it is now.
  pub refresh_inv :
      (raw token : Text) (meta : Meta) (s s' : Db) (r : Refreshed)
      → refresh crypt jwt hash cfg env raw token meta s ≡ (ok r, s')
      → (f : RefreshToken) × (u : User) × (g : RefreshToken) × (find
            (has_hash (hash token))
            s.refresh_tokens
          ≡ some f)
        × (f.revoked_at ≡ none)
        × (env.now ≤ f.expires_at)
        × (find (has_hash (hash token)) s'.refresh_tokens ≡ some g)
        × (g.revoked_at ≡ some env.now)
        × (find_by_id f.user_id s ≡ some u)
        × (is_disabled u ≡ false)
        × (r.access_token ≡ jwt.sign env.now (payload_of u))
        × (s'.users ≡ s.users)
  unfolding refresh find_by_id
  refresh_inv raw token meta s s' r e =
      elim (outcome (rotate hash cfg env raw (rotate_input token meta) s)) [
        | inr (_, _, threw) ↦ absurd (ground arith)
        | inl (rot, t, rotated) ↦
            let input = rotate_input token meta in
            let (f, found, live, user, fresh, written) =
              rotate_inv hash cfg env raw input s t rot rotated in
            let unexpired = rotate-unexpired hash cfg env raw input s t rot f rotated found in
            let (g, spent, revoked, owner) = rotated_row hash cfg env raw input s t rot rotated in
            elim (Option-cases (find_by_id rot.user_id t)) [
              | inl missing ↦ absurd (ground arith)
              | inr (u, known) ↦
                  let kept : s' ≡ t = ground arith in
                  (
                    f,
                    u,
                    g,
                    found,
                    live,
                    unexpired,
                    subst (λ x. find (has_hash (hash token)) x.refresh_tokens ≡ some g) (sym kept)
                        spent,
                    revoked,
                    ground arith,
                    ground arith,
                    ground arith,
                    ground arith,
                  )
            ]
      ]
