-- ===== src/Tests/Accounts.antt =====
-- The theorems on sessions and refresh tokens at the account of the fixtures.
use messageries.Base.{[], any, false, find, none, refl, some, ◌*◌, ◌+◌, ◌∷◌, ◌≡◌, ◌≤◌}
use messageries.Auth.{Meta, Refreshed, is_disabled, issue_session, login, payload_of, refresh}
use messageries.Auth.Sessions.{refresh_inv}
use messageries.Db.{Db, err, forbidden, ok}
use messageries.Entities.Accounts.{RefreshToken, User}
use messageries.Tests.Fixtures.{at, cfg, crypt, hash, jwt, shop}
use messageries.Tokens.{RotateInput, Rotated, has_hash, issue, live_of, renewed, rotate}
use messageries.Tokens.Rotation.{replay_revokes_family}
use messageries.Users.{find_by_email, find_by_id}

abbrev meta : Meta
meta = record { ip = none; user_agent = none }

abbrev logged_in : Db
logged_in = (login crypt jwt hash cfg (at 1000 50) (5 ∷ []) (97 ∷ []) (112 ∷ []) meta shop).1

abbrev renewed_session : Refreshed
renewed_session = record {
  access_token = 1 ∷ 2000 ∷ [];
  refresh_token = 6 ∷ [];
  refresh_expires_at = 2000 + 2592000 * 1000;
}

abbrev refreshed : Db
refreshed = (refresh crypt jwt hash cfg (at 2000 60) (6 ∷ []) (5 ∷ []) meta logged_in).1

refresh_inv_example :
    (f : RefreshToken) × (u : User) × (g : RefreshToken) × (find
        (has_hash (hash (5 ∷ [])))
        logged_in.refresh_tokens
      ≡ some f)
    × (f.revoked_at ≡ none)
    × (2000 ≤ f.expires_at)
    × (find (has_hash (hash (5 ∷ []))) refreshed.refresh_tokens ≡ some g)
    × (g.revoked_at ≡ some 2000)
    × (find_by_id f.user_id logged_in ≡ some u)
    × (is_disabled u ≡ false)
    × (renewed_session.access_token ≡ jwt.sign 2000 (payload_of u))
    × (refreshed.users ≡ logged_in.users)
unfolding login issue_session issue find_by_email refresh rotate renewed find_by_id
refresh_inv_example =
    refresh_inv crypt jwt hash cfg (at 2000 60) (6 ∷ []) (5 ∷ []) meta logged_in refreshed
      renewed_session refl

abbrev presented : RotateInput
presented = record { token = 5 ∷ []; user_agent = none; ip = none }

abbrev rotated : Rotated
rotated = record { user_id = 1; token = 6 ∷ []; expires_at = 2000 + 2592000 * 1000 }

abbrev rotated_db : Db
rotated_db = (rotate hash cfg (at 2000 60) (6 ∷ []) presented logged_in).1

rotate_ok : rotate hash cfg (at 2000 60) (6 ∷ []) presented logged_in ≡ (ok rotated, rotated_db)
unfolding login issue_session issue find_by_email rotate renewed
rotate_ok = refl

replay_revokes_family_example :
    let (result, after) = rotate hash cfg (at 3000 70) (7 ∷ []) presented rotated_db in
    (result ≡ err (forbidden "Session compromise — reconnexion requise"))
    × (any (live_of 1) after.refresh_tokens ≡ false)
replay_revokes_family_example =
    replay_revokes_family hash cfg (at 2000 60) (at 3000 70) (6 ∷ []) (7 ∷ []) presented presented
      logged_in rotated_db rotated rotate_ok refl
