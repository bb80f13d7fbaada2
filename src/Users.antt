-- ===== src/Users.antt =====
-- backend/src/modules/users/users.service.ts. The password hash (Argon2id), the lower-casing of the
-- language and the folding of a `citext` column are parameters.
use messageries.Base.{Bool, Option, any, false, find, none, ℕ, ◌==◌, ◌∷◌}
use messageries.Base.Text.{Text, text_eq}
use messageries.Db.{Action, Db, Env, gets, modify, pure, throw_if, unique_violation, ◌>>=◌, ◌>>◌}
use messageries.Entities.Accounts.{User, UserRole}

-- `hash` is salted: it takes the salt of the call. `verify` is `argon2.verify`, false where it throws.
pub record Crypt : Type 0 where
  pub lower : Text → Text
  pub fold : Text → Text
  pub hash_password : ℕ → Text → Text
  pub verify : Text → Text → Bool

pub record NewUser : Type 0 where
  pub email : Text
  pub password : Text
  pub role : UserRole
  pub display_name : Option Text

module _ (crypt : Crypt) where
  open crypt use {lower, fold, hash_password, verify}

  abbrev pub has_email : Text → User → Bool
  has_email email u = text_eq (fold u.email) (fold email)

  unfoldable pub find_by_email : Text → Db → Option User
  find_by_email email s = find (has_email (lower email)) s.users

  abbrev pub user_row : Env → ℕ → NewUser → User
  user_row env salt input = record {
    id = env.uuid 0;
    email = lower input.email;
    password_hash = hash_password salt input.password;
    role = input.role;
    display_name = input.display_name;
    mfa_secret = none;
    is_suspended = false;
    anonymized_at = none;
    data_export_requested_at = none;
    created_at = env.now;
    updated_at = env.now;
  }

  -- The address is unique in the table.
  unfoldable pub create_user : Env → ℕ → NewUser → Action User
  create_user env salt input = do
    taken ← gets (λ s. any (has_email (lower input.email)) s.users)
    throw_if taken unique_violation
    modify (λ s. record s { users = user_row env salt input ∷ s.users })
    pure (user_row env salt input)

  abbrev pub verify_password : User → Text → Bool
  verify_password u password = verify u.password_hash password

unfoldable pub find_by_id : ℕ → Db → Option User
find_by_id id s = find (λ u. u.id == id) s.users
