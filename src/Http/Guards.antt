-- ===== src/Http/Guards.antt =====
-- backend/src/modules/auth/strategies/jwt.strategy.ts, common/guards/roles.guard.ts and
-- conversations/guards/conversation-access.guard.ts.
use messageries.Base.{Bool, List, Option, [], any, false, none, not, some, true, ℕ, ◌&&◌, ◌∷◌}
use messageries.Attachments.{ObjectStore}
use messageries.Auth.{Jwt, JwtPayload}
use messageries.Base.Text.{Text}
use messageries.Config.{Config}
use messageries.Conversations.{Granted, assert_can_access}
use messageries.Crypto.{BodyCipher}
use messageries.Db.{
  Action, Env, forbidden, internal, or_throw, pure, throw, throw_if, unauthorized, ◌>>=◌, ◌>>◌,
}
use messageries.Entities.Accounts.{UserRole, admin, customer, seller, support}
use messageries.Http.Routes.{Guards, of_conversation, signed_in, with_roles}
use messageries.Scanner.{Scanner, is_empty}
use messageries.Users.{Crypt}

-- What the application is built on. `read_id` is what PostgreSQL makes of a text where it wants an
-- identifier, `none` where it refuses it, and `read_number` where it wants a natural number;
-- `characters` is how class-validator counts the characters of a text.
pub record App : Type 0 where
  pub cipher : BodyCipher
  pub scanner : Scanner
  pub cfg : Config
  pub crypt : Crypt
  pub hash : Text → ℕ
  pub jwt : Jwt
  pub store : ObjectStore
  pub print_id : ℕ → Text
  pub read_id : Text → Option ℕ
  pub read_number : Text → Option ℕ
  pub characters : Text → ℕ
  pub to_base64 : List ℕ → Text
  pub from_base64 : Text → List ℕ
  pub usable : Bool
  pub zero_is_none : Bool

-- The tokens that a request may bring; an empty one counts for nothing.
pub record Credentials : Type 0 where
  pub cookie : Option Text
  pub bearer : Option Text

abbrev pub truthy_token : Option Text → Option Text → Option Text
truthy_token none other = other
truthy_token (some []) other = other
truthy_token (some (c ∷ t)) other = some (c ∷ t)

abbrev pub token_of : Credentials → Option Text
token_of c = truthy_token c.cookie (truthy_token c.bearer none)

abbrev pub same_role : UserRole → UserRole → Bool
same_role customer customer = true
same_role seller seller = true
same_role support support = true
same_role admin admin = true
same_role _ _ = false

module _ (app : App) (env : Env) where
  unfoldable pub authenticate : Credentials → Action JwtPayload
  authenticate c = elim (token_of c) [
    | none ↦ throw (unauthorized "Unauthorized")
    | some token ↦ or_throw (app.jwt.verify env.now token) (unauthorized "Unauthorized")
  ]

  unfoldable pub roles_guard : List UserRole → JwtPayload → Action (Unit {0})
  roles_guard required user =
      throw_if (not (is_empty required) && not (any (same_role user.role) required))
        (forbidden "Rôle insuffisant")

  -- The guard takes the parameter as it is written; the pipe that looks at its form comes later.
  unfoldable pub conversation_guard : Text → JwtPayload → Action Granted
  conversation_guard conv user = do
    throw_if (is_empty conv) (forbidden "Conversation requise")
    id ← or_throw (app.read_id conv) internal
    assert_can_access env user.sub user.role id

  -- The guards after the one that authenticates, with what they leave in the request.
  unfoldable pub run_guards : Guards → JwtPayload → Action (Option Granted)
  run_guards signed_in user = pure none
  run_guards (with_roles required) user = roles_guard required user >> pure none
  run_guards (of_conversation conv) user = conversation_guard conv user >>= λ g. pure (some g)
