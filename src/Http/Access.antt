-- ===== src/Http/Access.antt =====
-- Who gets through the guards of the controllers under backend/src/modules, route by route.
use messageries.Base.{
  Bool, Bool-cases, List, Option, Option-cases, String, [], any, ap, arith, false, inl, inr, none,
  not, refl, some, some_inj, true, ℕ, ◌&&◌, ◌∷◌, ◌≡◌,
}
use messageries.Auth.{JwtPayload}
use messageries.Base.Text.{Text}
use messageries.Conversations.{assert_can_access, find_conversation, get_by_id_or_throw}
use messageries.Conversations.Activity.{has_active}
use messageries.Db.{
  Db, Env, Error, bad_request, conflict, err, forbidden, in_failed_transaction, internal, not_found,
  ok, unauthorized, unique_violation,
}
use messageries.Entities.Accounts.{UserRole, admin, customer, is_staff, seller, support}
use messageries.Http.Guards.{
  App, Credentials, authenticate, conversation_guard, roles_guard, run_guards, same_role, token_of,
}
use messageries.Http.Routes.{
  Route, create_order, delete_by_admin, enable_group, get_conversation, guards_of, list_of_group,
  list_of_messages, list_reports, of_conversation, read_messages, remove_message, resolve_report,
  send_message, send_to_group, with_roles,
}
use messageries.Http.Serving.{catch_error, failure, respond, serve}
use messageries.Scanner.{is_empty}

-- Who may use a route, by role alone.
abbrev pub may : UserRole → Route → Bool
may role list_reports = is_staff role
may role (resolve_report report_id action) = is_staff role
may role (delete_by_admin user) = same_role role admin
may role (create_order dto) = same_role role admin
may role route = true

-- The conversation in the path of a route, for the routes behind the guard of the access to it.
abbrev pub conversation_in : Route → Option Text
conversation_in (get_conversation conv) = some conv
conversation_in (send_message conv dto key) = some conv
conversation_in (list_of_messages conv query) = some conv
conversation_in (read_messages conv upto) = some conv
conversation_in (remove_message conv message) = some conv
conversation_in (enable_group conv dto) = some conv
conversation_in (send_to_group conv dto) = some conv
conversation_in (list_of_group conv after limit) = some conv
conversation_in route = none

staff_lem : (role : UserRole) → any (same_role role) (support ∷ admin ∷ []) ≡ is_staff role
staff_lem customer = refl
staff_lem seller = refl
staff_lem support = refl
staff_lem admin = refl

-- The roles that do not pass, as the guard tests them.
abbrev Excludes : List UserRole → UserRole → Type 0
Excludes required role = (not (is_empty required) && not (any (same_role role) required)) ≡ true

may_guards :
    (role : UserRole) (route : Route)
    → may role route ≡ false
    → (required : List UserRole) × (guards_of route ≡ with_roles required) × Excludes required role
unfolding guards_of
may_guards role list_reports h = (_, refl, ground (arith, staff_lem role))
may_guards role (resolve_report report_id action) h = (_, refl, ground (arith, staff_lem role))
may_guards role (delete_by_admin user) h = (_, refl, ground arith)
may_guards role (create_order dto) h = (_, refl, ground arith)
may_guards role route h = absurd (ground arith)

pub access_refused :
    (env : Env) (user : ℕ) (role : UserRole) (conv : ℕ) (s : Db)
    → is_staff role ≡ false
    → has_active conv user s ≡ false
    → (e : Error) × (assert_can_access env user role conv s ≡ (err e, s))
unfolding assert_can_access get_by_id_or_throw
access_refused env user role conv s not_staff outside =
    elim (Option-cases (find_conversation conv s)) [
      | inl missing ↦ (not_found "Conversation introuvable", ground arith)
      | inr (c, found) ↦ (forbidden "Vous n'êtes pas autorisé sur cette conversation", ground arith)
    ]

-- Every error is shown as a failure.
pub caught :
    (e : Error) → (status : ℕ) × (message : String) × (catch_error e ≡ failure status message)
unfolding catch_error
caught (bad_request m) = (_, _, refl)
caught (unauthorized m) = (_, _, refl)
caught (forbidden m) = (_, _, refl)
caught (not_found m) = (_, _, refl)
caught (conflict m) = (_, _, refl)
caught unique_violation = (_, _, refl)
caught in_failed_transaction = (_, _, refl)
caught internal = (_, _, refl)

pub conversation_guards :
    (route : Route) (conv : Text)
    → conversation_in route ≡ some conv
    → guards_of route ≡ of_conversation conv
unfolding guards_of
conversation_guards (get_conversation c) conv h = ap of_conversation (some_inj c conv h)
conversation_guards (send_message c dto key) conv h = ap of_conversation (some_inj c conv h)
conversation_guards (list_of_messages c query) conv h = ap of_conversation (some_inj c conv h)
conversation_guards (read_messages c upto) conv h = ap of_conversation (some_inj c conv h)
conversation_guards (remove_message c message) conv h = ap of_conversation (some_inj c conv h)
conversation_guards (enable_group c dto) conv h = ap of_conversation (some_inj c conv h)
conversation_guards (send_to_group c dto) conv h = ap of_conversation (some_inj c conv h)
conversation_guards (list_of_group c after limit) conv h = ap of_conversation (some_inj c conv h)
conversation_guards route conv h = absurd (ground arith)

module _ (app : App) (before env : Env) where
  pub authenticate-known :
      (c : Credentials) (user : JwtPayload) (s : Db) (token : Text)
      → token_of c ≡ some token
      → app.jwt.verify before.now token ≡ some user
      → authenticate app before c s ≡ (ok user, s)
  unfolding authenticate
  authenticate-known c user s token h v = ground arith

  -- Without a token that verifies every route answers 401, and nothing changes.
  pub unauthenticated_refused :
      (c : Credentials) (route : Route) (s : Db)
      → ((token : Text) → token_of c ≡ some token → app.jwt.verify before.now token ≡ none)
      → respond app before env c route s ≡ (failure 401 "Unauthorized", s)
  unfolding respond serve authenticate catch_error
  unauthenticated_refused c route s h = elim (Option-cases (token_of c)) [
    | inl missing ↦ ground arith
    | inr (token, found) ↦ ground (arith, h token found)
  ]

  -- What a request whose token verifies comes to.
  abbrev pub IsSignedIn : Credentials → JwtPayload → Type 0
  IsSignedIn c user =
      (token : Text) × (token_of c ≡ some token) × (app.jwt.verify before.now token ≡ some user)

  -- A signed-in user whose role may not use a route gets 403, and nothing changes.
  pub role_refused :
      (c : Credentials) (user : JwtPayload) (route : Route) (s : Db)
      → IsSignedIn c user
      → may user.role route ≡ false
      → respond app before env c route s ≡ (failure 403 "Rôle insuffisant", s)
  unfolding respond serve run_guards roles_guard catch_error
  role_refused c user route s (token, found, verified) h =
      let (required, guards, excluded) = may_guards user.role route h in
      let known = authenticate-known c user s token found verified in ground arith

  pub guard_refused :
      (user : JwtPayload) (conv : Text) (s : Db)
      → is_staff user.role ≡ false
      → ((id : ℕ) → app.read_id conv ≡ some id → has_active id user.sub s ≡ false)
      → (e : Error) × (conversation_guard app before conv user s ≡ (err e, s))
  unfolding conversation_guard
  guard_refused user conv s not_staff outside = elim (Bool-cases (is_empty conv)) [
    | inl empty ↦ (forbidden "Conversation requise", ground arith)
    | inr full ↦ elim (Option-cases (app.read_id conv)) [
      | inl malformed ↦ (internal, ground arith)
      | inr (id, read) ↦
          let (e, refused) =
            access_refused before user.sub user.role id s not_staff (outside id read) in
          (e, ground arith)
    ]
  ]

  -- Whoever is signed in and neither staff nor an active participant of a conversation gets an error
  -- from each of the eight routes that take the conversation from their path, behind the guard of the
  -- access to it, and nothing changes; also where the identifier in the path is not one.
  pub outsider_gets_nothing :
      (c : Credentials) (user : JwtPayload) (route : Route) (conv : Text) (s : Db)
      → IsSignedIn c user
      → conversation_in route ≡ some conv
      → is_staff user.role ≡ false
      → ((id : ℕ) → app.read_id conv ≡ some id → has_active id user.sub s ≡ false)
      → (status : ℕ) × (message : String) × (respond app before env c route s
          ≡ (failure status message, s))
  unfolding respond serve run_guards conversation_guard
  outsider_gets_nothing c user route conv s (token, found, verified) about not_staff outside =
      let guards = conversation_guards route conv about in
      let known = authenticate-known c user s token found verified in
      let (e, refused) = guard_refused user conv s not_staff outside in
      let ended : respond app before env c route s ≡ (catch_error e, s) = ground arith in
      let (status, message, shown) = caught e in (status, message, rw (ended, shown) refl)
