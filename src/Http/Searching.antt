-- ===== src/Http/Searching.antt =====
-- backend/src/modules/search/search.controller.ts: the routes of the search, over the database and the
-- index.
use messageries.Base.{Bool, Option, arith, false, if◌then◌else◌, leb, none, some, ℕ, ◌&&◌, ◌≡◌}
use messageries.Auth.{JwtPayload}
use messageries.Base.Text.{Text}
use messageries.Conversations.{Granted}
use messageries.Conversations.Activity.{has_active}
use messageries.Db.{Action, Env, Error, Result, bad_request, err, ok, pure, ◌>>=◌}
use messageries.Entities.Accounts.{is_staff}
use messageries.Http.Access.{IsSignedIn, authenticate-known, guard_refused}
use messageries.Http.Guards.{App, Credentials, authenticate, conversation_guard}
use messageries.Search.{Indexed, disable_indexing, enable_indexing, search, with_db}
use messageries.Search.OpenSearch.{Engine, SearchResult}

module _ {Index : Type 0} (engine : Engine Index) (app : App) (ready : Bool) (env : Env) where
  -- The guards of a route about a conversation, with the user and what they leave in the request.
  abbrev pub behind_guards :
      Credentials → Text → Indexed Index → Result (JwtPayload × Granted) × Indexed Index
  behind_guards credentials conv st =
      let guards : Action (JwtPayload × Granted) = authenticate app env credentials >>= λ user.
      conversation_guard app env conv user >>= λ granted. pure (user, granted) in
      with_db (guards st.db) st.index

  unfoldable pub search_enable :
      Credentials → Text → Indexed Index → Result (Unit {0}) × Indexed Index
  search_enable credentials conv st =
      let (r, st') = behind_guards credentials conv st in
      elim r [
        | err e ↦ (err e, st')
        | ok (user, granted) ↦
            enable_indexing engine app.cipher app.cfg ready env granted.conversation.id user.sub
              user.role st'
      ]

  unfoldable pub search_disable :
      Credentials → Text → Indexed Index → Result (Unit {0}) × Indexed Index
  search_disable credentials conv st =
      let (r, st') = behind_guards credentials conv st in
      elim r [
        | err e ↦ (err e, st')
        | ok (user, granted) ↦
            disable_indexing engine app.cipher app.cfg ready env granted.conversation.id user.sub
              user.role st'
      ]

  -- The search of the user of the token; the text has 2 to 200 characters.
  unfoldable pub search_query : Credentials → Text → Option ℕ → Indexed Index → Result SearchResult
  search_query credentials text conv st = elim (authenticate app env credentials st.db).0 [
    | err e ↦ err e
    | ok user ↦
        if leb 2 (app.characters text) && leb (app.characters text) 200
        then search engine app.cfg ready
            (record { user_id = user.sub; query = text; conversation_id = conv; limit = none }) st
        else err (bad_request "Bad Request")
  ]

  -- Whoever is neither staff nor an active participant of a conversation can neither put it into the
  -- search nor take it out: the database and the index stay as they were.
  pub outsider_toggles_nothing :
      (c : Credentials) (user : JwtPayload) (conv : Text) (st : Indexed Index)
      → IsSignedIn app env env c user
      → is_staff user.role ≡ false
      → ((id : ℕ) → app.read_id conv ≡ some id → has_active id user.sub st.db ≡ false)
      → (e : Error) × (search_enable c conv st ≡ (err e, st))
        × (search_disable c conv st ≡ (err e, st))
  unfolding search_enable search_disable
  outsider_toggles_nothing c user conv st (token, found, verified) not_staff outside =
      let known = authenticate-known app env env c user st.db token found verified in
      let (e, refused) = guard_refused app env env user conv st.db not_staff outside in
      (e, ground arith, ground arith)
