-- ===== src/Http/Serving.antt =====
-- A request from the authentication to the answer, in the order of NestJS: the guards, the pipes with
-- the checks of the body, the method; and backend/src/common/filters/http-exception.filter.ts.
use messageries.Base.{Option, String, not, ℕ}
use messageries.Auth.{JwtPayload}
use messageries.Conversations.{Granted, get_or_create_for_order, list_for_user}
use messageries.Db.{
  Action, Db, Env, Error, bad_request, conflict, err, forbidden, gets, in_failed_transaction,
  internal, not_found, ok, pure, throw_if, unauthorized, unique_violation, ◌>>=◌, ◌>>◌,
}
use messageries.E2ee.{count_available}
use messageries.Http.Guards.{App, Credentials, authenticate, run_guards}
use messageries.Http.Handlers.{
  Answer, attachments_download, attachments_finalize, attachments_presign, conversation_answer,
  conversations_answer, count_answer, default_conversations, default_reports, export_answer,
  get_one, groups_enable, groups_list, groups_send, id_param, messages_list, messages_read,
  messages_remove, messages_send, moderation_report, moderation_resolve, order_answer,
  packages_claim, packages_publish, privacy_delete, reports_answer,
}
use messageries.Http.Routes.{
  Route, claim_package, count_packages, create_order, delete_by_admin, delete_mine,
  download_attachment, enable_group, export_mine, finalize_attachment, get_conversation, guards_of,
  is_valid, list_conversations, list_of_group, list_of_messages, list_reports, open_by_order,
  presign_attachment, publish_packages, read_messages, remove_message, report_message,
  resolve_report, send_message, send_to_group,
}
use messageries.Moderation.{list_open}
use messageries.Orders.{upsert_from_external}
use messageries.Privacy.{export_user_data}

pub data Response : Type 0 where
  success : ℕ → Answer → Response
  failure : ℕ → String → Response

-- The status of an exception, and the message that is shown; what is no HTTP exception shows nothing.
unfoldable pub catch_error : Error → Response
catch_error (bad_request message) = failure 400 message
catch_error (unauthorized message) = failure 401 message
catch_error (forbidden message) = failure 403 message
catch_error (not_found message) = failure 404 message
catch_error (conflict message) = failure 409 message
catch_error unique_violation = failure 500 "Une erreur est survenue"
catch_error in_failed_transaction = failure 500 "Une erreur est survenue"
catch_error internal = failure 500 "Une erreur est survenue"

-- `@HttpCode`, or what the verb answers with.
unfoldable pub status_of : Route → ℕ
status_of list_conversations = 200
status_of (open_by_order order) = 201
status_of (get_conversation conv) = 200
status_of (send_message conv dto key) = 201
status_of (list_of_messages conv query) = 200
status_of (read_messages conv upto) = 204
status_of (remove_message conv message) = 204
status_of (report_message message dto) = 201
status_of list_reports = 200
status_of (resolve_report report_id action) = 201
status_of export_mine = 200
status_of delete_mine = 204
status_of (delete_by_admin user) = 204
status_of (create_order dto) = 201
status_of (presign_attachment dto) = 201
status_of (finalize_attachment attachment) = 201
status_of (download_attachment attachment) = 200
status_of (publish_packages dto) = 201
status_of (count_packages suite) = 200
status_of (claim_package target suite) = 201
status_of (enable_group conv dto) = 201
status_of (send_to_group conv dto) = 201
status_of (list_of_group conv after limit) = 200

module _ (app : App) (env : Env) where
  unfoldable pub handler : Route → JwtPayload → Option Granted → Action Answer
  handler list_conversations user granted =
      gets (λ s. conversations_answer (list_for_user user.sub default_conversations s))
  handler (open_by_order order) user granted = id_param app env order >>= λ id.
      get_or_create_for_order app.usable env id user.sub >>= λ c. pure (conversation_answer c)
  handler (get_conversation conv) user granted = get_one app env granted
  handler (send_message conv dto key) user granted = messages_send app env conv dto key user
  handler (list_of_messages conv query) user granted = messages_list app env conv query
  handler (read_messages conv upto) user granted = messages_read app env conv upto user
  handler (remove_message conv message) user granted = messages_remove app env message user
  handler (report_message message dto) user granted = moderation_report app env message dto user
  handler list_reports user granted = gets (λ s. reports_answer (list_open default_reports s))
  handler (resolve_report report_id action) user granted =
      moderation_resolve app env report_id action user
  handler export_mine user granted =
      export_user_data app.cipher env user.sub >>= λ x. pure (export_answer x)
  handler delete_mine user granted = privacy_delete app env user.sub user
  handler (delete_by_admin target) user granted =
      id_param app env target >>= λ id. privacy_delete app env id user
  handler (create_order dto) user granted =
      upsert_from_external env dto >>= λ o. pure (order_answer o)
  handler (presign_attachment dto) user granted = attachments_presign app env dto user
  handler (finalize_attachment attachment) user granted =
      attachments_finalize app env attachment user
  handler (download_attachment attachment) user granted =
      attachments_download app env attachment user
  handler (publish_packages dto) user granted = packages_publish app env dto user
  handler (count_packages suite) user granted =
      gets (λ s. count_answer (count_available env user.sub suite s))
  handler (claim_package target suite) user granted = packages_claim app env target suite user
  handler (enable_group conv dto) user granted = groups_enable app env conv dto user
  handler (send_to_group conv dto) user granted = groups_send app env conv dto user
  handler (list_of_group conv after limit) user granted = groups_list app env conv after limit user

-- `before` is the environment of the guards, `env` that of the method. "Bad Request" stands for the list
-- of what is wrong with a body; a body is looked at before the parameters of the path.
module _ (app : App) (before env : Env) where
  unfoldable pub serve : Credentials → Route → Action Answer
  serve credentials route = do
    user ← authenticate app before credentials
    granted ← run_guards app before (guards_of route) user
    throw_if (not (is_valid app.characters route)) (bad_request "Bad Request")
    handler app env route user granted

  unfoldable pub respond : Credentials → Route → Db → Response × Db
  respond credentials route s =
      let (r, s') = serve credentials route s in
      elim r [ ok a ↦ (success (status_of route) a, s') | err e ↦ (catch_error e, s') ]
