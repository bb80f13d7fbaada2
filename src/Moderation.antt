-- ===== src/Moderation.antt =====
-- backend/src/modules/moderation/moderation.service.ts: messages are reported, and moderators
-- resolve the reports.
pub mod Resolution
use messageries.Base.{
  Bool, List, Option, String, false, filter, find, none, some, take, true, update_where, ℕ, ◌==◌,
  ◌∷◌,
}
use messageries.Audit.{log}
use messageries.Base.Sorting.{sort_desc}
use messageries.Base.Text.{Text}
use messageries.Db.{Action, Db, Env, gets, modify, not_found, or_throw, pure, when, ◌>>=◌, ◌>>◌}
use messageries.Entities.Accounts.{reported_as, resolved_for}
use messageries.Entities.Chat.{
  Message, MessageReport, ReportStatus, actioned, dismissed, hidden, is_open_report, open_report,
}

pub record ReportInput : Type 0 where
  pub message_id : ℕ
  pub reporter_id : ℕ
  pub reason : Text
  pub details : Option Text

pub data ResolveAction : Type 0 where
  dismiss hide_message : ResolveAction

pub record ResolveInput : Type 0 where
  pub report_id : ℕ
  pub moderator_id : ℕ
  pub action : ResolveAction

abbrev pub has_message_id : ℕ → Message → Bool
has_message_id id m = m.id == id

abbrev pub has_report_id : ℕ → MessageReport → Bool
has_report_id id r = r.id == id

-- `input.action === 'hide_message'`
abbrev pub hides : ResolveAction → Bool
hides dismiss = false
hides hide_message = true

abbrev pub status_after : ResolveAction → ReportStatus
status_after dismiss = dismissed
status_after hide_message = actioned

abbrev pub action_name : ResolveAction → String
action_name dismiss = "report.dismiss"
action_name hide_message = "report.hide_message"

-- The newest reports that are open.
unfoldable pub list_open : ℕ → Db → List MessageReport
list_open limit s =
    take limit (sort_desc (λ r. r.created_at) (filter (λ r. is_open_report r.status) s.reports))

module _ (env : Env) where
  abbrev pub report_row : ReportInput → MessageReport
  report_row input = record {
    id = env.uuid 0;
    message_id = input.message_id;
    reporter_id = input.reporter_id;
    reason = input.reason;
    details = input.details;
    status = open_report;
    resolved_by = none;
    resolved_at = none;
    created_at = env.now;
  }

  unfoldable pub report : ReportInput → Action MessageReport
  report input = do
    row ← gets (λ s. find (has_message_id input.message_id) s.messages)
    msg ← or_throw row (not_found "")
    modify (λ s. record s { reports = report_row input ∷ s.reports })
    log env 1 (some input.reporter_id) "message.reported" "message" (some input.message_id)
        (reported_as (env.uuid 0) input.reason)
    pure (report_row input)

  abbrev pub resolved : ResolveInput → MessageReport → MessageReport
  resolved input r = record r {
    status = status_after input.action;
    resolved_by = some input.moderator_id;
    resolved_at = some env.now;
  }

  abbrev pub moderated : ℕ → Message → Message
  moderated moderator m = record m {
    status = hidden;
    moderated_by = some moderator;
    moderated_at = some env.now;
  }

  unfoldable pub resolve : ResolveInput → Action MessageReport
  resolve input = do
    row ← gets (λ s. find (has_report_id input.report_id) s.reports)
    r ← or_throw row (not_found "")
    modify (λ s. record s {
      reports = update_where (has_report_id r.id) (λ x. resolved input r) s.reports;
    })
    when (hides input.action) (
        modify (λ s. record s {
          messages =
              update_where (has_message_id r.message_id) (moderated input.moderator_id) s.messages;
        }))
    log env 0 (some input.moderator_id) (action_name input.action) "report" (some r.id)
        (resolved_for r.message_id)
    pure (resolved input r)
