-- ===== src/Notifications.antt =====
-- backend/src/modules/notifications/notifications.service.ts: who gets an e-mail about a message.
pub mod Throttle
use messageries.Base.{
  Bool, List, [], any, false, filter, is_some, length, ltb, none, not, some, ℕ, ◌&&◌, ◌*◌, ◌+◌,
  ◌==◌, ◌||◌, ◌∷◌,
}
use messageries.Config.{Config}
use messageries.Conversations.{find_conversation}
use messageries.Db.{Action, Db, Env, gets, internal, modify, pure, throw_if, when, ◌>>=◌, ◌>>◌}
use messageries.Entities.Accounts.{User}
use messageries.Entities.Chat.{EmailNotification}

abbrev pub is_email_for : ℕ → ℕ → EmailNotification → Bool
is_email_for user conv e =
    e.user_id == user && elim e.conversation_id [ none ↦ false | some c ↦ c == conv ]

-- An e-mail of the kind that was sent within the throttle.
abbrev pub is_recent : Config → ℕ → ℕ → ℕ → EmailNotification → Bool
is_recent cfg now user conv e =
    is_email_for user conv e && ltb now (e.sent_at + cfg.email_throttle_minutes * 60000)

abbrev pub has_dedup : ℕ → ℕ → EmailNotification → Bool
has_dedup message user e = e.dedup_key.0 == message && e.dedup_key.1 == user

-- `users.find({ where: { id: In(ids) } })`, in the order of the table.
abbrev pub users_in : List ℕ → Db → List User
users_in ids s = filter (λ u. any (λ i. u.id == i) ids) s.users

-- `mailer u` is whether the mail server takes the e-mail to the user.
module _ (mailer : User → Bool) (cfg : Config) (env : Env) where
  abbrev pub email_row : ℕ → ℕ → ℕ → ℕ → EmailNotification
  email_row n message conv user = record {
    id = env.uuid n;
    user_id = user;
    conversation_id = some conv;
    kind = "new_message";
    sent_at = env.now;
    dedup_key = (message, user);
  }

  -- `email.send` and `emails.save`; the unique violation of `dedup_key` is caught.
  unfoldable pub send_email : ℕ → ℕ → User → Action (Unit {0})
  send_email message conv u = do
    throw_if (not (mailer u)) internal
    modify (λ s. record s { mailed = (message, u.id) ∷ s.mailed })
    rows ← gets (λ s. s.emails)
    when (not (any (has_dedup message u.id) rows))
        (modify (λ s. record s { emails = email_row (length rows) message conv u.id ∷ s.emails }))

  -- One turn of the loop.
  unfoldable pub notify_user : ℕ → ℕ → User → Action (Unit {0})
  notify_user message conv u = do
    rows ← gets (λ s. s.emails)
    when
        (not
          (u.is_suspended || is_some u.anonymized_at || any (is_recent cfg env.now u.id conv) rows))
        (send_email message conv u)

  unfoldable pub notify_users : ℕ → ℕ → List User → Action (Unit {0})
  notify_users message conv [] = pure tt
  notify_users message conv (u ∷ us) =
      let rest = notify_users message conv us in notify_user message conv u >> rest

  unfoldable pub notify_new_message : ℕ → ℕ → List ℕ → Action (Unit {0})
  notify_new_message message conversation_id recipients = do
    users ← gets (users_in recipients)
    conv ← gets (find_conversation conversation_id)
    elim conv [ none ↦ pure tt | some c ↦ notify_users message c.id users ]
