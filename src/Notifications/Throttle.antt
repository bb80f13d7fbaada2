-- ===== src/Notifications/Throttle.antt =====
-- `notifyNewMessage` of backend/src/modules/notifications/notifications.service.ts: the time between
-- the recorded e-mails to one user about one conversation.
use messageries.Base.{
  Bool, List, Option-cases, [], any, arith, false, inl, inr, none, some, subst, sym, true, ℕ, ◌∷◌,
  ◌≡◌,
}
use messageries.Config.{Config}
use messageries.Conversations.{find_conversation}
use messageries.Db.{>>=-err, >>=-ok, Db, Env, ok, outcome}
use messageries.Entities.Accounts.{User}
use messageries.Entities.Chat.{EmailNotification}
use messageries.Notifications.{
  has_dedup, is_recent, notify_new_message, notify_user, notify_users, send_email, users_in,
}

-- No e-mail of the list falls within the throttle before `e`, for its user and conversation.
abbrev pub IsSpaced : Config → EmailNotification → List EmailNotification → Type 0
IsSpaced cfg e es = elim e.conversation_id [
  | none ↦ Unit
  | some c ↦ any (is_recent cfg e.sent_at e.user_id c) es ≡ false
]

-- Every e-mail is spaced from all earlier ones.
abbrev pub IsThrottled : Config → List EmailNotification → Type 0
IsThrottled cfg [] = Unit
IsThrottled cfg (e ∷ es) = IsSpaced cfg e es × IsThrottled cfg es

module _ (mailer : User → Bool) (cfg : Config) (env : Env) where
  notify_user-IsThrottled :
      (message conv : ℕ) (u : User) (s : Db)
      → IsThrottled cfg s.emails
      → IsThrottled cfg (notify_user mailer cfg env message conv u s).1.emails
  unfolding notify_user send_email
  notify_user-IsThrottled message conv u s h = ground arith

  notify_users-IsThrottled :
      (message conv : ℕ) (us : List User) (s : Db)
      → IsThrottled cfg s.emails
      → IsThrottled cfg (notify_users mailer cfg env message conv us s).1.emails
  unfolding notify_users
  notify_users-IsThrottled message conv [] s h = h
  notify_users-IsThrottled message conv (u ∷ us) s h =
      let kept = notify_user-IsThrottled message conv u s h in
      let one = notify_user mailer cfg env message conv u in
      let rest = notify_users mailer cfg env message conv us in
      elim (outcome (one s)) [
        | inl (a, s', done) ↦
            subst (λ x. IsThrottled cfg x.1.emails) (sym (>>=-ok one (λ _. rest) s done))
              (notify_users-IsThrottled message conv us s'
                (subst (λ x. IsThrottled cfg x.1.emails) done kept))
        | inr (e, s', threw) ↦
            subst (λ x. IsThrottled cfg x.1.emails) (sym (>>=-err one (λ _. rest) s threw))
              (subst (λ x. IsThrottled cfg x.1.emails) threw kept)
      ]

  -- A notification, whatever it does and however it ends, keeps the rows of the table `emails` about
  -- one user and one conversation at least the throttle apart. Of the e-mails that were sent it says
  -- nothing: each is sent before its row, and one whose row the unique key refuses leaves none.
  pub notify-IsThrottled :
      (message conv : ℕ) (recipients : List ℕ) (s : Db)
      → IsThrottled cfg s.emails
      → IsThrottled cfg (notify_new_message mailer cfg env message conv recipients s).1.emails
  unfolding notify_new_message
  notify-IsThrottled message conv recipients s h = elim (Option-cases (find_conversation conv s)) [
    | inl missing ↦ ground arith
    | inr (c, found) ↦
        ground (arith, notify_users-IsThrottled message c.id (users_in recipients s) s h)
  ]

  -- A user whom the mail server reaches, and who got this very message more than the throttle ago,
  -- gets it again: the unique key keeps the row out, after the e-mail has been sent.
  pub duplicate_mailed :
      (message conv : ℕ) (u : User) (s : Db)
      → u.is_suspended ≡ false
      → u.anonymized_at ≡ none
      → mailer u ≡ true
      → any (is_recent cfg env.now u.id conv) s.emails ≡ false
      → any (has_dedup message u.id) s.emails ≡ true
      → notify_user mailer cfg env message conv u s
        ≡ (ok tt, record s { mailed = (message, u.id) ∷ s.mailed })
  unfolding notify_user send_email
  duplicate_mailed message conv u s active named reached old sent_before = ground arith
