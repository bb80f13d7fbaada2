-- ===== src/Privacy/Erasure.antt =====
-- `anonymizeUser` of backend/src/modules/privacy/privacy.service.ts.
use messageries.Base.{
  All, All-update_where, Option, Option-cases, [], any, arith, false, filter, filter-All-of, find,
  find-update_where, find_sound, inl, inr, is_none, none, refl, some, subst, sym, true,
  update_where, ℕ, ◌≡◌, ◌⊎◌,
}
use messageries.Auth.{is_disabled}
use messageries.Base.Text.{Text}
use messageries.Config.{Config}
use messageries.Conversations.{find_conversation}
use messageries.Crypto.{BodyCipher}
use messageries.Db.{Db, Env, Error, err, ok, transaction, when}
use messageries.Entities.Accounts.{User}
use messageries.Entities.Chat.{Message}
use messageries.Messages.Decryption.{shown_text, to_decrypted}
use messageries.Messages.Sequence.{IsNumbered, sequences-update_where}
use messageries.Privacy.{
  anonymize_in_tx, anonymize_user, anonymous, erase_user, erased, has_user_id, is_sent_by,
}
use messageries.Tokens.{live_of, revoke_all_for_user, revoke_live}
use messageries.Tokens.Table.{revoke_live-none}
use messageries.Users.{Crypt}

-- A message is shown as the empty text, whatever text is known.
abbrev pub IsBlank : BodyCipher → Db → Message → Type 0
IsBlank cipher s m =
    (m.body ≡ none)
    × (m.body_ciphertext ≡ none)
    × ((known : Option Text)
        → to_decrypted cipher known m s ≡ (ok (record { message = m; body = [] }), s))

module _ (crypt : Crypt) (print_id : ℕ → Text) (hash : Text → ℕ) (cfg : Config) (env : Env) where
  abbrev pub After : ℕ → Db → Db → Type 0
  After user s s' =
      (s'.users ≡ update_where (has_user_id user) (anonymous crypt print_id hash cfg env) s.users)
      × (s'.messages
          ≡ update_where (is_sent_by user) (erased crypt print_id hash cfg env) s.messages)
      × (s'.refresh_tokens ≡ revoke_live env.now "gdpr_anonymized" user s.refresh_tokens)

  erase_user_cases :
      (u : User) (s : Db)
      → let (r, s') = erase_user crypt print_id hash cfg env u s in
        ((r ≡ ok tt)
          × After u.id s s'
          × (s'.conversations ≡ s.conversations)
          × (s'.outbox ≡ s.outbox))
        ⊎ ((e : Error) × (r ≡ err e) × (s' ≡ s))
  unfolding erase_user revoke_all_for_user
  erase_user_cases u s = ground arith

  anonymize_in_tx-found :
      (user_id : ℕ) (s : Db) (u : User)
      → find (has_user_id user_id) s.users ≡ some u
      → anonymize_in_tx crypt print_id hash cfg env user_id s
        ≡ when (is_none u.anonymized_at) (erase_user crypt print_id hash cfg env u) s
  unfolding anonymize_in_tx
  anonymize_in_tx-found user_id s u found = ground arith

  -- What the anonymisation of an account that was not anonymised writes.
  pub anonymize_user_inv :
      (user_id actor : ℕ) (s s' : Db) (u : User)
      → find (has_user_id user_id) s.users ≡ some u
      → u.anonymized_at ≡ none
      → anonymize_user crypt print_id hash cfg env user_id actor s ≡ (ok tt, s')
      → After user_id s s'
  unfolding anonymize_user transaction
  anonymize_user_inv user_id actor s s' u found fresh h =
      let hit = find_sound (has_user_id user_id) s.users u found in
      let same : u.id ≡ user_id = ground arith in
      let opened = anonymize_in_tx-found user_id s u found in
      subst (λ i. After i s s') same
        (elim (erase_user_cases u s) [
          | inl (done, (users, messages, tokens), conversations, outbox) ↦
              (ground arith, ground arith, ground arith)
          | inr (e, threw, kept) ↦ absurd (ground arith)
        ])

  -- Once a known account that was not anonymised before is, the messages of the user hold no text
  -- and no ciphertext and are shown empty to everybody, no refresh token of the user is live, and no
  -- row of the account can log in.
  pub anonymize_user_erases :
      (cipher : BodyCipher) (user_id actor : ℕ) (s s' : Db) (u : User)
      → find (has_user_id user_id) s.users ≡ some u
      → u.anonymized_at ≡ none
      → anonymize_user crypt print_id hash cfg env user_id actor s ≡ (ok tt, s')
      → All (IsBlank cipher s') (filter (is_sent_by user_id) s'.messages)
        × (any (live_of user_id) s'.refresh_tokens ≡ false)
        × All (λ x. is_disabled x ≡ true) (filter (has_user_id user_id) s'.users)
  unfolding to_decrypted shown_text
  anonymize_user_erases cipher user_id actor s s' u found fresh h =
      let (users, messages, tokens) = anonymize_user_inv user_id actor s s' u found fresh h in
      let Sent = λ (m : Message). is_sent_by user_id m ≡ true → IsBlank cipher s' m in
      let Own = λ (x : User). has_user_id user_id x ≡ true → is_disabled x ≡ true in
      (
        filter-All-of (IsBlank cipher s') (is_sent_by user_id) s'.messages (
            subst (All Sent) (sym messages) (
              All-update_where Sent (is_sent_by user_id) _ s.messages
                (λ x hit e. (refl, refl, λ known. refl)) (λ x miss e. absurd (ground arith)))),
        rw tokens (revoke_live-none env.now "gdpr_anonymized" user_id s.refresh_tokens),
        filter-All-of (λ x. is_disabled x ≡ true) (has_user_id user_id) s'.users
            (subst (All Own) (sym users) (
              All-update_where Own (has_user_id user_id) _ s.users (λ x hit e. refl)
                (λ x miss e. absurd (ground arith)))),
      )

  -- Anonymisation, whatever its outcome, keeps every message number.
  pub anonymize_user-IsNumbered :
      (user_id actor : ℕ) (s : Db)
      → IsNumbered s
      → IsNumbered (anonymize_user crypt print_id hash cfg env user_id actor s).1
  unfolding anonymize_user anonymize_in_tx transaction find_conversation
  anonymize_user-IsNumbered user_id actor s numbered conv c found =
      elim (Option-cases (find (has_user_id user_id) s.users)) [
        | inl missing ↦ ground (arith, numbered conv c)
        | inr (u, row) ↦
            let opened = anonymize_in_tx-found user_id s u row in
            let kept =
              sequences-update_where conv (is_sent_by u.id) (erased crypt print_id hash cfg env)
                s.messages (λ m. refl) (λ m. refl) in
            elim (erase_user_cases u s) [
              | inl (done, (users, messages, tokens), conversations, outbox) ↦
                  ground (arith, numbered conv c, kept)
              | inr (e, threw, same) ↦ ground (arith, numbered conv c)
            ]
      ]

  pub anonymize_user-outbox :
      (user_id actor : ℕ) (s : Db)
      → (anonymize_user crypt print_id hash cfg env user_id actor s).1.outbox ≡ s.outbox
  unfolding anonymize_user anonymize_in_tx transaction
  anonymize_user-outbox user_id actor s = elim (Option-cases (find (has_user_id user_id) s.users)) [
    | inl missing ↦ ground arith
    | inr (u, row) ↦
        let opened = anonymize_in_tx-found user_id s u row in
        elim (erase_user_cases u s) [
          | inl (done, after, conversations, outbox) ↦ ground arith
          | inr (e, threw, same) ↦ ground arith
        ]
  ]

  -- A second anonymisation only adds to the audit log.
  pub anonymize_again :
      (user_id actor other : ℕ) (s s' : Db) (u : User)
      → find (has_user_id user_id) s.users ≡ some u
      → u.anonymized_at ≡ none
      → anonymize_user crypt print_id hash cfg env user_id actor s ≡ (ok tt, s')
      → anonymize_user crypt print_id hash cfg env user_id other s' ≡ (
        ok tt,
        record s' {
          audit_log = (anonymize_user crypt print_id hash cfg env user_id other s').1.audit_log;
        },
      )
  unfolding anonymize_user anonymize_in_tx transaction
  anonymize_again user_id actor other s s' u found fresh h =
      let (users, messages, tokens) = anonymize_user_inv user_id actor s s' u found fresh h in
      let kept =
        find-update_where (has_user_id user_id) (has_user_id user_id)
          (anonymous crypt print_id hash cfg env) s.users (λ x. refl) in
      let same = find_sound (has_user_id user_id) s.users u found in ground arith
