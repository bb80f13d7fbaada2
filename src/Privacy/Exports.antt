-- ===== src/Privacy/Exports.antt =====
-- `exportUserData` of backend/src/modules/privacy/privacy.service.ts.
use messageries.Base.{
  All, All-update_where, Bool-cases, Option-cases, [], arith, false, filter-All, filter-eq_nil,
  find, find-update_where, find_sound, inl, inr, map, none, refl, some, subst, sym, true, ℕ, ◌≡◌,
}
use messageries.Base.Text.{Text}
use messageries.Config.{Config}
use messageries.Crypto.{BodyCipher}
use messageries.Db.{Db, Env, ok}
use messageries.Entities.Accounts.{User}
use messageries.Privacy.{
  UserExport, anonymize_user, anonymous, conversations_of, erased, export_user_data,
  exported_message, has_user_id, is_exported, is_sent_by, messages_of, pseudo_email,
}
use messageries.Privacy.Erasure.{anonymize_user_inv}
use messageries.Scanner.{is_empty}
use messageries.Users.{Crypt}

messages_of-All : (user : ℕ) (s : Db) → All (λ m. is_exported user m ≡ true) (messages_of user s)
unfolding messages_of
messages_of-All user s = elim (Bool-cases (is_empty (conversations_of user s))) [
  | inl t ↦ rw (t, messages_of) tt
  | inr f ↦ rw (f, messages_of) (filter-All (is_exported user) s.messages)
]

messages_of-nil :
    (user : ℕ) (s : Db) → All (λ m. is_exported user m ≡ false) s.messages → messages_of user s ≡ []
unfolding messages_of
messages_of-nil user s h = ground (arith, filter-eq_nil (is_exported user) s.messages h)

module _ (cipher : BodyCipher) (env : Env) where
  -- An export answers with the account that was asked for, and holds only messages that this user
  -- sent and that are not deleted.
  pub export_inv :
      (user_id : ℕ) (s s' : Db) (x : UserExport)
      → export_user_data cipher env user_id s ≡ (ok x, s')
      → (u : User) × (find (has_user_id user_id) s.users ≡ some u)
        × (x.email ≡ u.email)
        × (x.conversations ≡ conversations_of user_id s)
        × (x.messages ≡ map (exported_message cipher s) (messages_of user_id s))
        × All (λ m. is_exported user_id m ≡ true) (messages_of user_id s)
        × (s'.messages ≡ s.messages)
  unfolding export_user_data
  export_inv user_id s s' x h = elim (Option-cases (find (has_user_id user_id) s.users)) [
    | inl missing ↦ absurd (ground arith)
    | inr (u, found) ↦ (
      u,
      found,
      ground arith,
      ground arith,
      ground arith,
      messages_of-All user_id s,
      ground arith,
    )
  ]

-- An export that follows the anonymisation of a known account that was not anonymised before holds
-- no message, and the address of nobody.
pub export_after_anonymize :
    (cipher : BodyCipher) (crypt : Crypt) (print_id : ℕ → Text) (hash : Text → ℕ) (cfg : Config)
    (env later : Env) (user_id actor : ℕ) (s s' s'' : Db) (u : User) (x : UserExport)
    → find (has_user_id user_id) s.users ≡ some u
    → u.anonymized_at ≡ none
    → anonymize_user crypt print_id hash cfg env user_id actor s ≡ (ok tt, s')
    → export_user_data cipher later user_id s' ≡ (ok x, s'')
    → (x.messages ≡ []) × (x.email ≡ pseudo_email crypt print_id hash cfg env user_id)
export_after_anonymize cipher crypt print_id hash cfg env later user_id actor s s' s'' u x found
      fresh done exported =
    let (users, messages, tokens) =
      anonymize_user_inv crypt print_id hash cfg env user_id actor s s' u found fresh done in
    let (v, row, email, conversations, exports, all, kept) =
      export_inv cipher later user_id s' s'' x exported in
    let gone = messages_of-nil user_id s' (
      subst (All (λ m. is_exported user_id m ≡ false)) (sym messages) (
        All-update_where (λ m. is_exported user_id m ≡ false) (is_sent_by user_id)
          (erased crypt print_id hash cfg env) s.messages (λ m hit. ground arith)
          (λ m miss. ground arith))) in
    let renamed =
      find-update_where (has_user_id user_id) (has_user_id user_id)
        (anonymous crypt print_id hash cfg env) s.users (λ y. refl) in
    let hit = find_sound (has_user_id user_id) s.users u found in
    let same : u.id ≡ user_id = ground arith in (ground (arith, gone, exports), ground arith)
