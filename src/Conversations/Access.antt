-- ===== src/Conversations/Access.antt =====
-- `assertCanAccess` of backend/src/modules/conversations/conversations.service.ts.
use messageries.Base.{
  Option-cases, arith, false, find, inl, inr, none, some, true, ℕ, ◌≡◌, ◌≢◌, ◌⊎◌,
}
use messageries.Conversations.{
  Granted, assert_can_access, find_conversation, is_active, save_participant,
}
use messageries.Db.{Db, Env, ok}
use messageries.Entities.Accounts.{UserRole, is_staff}
use messageries.Entities.Chat.{ConversationParticipant}

module _ (env : Env) (user : ℕ) (role : UserRole) (conv : ℕ) where
  -- Access is granted to an active participant, under the role of the row and with no change, and
  -- to staff, who are entered as a participant; nobody else gets through.
  pub assert_can_access_inv :
      (s s' : Db) (a : Granted)
      → assert_can_access env user role conv s ≡ (ok a, s')
      → (find_conversation conv s ≡ some a.conversation)
        × (((p : ConversationParticipant) × (find (is_active conv user) s.participants ≡ some p)
              × (a.participant_role ≡ p.role)
              × (s' ≡ s))
            ⊎ ((is_staff role ≡ true)
                × (a.participant_role ≡ role)
                × (s'.participants
                    ≡ save_participant env a.conversation.id user role s.participants)))
  unfolding assert_can_access
  assert_can_access_inv s s' a e = elim (Option-cases (find_conversation conv s)) [
    | inl missing ↦ absurd (ground arith)
    | inr (c, found) ↦ elim (Option-cases (find (is_active conv user) s.participants)) [
      | inl outsider ↦ (ground arith, inr (ground arith))
      | inr (p, member) ↦ (ground arith, inl (p, member, ground arith, ground arith))
    ]
  ]

  -- A customer or seller who is not an active participant is refused, and nothing changes.
  pub outsider_refused :
      (s : Db)
      → is_staff role ≡ false
      → find (is_active conv user) s.participants ≡ none
      → ((assert_can_access env user role conv s).1 ≡ s)
        × ((a : Granted) → (assert_can_access env user role conv s).0 ≢ ok a)
  unfolding assert_can_access
  outsider_refused s h none_active = (ground arith, λ a. ground arith)
