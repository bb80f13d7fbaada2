-- ===== src/Conversations/Activity.antt =====
-- Active participants under the updates of conversations.service.ts and `markRead`.
use messageries.Base.{
  Bool, List, Option-cases, [], arith, find, inl, inr, is_some, refl, true, update_where, ℕ, ◌∷◌,
  ◌≡◌,
}
use messageries.Conversations.{
  assert_can_access, find_conversation, get_by_id_or_throw, is_active, is_member, join_as_staff,
  save_participant,
}
use messageries.Db.{Db, Env}
use messageries.Entities.Accounts.{UserRole}
use messageries.Entities.Chat.{ConversationParticipant}

abbrev pub has_active : ℕ → ℕ → Db → Bool
has_active conv user s = is_some (find (is_active conv user) s.participants)

-- Whoever was an active participant still is.
abbrev pub KeepsActive : Db → Db → Type 0
KeepsActive s s' = (conv user : ℕ) → has_active conv user s ≡ true → has_active conv user s' ≡ true

pub find-map-update :
    (conv user : ℕ) (q : ConversationParticipant → Bool)
    (f : ConversationParticipant → ConversationParticipant) (ps : List ConversationParticipant)
    → ((p : ConversationParticipant) → is_active conv user (f p) ≡ is_active conv user p)
    → is_some (find (is_active conv user) (update_where q f ps))
      ≡ is_some (find (is_active conv user) ps)
find-map-update conv user q f [] h = refl
find-map-update conv user q f (p ∷ ps) h = ground (arith, h p, find-map-update conv user q f ps h)

save_participant-active :
    (env : Env) (conv user c u : ℕ) (role : UserRole) (ps : List ConversationParticipant)
    → is_some (find (is_active conv user) ps) ≡ true
    → is_some (find (is_active conv user) (save_participant env c u role ps)) ≡ true
unfolding save_participant
save_participant-active env conv user c u role ps h =
    let kept =
      find-map-update conv user (is_member c u) (λ p. record p { role = role }) ps (λ p. refl) in
    ground arith

pub assert_can_access-KeepsActive :
    (env : Env) (user : ℕ) (role : UserRole) (conv : ℕ) (s : Db)
    → KeepsActive s (assert_can_access env user role conv s).1
unfolding assert_can_access join_as_staff get_by_id_or_throw
assert_can_access-KeepsActive env user role conv s c u h =
    elim (Option-cases (find_conversation conv s)) [
      | inl missing ↦ ground arith
      | inr (x, found) ↦
          let kept = save_participant-active env c u x.id user role s.participants in ground arith
    ]
