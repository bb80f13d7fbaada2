-- ===== src/Messages/Marks.antt =====
-- Requests that mark a conversation and write no message: `enableE2ee` of e2ee.service.ts,
-- `enableIndexing` and `disableIndexing` of search.service.ts.
use messageries.Base.{
  Bool, Bool-cases, List, Option-cases, [], any, ap, arith, false, find, inl, inr, map, none, refl,
  some, subst, sym, true, update_where, ℕ, ◌+◌, ◌==◌, ◌∙◌, ◌∷◌, ◌≡◌, ◌⊎◌,
}
use messageries.Config.{Config}
use messageries.Conversations.{
  assert_can_access, find_conversation, get_by_id_or_throw, has_conv_id, join_as_staff,
  list_participants,
}
use messageries.Crypto.{BodyCipher}
use messageries.Db.{Db, Env, outcome, transaction}
use messageries.E2ee.{
  EnableInput, WelcomeMessage, enable_e2ee, enable_in_tx, has_group, save_mls, save_welcomes,
  welcome_row,
}
use messageries.Entities.Accounts.{UserRole}
use messageries.Entities.Chat.{Conversation}
use messageries.Entities.Mls.{MlsMessage}
use messageries.Messages.Sequence.{IsNumbered}
use messageries.Outbox.{mark}
use messageries.Search.{
  Indexed, backfill, backfill_messages, disable_indexing, enable_in_db, enable_indexing,
}
use messageries.Search.OpenSearch.{Engine, is_enabled}

-- A change of a row that keeps its identifier and its count of messages.
abbrev pub IsMark : (Conversation → Conversation) → Type 0
IsMark f = (x : Conversation) → ((f x).id ≡ x.id) × ((f x).last_sequence ≡ x.last_sequence)

-- The messages are the same, and at most a mark was put on the rows of one conversation.
abbrev pub IsMarked : Db → Db → Type 0
IsMarked s s' =
    (s'.messages ≡ s.messages)
    × ((s'.conversations ≡ s.conversations)
        ⊎ ((id : ℕ) × (f : Conversation → Conversation) × IsMark f
            × (s'.conversations ≡ update_where (has_conv_id id) f s.conversations)))

find-mark :
    (id conv : ℕ) (f : Conversation → Conversation)
    → IsMark f
    → (cs : List Conversation) (c : Conversation)
    → find (has_conv_id conv) (update_where (has_conv_id id) f cs) ≡ some c
    → (d : Conversation) × (find (has_conv_id conv) cs ≡ some d)
      × (d.last_sequence ≡ c.last_sequence)
find-mark id conv f mark [] c h = absurd (ground arith)
find-mark id conv f mark (x ∷ cs) c h =
    let (same_id, same_count) = mark x in
    elim (Bool-cases (x.id == conv)) [
      | inl hit ↦ (x, ground arith, ground (arith, same_id, same_count))
      | inr miss ↦
          let (d, found, same) = find-mark id conv f mark cs c (ground (arith, same_id)) in
          (d, ground arith, same)
    ]

-- The numbering of the messages is kept.
pub marked-IsNumbered : (s s' : Db) → IsMarked s s' → IsNumbered s → IsNumbered s'
unfolding find_conversation
marked-IsNumbered s s' (messages, inl rows) numbered conv c found =
    rw messages (numbered conv c (rw rows at found))
marked-IsNumbered s s' (messages, inr (id, f, mark, rows)) numbered conv c found =
    let (d, before, same) = find-mark id conv f mark s.conversations c (rw rows at found) in
    rw (messages, sym same) (numbered conv d before)

access-same :
    (env : Env) (user : ℕ) (role : UserRole) (conv : ℕ) (s : Db)
    → ((assert_can_access env user role conv s).1.messages ≡ s.messages)
      × ((assert_can_access env user role conv s).1.conversations ≡ s.conversations)
unfolding assert_can_access join_as_staff get_by_id_or_throw
access-same env user role conv s = elim (Option-cases (find_conversation conv s)) [
  | inl missing ↦ ground arith
  | inr (c, found) ↦ ground arith
]

save_mls-same :
    (env : Env) (m : MlsMessage) (s : Db)
    → let s' = (save_mls env m s).1 in
      (s'.messages ≡ s.messages) × (s'.conversations ≡ s.conversations)
unfolding save_mls
save_mls-same env m s = ground arith

save_welcomes-same :
    (env : Env) (input : EnableInput) (group seq : ℕ) (ws : List WelcomeMessage) (s : Db)
    → let s' = (save_welcomes env input group seq ws s).1 in
      (s'.messages ≡ s.messages) × (s'.conversations ≡ s.conversations)
unfolding save_welcomes
save_welcomes-same env input group seq [] s = (refl, refl)
save_welcomes-same env input group seq (w ∷ ws) s =
    let row = welcome_row env input group (seq + 1) w in
    let (messages, conversations) = save_mls-same env row s in
    elim (outcome (save_mls env row s)) [
      | inl (u, t, saved) ↦ ground (arith, saved, save_welcomes-same env input group (seq + 1) ws t)
      | inr (e, t, threw) ↦ ground (arith, threw)
    ]

enable_in_tx-IsMarked :
    (env : Env) (input : EnableInput) (s : Db) → IsMarked s (enable_in_tx env input s).1
unfolding enable_in_tx
enable_in_tx-IsMarked env input s =
    let opened : Db = record s {
      groups =
          record {
            id = env.uuid 0;
            conversation_id = input.conversation_id;
            group_id_mls = input.group_id_mls;
            cipher_suite = input.cipher_suite;
            epoch = 0;
            created_by = input.actor_id;
            created_at = env.now;
          }
          ∷ s.groups;
    } in
    let same = save_welcomes-same env input (env.uuid 0) 0 input.welcome_messages opened in
    elim (Bool-cases (any (has_group input.conversation_id) s.groups)) [
      | inl taken ↦ (ground arith, inl (ground arith))
      | inr free ↦
          elim (outcome (save_welcomes env input (env.uuid 0) 0 input.welcome_messages opened)) [
            | inr (e, t, threw) ↦ (ground (arith, same), inl (ground (arith, same)))
            | inl (u, t, saved) ↦ (
              ground (arith, same),
              inr (
                input.conversation_id,
                λ c. record c { e2ee_enabled = true; e2ee_enabled_at = some env.now },
                λ x. (refl, refl),
                ground (arith, same),
              ),
            )
          ]
    ]

pub enable_e2ee-IsMarked :
    (env : Env) (input : EnableInput) (s : Db) → IsMarked s (enable_e2ee env input s).1
unfolding enable_e2ee transaction
enable_e2ee-IsMarked env input s =
    let (messages, rows) =
      access-same env input.actor_id input.actor_role input.conversation_id s in
    elim (outcome (assert_can_access env input.actor_id input.actor_role input.conversation_id s)) [
      | inr (e, t, threw) ↦ (ground arith, inl (ground arith))
      | inl (access, t, entered) ↦ elim (Bool-cases access.conversation.e2ee_enabled) [
        | inl on ↦ (ground arith, inl (ground arith))
        | inr off ↦ elim (outcome (enable_in_tx env input t)) [
          | inr (e, t', undone) ↦ (ground arith, inl (ground arith))
          | inl (g, t', done) ↦
              let ended : (enable_e2ee env input s).1 ≡ t' = ground arith in
              let (same, marked) = enable_in_tx-IsMarked env input t in
              let at_t : IsMarked t t' = subst (IsMarked t) (ap (λ x. x.1) done) (same, marked) in
              subst (IsMarked s) (sym ended) (
                at_t.0 ∙ (ap (λ x. x.1.messages) (sym entered) ∙ messages),
                subst
                    (λ cs.
                      (t'.conversations ≡ cs)
                      ⊎ ((id : ℕ) × (f : Conversation → Conversation) × IsMark f
                          × (t'.conversations ≡ update_where (has_conv_id id) f cs)))
                    (ap (λ x. x.1.conversations) (sym entered) ∙ rows) at_t.1,
              )
        ]
      ]
    ]

-- What `assert_can_access` leaves is no mark, and what follows it starts from the same rows.
after_access :
    (env : Env) (user : ℕ) (role : UserRole) (conv : ℕ) (s s' : Db)
    → IsMarked (assert_can_access env user role conv s).1 s'
    → IsMarked s s'
after_access env user role conv s s' (same, marked) =
    let (messages, rows) = access-same env user role conv s in
    (
      same ∙ messages,
      subst
          (λ cs.
            (s'.conversations ≡ cs)
            ⊎ ((id : ℕ) × (f : Conversation → Conversation) × IsMark f
                × (s'.conversations ≡ update_where (has_conv_id id) f cs)))
          rows marked,
    )

module _ {Index : Type 0} (engine : Engine Index) (cipher : BodyCipher) (cfg : Config)
    (ready : Bool) (env : Env) (conv actor : ℕ) (role : UserRole) (st : Indexed Index) where
  enable_in_db-IsMarked :
      (c : Conversation) (s : Db)
      → IsMarked s (enable_in_db engine cipher cfg ready env c actor s st.index).1.db
  unfolding enable_in_db
  enable_in_db-IsMarked c s = elim (Bool-cases c.search_indexed) [
    | inl already ↦ (ground arith, inl (ground arith))
    | inr fresh ↦ elim (Bool-cases (is_enabled cfg ready)) [
      | inr off ↦ (ground arith, inl (ground arith))
      | inl on ↦
          let messages = backfill_messages c.id s in
          let people = map (λ p. p.user_id) (list_participants c.id s) in
          elim (Bool-cases (backfill engine cipher cfg ready env people s messages st.index).0) [
            | inr stopped ↦ (ground arith, inl (ground arith))
            | inl filled ↦ (
              ground arith,
              inr (
                c.id,
                λ x. record x { search_indexed = true; search_indexed_at = some env.now },
                λ x. (refl, refl),
                ground arith,
              ),
            )
          ]
    ]
  ]

  pub enable_indexing-IsMarked :
      IsMarked st.db (enable_indexing engine cipher cfg ready env conv actor role st).1.db
  unfolding enable_indexing
  enable_indexing-IsMarked =
      let s = (assert_can_access env actor role conv st.db).1 in
      after_access env actor role conv st.db
        (enable_indexing engine cipher cfg ready env conv actor role st).1.db
        (elim (outcome (assert_can_access env actor role conv st.db)) [
          | inr (e, t, threw) ↦ (ground arith, inl (ground arith))
          | inl (a, t, entered) ↦
              let ended : (enable_indexing engine cipher cfg ready env conv actor role st).1.db
                  ≡ (enable_in_db engine cipher cfg ready env a.conversation actor s
                      st.index).1.db =
                ground arith in
              subst (IsMarked s) (sym ended) (enable_in_db-IsMarked a.conversation s)
        ])

  pub disable_indexing-IsMarked :
      IsMarked st.db (disable_indexing engine cipher cfg ready env conv actor role st).1.db
  unfolding disable_indexing
  disable_indexing-IsMarked =
      let s = (assert_can_access env actor role conv st.db).1 in
      after_access env actor role conv st.db
        (disable_indexing engine cipher cfg ready env conv actor role st).1.db
        (elim (outcome (assert_can_access env actor role conv st.db)) [
          | inr (e, t, threw) ↦ (ground arith, inl (ground arith))
          | inl (a, t, entered) ↦ (
            ground arith,
            inr (
              conv,
              λ x. record x { search_indexed = false; search_indexed_at = none },
              λ x. (refl, refl),
              ground arith,
            ),
          )
        ])
