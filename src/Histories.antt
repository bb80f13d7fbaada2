-- ===== src/Histories.antt =====
-- The messages of backend/src/modules over any sequence of requests: sends, deletions, moderation,
-- anonymisation, new conversations, the end-to-end mode and the search of a conversation, and
-- requests that write neither messages nor conversations.
use messageries.Base.{
  All, Bool, Bool-cases, List, Option-cases, [], arith, false, find, inl, inr, refl, some, subst,
  sym, ℕ, ◌==◌, ◌∙◌, ◌∷◌, ◌≡◌, ◌⊎◌,
}
use messageries.Base.Text.{Text}
use messageries.Config.{Config}
use messageries.Conversations.{
  conversation_row, find_conversation, get_or_create_for_order, has_conv_id,
}
use messageries.Conversations.Creation.{Opened, get_or_create-Opened}
use messageries.Crypto.{BodyCipher}
use messageries.Db.{Db, Env, ok}
use messageries.E2ee.{EnableInput, enable_e2ee}
use messageries.Entities.Accounts.{UserRole}
use messageries.Entities.Chat.{Message, MessageReport}
use messageries.Messages.Deletion.{soft_delete-IsNumbered}
use messageries.Messages.Marks.{
  IsMarked, disable_indexing-IsMarked, enable_e2ee-IsMarked, enable_indexing-IsMarked,
  marked-IsNumbered,
}
use messageries.Messages.Reading.{soft_delete}
use messageries.Messages.Sending.{SendMessageInput, send}
use messageries.Messages.Sequence.{IsNumbered, send-IsNumbered, sequences}
use messageries.Moderation.{ResolveInput, has_report_id, resolve, resolved}
use messageries.Moderation.Resolution.{resolve-IsNumbered}
use messageries.Privacy.{anonymize_user}
use messageries.Privacy.Erasure.{anonymize_user-IsNumbered}
use messageries.Scanner.{Scanner}
use messageries.Search.{disable_indexing, enable_indexing}
use messageries.Search.OpenSearch.{Engine}
use messageries.Users.{Crypt}

-- A fresh identifier has no message.
sequences-nil :
    (conv : ℕ) (ms : List Message)
    → All (λ m. (m.conversation_id == conv) ≡ false) ms
    → sequences conv ms ≡ []
sequences-nil conv [] h = refl
sequences-nil conv (m ∷ ms) (p, h) = ground (arith, sequences-nil conv ms h)

Opened-IsNumbered :
    (env : Env) (s s' : Db)
    → Opened env s s'
    → All (λ m. (m.conversation_id == env.uuid 0) ≡ false) s.messages
    → IsNumbered s
    → IsNumbered s'
unfolding find_conversation
Opened-IsNumbered env s s' (same, inl kept) fresh h conv c found =
    rw same (h conv c (rw kept at found))
Opened-IsNumbered env s s' (same, inr (order, opened)) fresh h conv c found =
    elim (Bool-cases (env.uuid 0 == conv)) [
      | inl new ↦
          let id_same : env.uuid 0 ≡ conv = ground arith in
          let row : find (has_conv_id conv) (conversation_row env order ∷ s.conversations)
              ≡ some c =
            rw opened at found in
          let count : c.last_sequence ≡ 0 = ground arith in
          let none_yet =
            sequences-nil conv s.messages
              (subst (λ x. All (λ m. (m.conversation_id == x) ≡ false) s.messages) id_same fresh) in
          ground arith
      | inr old ↦
          let row : find (has_conv_id conv) (conversation_row env order ∷ s.conversations)
              ≡ some c =
            rw opened at found in
          rw same (h conv c (ground arith))
    ]

resolve-cases :
    (env : Env) (input : ResolveInput) (s : Db)
    → ((resolve env input s).1 ≡ s)
      ⊎ ((r : MessageReport) × (resolve env input s ≡ (ok r, (resolve env input s).1)))
unfolding resolve
resolve-cases env input s = elim (Option-cases (find (has_report_id input.report_id) s.reports)) [
  | inl missing ↦ inl (ground arith)
  | inr (r, found) ↦ inr (resolved env input r, ground arith)
]

module _ {Index : Type 0} (engine : Engine Index) (ready : Bool) (cipher : BodyCipher)
    (scanner : Scanner) (cfg : Config) (crypt : Crypt) (print_id : ℕ → Text) (hash : Text → ℕ) where
  -- A request, whatever its outcome. A new conversation has an identifier that no message names.
  pub data Step (g h : Db) : Type 0 where
    sends :
        (env : Env) (input : SendMessageInput)
        → h ≡ (send cipher scanner cfg env input g).1
        → Step g h
    deletes :
        (env : Env) (message_id actor : ℕ)
        → h ≡ (soft_delete cfg env message_id actor g).1
        → Step g h
    resolves : (env : Env) (input : ResolveInput) → h ≡ (resolve env input g).1 → Step g h
    anonymizes :
        (env : Env) (user_id actor : ℕ)
        → h ≡ (anonymize_user crypt print_id hash cfg env user_id actor g).1
        → Step g h
    opens :
        (usable : Bool) (env : Env) (order_id actor : ℕ)
        → All (λ m. (m.conversation_id == env.uuid 0) ≡ false) g.messages
        → h ≡ (get_or_create_for_order usable env order_id actor g).1
        → Step g h
    encrypts : (env : Env) (input : EnableInput) → h ≡ (enable_e2ee env input g).1 → Step g h
    indexes :
        (env : Env) (conv actor : ℕ) (role : UserRole) (index : Index)
        → h
          ≡ (enable_indexing engine cipher cfg ready env conv actor role
              (record { db = g; index = index })).1.db
        → Step g h
    unindexes :
        (env : Env) (conv actor : ℕ) (role : UserRole) (index : Index)
        → h
          ≡ (disable_indexing engine cipher cfg ready env conv actor role
              (record { db = g; index = index })).1.db
        → Step g h
    elsewhere : h.messages ≡ g.messages → h.conversations ≡ g.conversations → Step g h

  pub data Reach (g : Db) : Db → Type 0 where
    here : Reach g g
    next : {h k : Db} → Reach g h → Step h k → Reach g k

  Step-IsNumbered : (g h : Db) → Step g h → IsNumbered g → IsNumbered h
  unfolding find_conversation
  Step-IsNumbered g h (sends env input e) n =
      subst IsNumbered (sym e) (send-IsNumbered cipher scanner cfg env input g n)
  Step-IsNumbered g h (deletes env message_id actor e) n =
      subst IsNumbered (sym e) (soft_delete-IsNumbered cipher cfg env message_id actor g n)
  Step-IsNumbered g h (resolves env input e) n = elim (resolve-cases env input g) [
    | inl same ↦ subst IsNumbered (sym (e ∙ same)) n
    | inr (r, done) ↦
        subst IsNumbered (sym e) (resolve-IsNumbered env input g (resolve env input g).1 r done n)
  ]
  Step-IsNumbered g h (anonymizes env user_id actor e) n =
      subst IsNumbered (sym e)
        (anonymize_user-IsNumbered crypt print_id hash cfg env user_id actor g n)
  Step-IsNumbered g h (opens usable env order_id actor fresh e) n = subst IsNumbered (sym e) (
      Opened-IsNumbered env g (get_or_create_for_order usable env order_id actor g).1
        (get_or_create-Opened usable env order_id actor g) fresh n)
  Step-IsNumbered g h (encrypts env input e) n =
      marked-IsNumbered g h (subst (IsMarked g) (sym e) (enable_e2ee-IsMarked env input g)) n
  Step-IsNumbered g h (indexes env conv actor role index e) n =
      marked-IsNumbered g h
        (subst (IsMarked g) (sym e) (
          enable_indexing-IsMarked engine cipher cfg ready env conv actor role
            (record { db = g; index = index })))
        n
  Step-IsNumbered g h (unindexes env conv actor role index e) n =
      marked-IsNumbered g h
        (subst (IsMarked g) (sym e) (
          disable_indexing-IsMarked engine cipher cfg ready env conv actor role
            (record { db = g; index = index })))
        n
  Step-IsNumbered g h (elsewhere messages conversations) n =
      λ conv c found. rw messages (n conv c (rw conversations at found))

  -- From a database without messages and conversations, over any sequence of requests and whatever
  -- their outcomes, the messages of every conversation stay numbered 1, 2, 3 and so on without a
  -- gap, deleted, moderated and anonymised ones included, with last_sequence as their count.
  pub Reach-IsNumbered :
      {g h : Db} → g.messages ≡ [] → g.conversations ≡ [] → Reach g h → IsNumbered h
  unfolding find_conversation
  Reach-IsNumbered no_messages no_conversations here =
      λ conv c found. absurd (ground (arith, no_conversations, found))
  Reach-IsNumbered no_messages no_conversations (next {h} {k} r step) =
      Step-IsNumbered h k step (Reach-IsNumbered no_messages no_conversations r)
