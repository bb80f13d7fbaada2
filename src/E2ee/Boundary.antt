-- ===== src/E2ee/Boundary.antt =====
-- `enableE2ee` of e2ee.service.ts and `send` of messages.service.ts on one conversation.
use messageries.Base.{
  List, Option-cases, ap, arith, find, find-update_where, find_sound, inl, inr, refl, some, subst,
  sym, true, update_where, ℕ, ◌∙◌, ◌∷◌, ◌≡◌,
}
use messageries.Config.{Config}
use messageries.Conversations.{assert_can_access, find_conversation, has_conv_id}
use messageries.Crypto.{BodyCipher}
use messageries.Db.{Db, Env, Error, err, ok, outcome, transaction}
use messageries.E2ee.{EnableInput, enable_e2ee, enable_in_tx, save_welcomes}
use messageries.Entities.Chat.{Conversation}
use messageries.Messages.Outcomes.{checked_inv, send_fails, tx_inv}
use messageries.Messages.Sending.{SendMessageInput, checked_body, send}
use messageries.Scanner.{Scanner}

-- The row of the conversation was marked by the last update of the conversations.
abbrev IsMarked : Env → ℕ → Db → Type 0
IsMarked env id s =
    (cs : List Conversation) × (s.conversations
      ≡ update_where (has_conv_id id)
          (λ c. record c { e2ee_enabled = true; e2ee_enabled_at = some env.now }) cs)

enable_in_tx-IsMarked :
    (env : Env) (input : EnableInput) (s s' : Db) (g : ℕ)
    → enable_in_tx env input s ≡ (ok g, s')
    → IsMarked env input.conversation_id s'
unfolding enable_in_tx
enable_in_tx-IsMarked env input s s' g h =
    elim (outcome (
      save_welcomes env input (env.uuid 0) 0 input.welcome_messages (record s {
        groups =
            record {
              id = env.uuid 0;
              conversation_id = input.conversation_id;
              group_id_mls = input.group_id_mls;
              cipher_suite = input.cipher_suite;
              epoch = 0;
              created_by = input.actor_id;
              created_at = env.now;
            }
            ∷ s.groups;
      }))) [
        | inl (u, s1, saved) ↦ (s1.conversations, ground arith)
        | inr (e, s1, threw) ↦ absurd (ground arith)
      ]

enable-IsMarked :
    (env : Env) (input : EnableInput) (s s' : Db) (g : ℕ)
    → enable_e2ee env input s ≡ (ok g, s')
    → IsMarked env input.conversation_id s'
unfolding enable_e2ee transaction
enable-IsMarked env input s s' g h =
    elim (outcome (assert_can_access env input.actor_id input.actor_role input.conversation_id s)) [
      | inr (e, s1, threw) ↦ absurd (ground arith)
      | inl (access, s1, entered) ↦ elim (outcome (enable_in_tx env input s1)) [
        | inr (e, s2, threw) ↦ absurd (ground arith)
        | inl (g', s2, done) ↦ enable_in_tx-IsMarked env input s1 s' g (ground arith)
      ]
    ]

marked-e2ee :
    (env : Env) (id : ℕ) (s : Db) (c : Conversation)
    → IsMarked env id s
    → find_conversation id s ≡ some c
    → c.e2ee_enabled ≡ true
unfolding find_conversation
marked-e2ee env id s c (cs, marked) found =
    let mark =
      λ (c : Conversation). record c { e2ee_enabled = true; e2ee_enabled_at = some env.now } in
    let kept = find-update_where (has_conv_id id) (has_conv_id id) mark cs (λ x. refl) in
    elim (Option-cases (find (has_conv_id id) cs)) [
      | inl missing ↦ absurd (ground (arith, kept))
      | inr (x, located) ↦ ground (arith, kept, find_sound (has_conv_id id) cs x located)
    ]

-- After a conversation is switched to the end-to-end mode, `send` refuses every text for it, from
-- whomever and whenever, and changes nothing.
pub enable_closes_send :
    (cipher : BodyCipher) (scanner : Scanner) (cfg : Config) (env1 env2 : Env) (input : EnableInput)
    (message : SendMessageInput) (s s1 : Db) (g : ℕ)
    → enable_e2ee env1 input s ≡ (ok g, s1)
    → message.conversation_id ≡ input.conversation_id
    → (e : Error) × (send cipher scanner cfg env2 message s1 ≡ (err e, s1))
unfolding send
enable_closes_send cipher scanner cfg env1 env2 input message s s1 g h same =
    elim (outcome (send cipher scanner cfg env2 message s1)) [
      | inr (e, s2, threw) ↦ (
        e,
        threw
            ∙ ap (λ x. (err e, x))
                (ap (λ x. x.1) (sym threw)
                  ∙ send_fails cipher scanner cfg env2 message s1 e (ap (λ x. x.0) threw)),
      )
      | inl (d, s2, done) ↦
          let (t, m, s3, checked, stored, answered) =
            checked_inv cipher scanner cfg env2 message s1 s2 d (checked_body cfg message.body)
              done in
          let (c, found, clear, opened, present, rest) =
            tx_inv cipher scanner cfg env2 message (scanner.scan t) s1 s3 m stored in
          let marked = enable-IsMarked env1 input s s1 g h in
          let on =
            marked-e2ee env1 message.conversation_id s1 c
              (subst (λ id. IsMarked env1 id s1) (sym same) marked) found in
          absurd (ground arith)
    ]
