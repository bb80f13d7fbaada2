-- ===== src/Moderation/Resolution.antt =====
-- `resolve` of backend/src/modules/moderation/moderation.service.ts.
use messageries.Base.{
  All, All-both, All-filter, All-take, All-update_where, List, Option, Option-cases, arith, false,
  filter, filter-All, filter-All-of, find, find_sound, if◌then◌else◌, inl, inr, refl, some, subst,
  sym, true, update_where, ℕ, ◌≡◌, ◌≢◌,
}
use messageries.Base.Sorting.{sort_desc-All}
use messageries.Base.Text.{Text, codes}
use messageries.Conversations.{find_conversation}
use messageries.Crypto.{BodyCipher}
use messageries.Db.{Db, Env, ok}
use messageries.Entities.Chat.{Message, MessageReport, is_open_report}
use messageries.Messages.Decryption.{shown_text, to_decrypted}
use messageries.Messages.Sequence.{IsNumbered, sequences-update_where}
use messageries.Moderation.{
  ResolveInput, has_message_id, has_report_id, hide_message, hides, list_open, moderated, resolve,
  resolved,
}

-- A report of the identifier is not open.
abbrev pub IsClosed : ℕ → MessageReport → Type 0
IsClosed id r = r.id ≡ id → is_open_report r.status ≡ false

-- A message is shown as the moderation notice, whatever text is known or stored.
abbrev pub IsNotice : BodyCipher → Db → Message → Type 0
IsNotice cipher s m =
    (known : Option Text)
    → to_decrypted cipher known m s
      ≡ (ok (record { message = m; body = codes "[Message masqué par la modération]" }), s)

module _ (env : Env) where
  -- A resolution that returns has found the report; it leaves the messages alone, or hides the
  -- reported one.
  resolve_inv :
      (input : ResolveInput) (s s' : Db) (r : MessageReport)
      → resolve env input s ≡ (ok r, s')
      → (r0 : MessageReport) × (find (has_report_id input.report_id) s.reports ≡ some r0)
        × (r ≡ resolved env input r0)
        × (s'.reports ≡ update_where (has_report_id r0.id) (λ x. resolved env input r0) s.reports)
        × (s'.messages ≡ (
            if hides input.action
            then update_where
                (has_message_id r0.message_id)
                (moderated env input.moderator_id)
                s.messages
            else s.messages))
        × (s'.conversations ≡ s.conversations)
  unfolding resolve
  resolve_inv input s s' r h =
      elim (Option-cases (find (has_report_id input.report_id) s.reports)) [
        | inl missing ↦ absurd (ground arith)
        | inr (r0, found) ↦ (r0, found, ground arith, ground arith, ground arith, ground arith)
      ]

  resolved-IsClosed :
      (input : ResolveInput) (r0 : MessageReport) (rs : List MessageReport)
      → r0.id ≡ input.report_id
      → All
          (IsClosed input.report_id)
          (update_where (has_report_id r0.id) (λ x. resolved env input r0) rs)
  resolved-IsClosed input r0 rs same =
      All-update_where (IsClosed input.report_id) (has_report_id r0.id) (λ x. resolved env input r0)
        rs (λ x hit e. ground arith) (λ x miss e. absurd (ground arith))

  -- A report that is resolved, either way, is not among the open ones any more.
  pub resolve-list_open :
      (input : ResolveInput) (limit : ℕ) (s s' : Db) (r : MessageReport)
      → resolve env input s ≡ (ok r, s')
      → All (λ x. x.id ≢ input.report_id) (list_open limit s')
  unfolding list_open
  resolve-list_open input limit s s' r h =
      let (r0, found, answer, rows, messages, conversations) = resolve_inv input s s' r h in
      let same = find_sound (has_report_id input.report_id) s.reports r0 found in
      let closed : All (IsClosed input.report_id) s'.reports =
        subst (All (IsClosed input.report_id)) (sym rows)
          (resolved-IsClosed input r0 s.reports (ground arith)) in
      let test = λ (x : MessageReport). is_open_report x.status in
      All-take _ limit _ (
        sort_desc-All (λ (x : MessageReport). x.created_at) _ _
          (All-both (IsClosed input.report_id) (λ x. test x ≡ true) _ (λ x c o e. ground arith)
            (filter test s'.reports) (All-filter (IsClosed input.report_id) test s'.reports closed)
            (filter-All test s'.reports)))

  -- After `hide_message`, every reader of the reported message gets the moderation notice in place
  -- of its text, whatever text is known or stored.
  pub hide_message-shown :
      (cipher : BodyCipher) (input : ResolveInput) (s s' : Db) (r : MessageReport)
      → input.action ≡ hide_message
      → resolve env input s ≡ (ok r, s')
      → All (IsNotice cipher s') (filter (has_message_id r.message_id) s'.messages)
  unfolding to_decrypted shown_text
  hide_message-shown cipher input s s' r asked h =
      let (r0, found, answer, rows, messages, conversations) = resolve_inv input s s' r h in
      let hit = has_message_id r0.message_id in
      let f = moderated env input.moderator_id in
      let updated : s'.messages ≡ update_where hit f s.messages = ground arith in
      let P = λ (m : Message). has_message_id r.message_id m ≡ true → IsNotice cipher s' m in
      filter-All-of (IsNotice cipher s') (has_message_id r.message_id) s'.messages (
        subst (All P) (sym updated) (
          All-update_where P hit f s.messages (λ x h e known. refl)
            (λ x miss e. absurd (ground arith))))

  -- Moderation keeps every number.
  pub resolve-IsNumbered :
      (input : ResolveInput) (s s' : Db) (r : MessageReport)
      → resolve env input s ≡ (ok r, s')
      → IsNumbered s
      → IsNumbered s'
  unfolding find_conversation
  resolve-IsNumbered input s s' r h numbered conv c found =
      let (r0, located, answer, rows, messages, conversations) = resolve_inv input s s' r h in
      ground (
        arith,
        numbered conv c,
        sequences-update_where conv (has_message_id r0.message_id)
            (moderated env input.moderator_id) s.messages (λ m. refl) (λ m. refl),
      )
