-- ===== src/E2ee/Groups.antt =====
-- `sendMlsMessage` and `listMlsMessages` of backend/src/modules/e2ee/e2ee.service.ts.
use messageries.Base.{
  All, All-map, All-take, Bool, List, arith, false, filter, filter-All, if◌then◌else◌, inl, inr,
  length, length-take-le, min, or_default, some, subst, sym, true, update_where, ℕ, ◌&&◌, ◌+◌, ◌∷◌,
  ◌≡◌, ◌≤◌, ◌⊎◌,
}
use messageries.Base.Sorting.{Ascends, Ascends-take, sort_asc, sort_asc-All, sort_asc-Ascends}
use messageries.Db.{Db, Env}
use messageries.E2ee.{
  MlsInput, PullInput, after_cursor, fits_columns, has_group_id, in_group, is_for, is_last_epoch,
  max_sequence, mls_row, pull_rows,
}
use messageries.Entities.Mls.{MlsGroup, MlsMessage, is_commit}
use messageries.Messages.Pages.{limited_cases}

module _ (env : Env) where
  -- The state after a message of group `g` is stored.
  abbrev pub Stored : MlsInput → MlsGroup → ℕ → Db → Db → Type 0
  Stored input g epoch s s' =
      (s'.mls_messages
        ≡ mls_row env input g.id epoch (max_sequence g.id s.mls_messages + 1) ∷ s.mls_messages)
      × (s'.groups ≡ (
          if is_commit input.kind
          then update_where (has_group_id g.id) (λ x. record x { epoch = g.epoch + 1 }) s.groups
          else s.groups))

  -- The row of the message and the next epoch fit their columns.
  abbrev pub IsStorable : MlsInput → MlsGroup → ℕ → Db → Type 0
  IsStorable input g epoch s =
      (input.epoch ≡ some epoch)
      × (is_last_epoch input.kind g ≡ false)
      × (fits_columns (mls_row env input g.id epoch (max_sequence g.id s.mls_messages + 1)) s.users
          ≡ true)

-- What a user may get from the queue of a group.
abbrev pub IsReceivable : PullInput → ℕ → MlsMessage → Type 0
IsReceivable input group m =
    (m.group_id ≡ group)
    × (is_for input.user_id m ≡ true)
    × (after_cursor input.after_sequence m ≡ true)

-- A pull returns only messages of the group, after the cursor, that are addressed to nobody in
-- particular or to the user, the oldest first; and at most 500, unless a limit of 0 is asked for.
pub pull_rows_sound :
    (zero_is_none : Bool) (input : PullInput) (group : ℕ) (ms : List MlsMessage)
    → let rows = pull_rows zero_is_none input group ms in
      All (IsReceivable input group) rows
      × Ascends (λ m. m.sequence) rows
      × ((input.limit ≡ some 0) ⊎ (length rows ≤ 500))
unfolding pull_rows
pull_rows_sound z input group ms =
    let test = λ (m : MlsMessage).
      in_group group m && is_for input.user_id m && after_cursor input.after_sequence m in
    let rows = sort_asc (λ (m : MlsMessage). m.sequence) (filter test ms) in
    let n = min (or_default input.limit 100) 500 in
    let fit =
      sort_asc-All (λ (m : MlsMessage). m.sequence) (IsReceivable input group) (filter test ms)
        (All-map _ _ (λ m h. (ground arith, ground arith, ground arith)) _ (filter-All test ms)) in
    let order = sort_asc-Ascends (λ (m : MlsMessage). m.sequence) (filter test ms) in
    (
      elim (limited_cases z n rows) [
        | inl whole ↦ subst (All (IsReceivable input group)) (sym whole) fit
        | inr cut ↦ subst (All (IsReceivable input group)) (sym cut) (All-take _ n rows fit)
      ],
      elim (limited_cases z n rows) [
        | inl whole ↦ subst (Ascends (λ m. m.sequence)) (sym whole) order
        | inr cut ↦
            subst (Ascends (λ m. m.sequence)) (sym cut)
              (Ascends-take (λ m. m.sequence) n rows order)
      ],
      ground (arith, length-take-le n rows),
    )
