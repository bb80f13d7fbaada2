-- ===== src/Messages/Pages.antt =====
-- The rows of a page of `list` of messages.service.ts.
use messageries.Base.{
  All, All-map, All-take, Bool, List, Option, arith, filter-All, inl, inr, length, length-take-le,
  ltb, none, some, subst, sym, take, true, ℕ, ◌&&◌, ◌<◌, ◌≡◌, ◌≤◌, ◌⊎◌,
}
use messageries.Base.Sorting.{
  Ascends, Ascends-take, Descends, Descends-take, sort_asc-All, sort_asc-Ascends, sort_desc-All,
  sort_desc-Descends,
}
use messageries.Entities.Chat.{Message}
use messageries.Messages.Listing.{ListParams, cursor_rows, is_shown, limited, page, page_size}

-- A row that a cursor lets through: shown, and after the one or before the other.
abbrev pub InWindow : ℕ → Option ℕ → Option ℕ → Message → Type 0
InWindow conv (some after) before m = (is_shown conv m ≡ true) × (after < m.sequence)
InWindow conv none (some before) m = (is_shown conv m ≡ true) × (m.sequence < before)
InWindow conv none none m = is_shown conv m ≡ true

-- Oldest first after a cursor, newest first otherwise.
abbrev pub InOrder : Option ℕ → List Message → Type 0
InOrder (some after) ms = Ascends (λ m. m.sequence) ms
InOrder none ms = Descends (λ m. m.sequence) ms

window-cursor_rows :
    (params : ListParams) (after before : Option ℕ) (ms : List Message)
    → All (InWindow params.conversation_id after before) (cursor_rows params after before ms)
unfolding cursor_rows
window-cursor_rows params (some after) before ms =
    sort_asc-All (λ m. m.sequence) _ _
      (All-map _ _ (λ m h. ground arith) _
        (filter-All (λ m. is_shown params.conversation_id m && ltb after m.sequence) ms))
window-cursor_rows params none (some before) ms =
    sort_desc-All (λ m. m.sequence) _ _
      (All-map _ _ (λ m h. ground arith) _
        (filter-All (λ m. is_shown params.conversation_id m && ltb m.sequence before) ms))
window-cursor_rows params none none ms =
    sort_desc-All (λ m. m.sequence) _ _ (filter-All (is_shown params.conversation_id) ms)

order-cursor_rows :
    (params : ListParams) (after before : Option ℕ) (ms : List Message)
    → InOrder after (cursor_rows params after before ms)
unfolding cursor_rows
order-cursor_rows params (some after) before ms = sort_asc-Ascends (λ m. m.sequence) _
order-cursor_rows params none (some before) ms = sort_desc-Descends (λ m. m.sequence) _
order-cursor_rows params none none ms = sort_desc-Descends (λ m. m.sequence) _

order-take :
    (after : Option ℕ) (n : ℕ) (ms : List Message) → InOrder after ms → InOrder after (take n ms)
order-take (some a) n ms h = Ascends-take (λ m. m.sequence) n ms h
order-take none n ms h = Descends-take (λ m. m.sequence) n ms h

pub limited_cases {ℓ} :
    {A : Type ℓ} (z : Bool) (n : ℕ) (ms : List A)
    → (limited z n ms ≡ ms) ⊎ (limited z n ms ≡ take n ms)
limited_cases z n ms = ground arith

-- A page holds only rows of the conversation that are not deleted and that the cursor lets
-- through, in order; and at most 100 of them, unless a limit of 0 is asked for.
pub page_sound :
    (zero_is_none : Bool) (params : ListParams) (ms : List Message)
    → let rows = page zero_is_none params ms in
      All (InWindow params.conversation_id params.after_sequence params.before_sequence) rows
      × InOrder params.after_sequence rows
      × ((params.limit ≡ some 0) ⊎ (length rows ≤ 100))
unfolding page
page_sound z params ms =
    let after = params.after_sequence in
    let before = params.before_sequence in
    let rows = cursor_rows params after before ms in
    let window = window-cursor_rows params after before ms in
    let order = order-cursor_rows params after before ms in
    let n = page_size params.limit in
    (
      elim (limited_cases z n rows) [
        | inl whole ↦ subst (All (InWindow params.conversation_id after before)) (sym whole) window
        | inr cut ↦
            subst (All (InWindow params.conversation_id after before)) (sym cut)
              (All-take _ n rows window)
      ],
      elim (limited_cases z n rows) [
        | inl whole ↦ subst (InOrder after) (sym whole) order
        | inr cut ↦ subst (InOrder after) (sym cut) (order-take after n rows order)
      ],
      ground (arith, length-take-le n rows),
    )
