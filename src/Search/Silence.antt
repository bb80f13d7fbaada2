-- ===== src/Search/Silence.antt =====
-- What a search may still answer with after backend/src/modules/search/search.service.ts has left a
-- conversation out.
use messageries.Base.{
  All, Bool, Bool-cases, List, Option-cases, [], any, arith, false, find, inl, inr, map, none, refl,
  some, subst, sym, true, update_where, ℕ, ◌==◌, ◌∷◌, ◌≡◌, ◌⊎◌,
}
use messageries.Base.Text.{Text}
use messageries.Config.{Config}
use messageries.Conversations.{find_conversation, has_conv_id}
use messageries.Db.{Db, ok}
use messageries.Entities.Chat.{Conversation}
use messageries.Search.{IndexInput, Indexed, flag_search, index_message_if_enabled, search}
use messageries.Search.OpenSearch.{
  Document, Engine, SearchHit, SearchInput, SearchResult, filter_of, hit_of, is_enabled, is_matched,
  request_of, search_documents,
}

-- What is held of the conversation is what is excepted, or the engine is off.
abbrev HoldsOnly :
    {Index : Type 0} → Engine Index → Config → Bool → ℕ → (Document → Type 0) → Index → Type 0
HoldsOnly engine cfg ready conv Excepted index =
    is_enabled cfg ready ≡ true
    → (x : Document) → engine.IsHeld index x
    → ((x.conversation_id == conv) ≡ false) ⊎ Excepted x

-- No row of the conversation is opted in.
abbrev IsUnflagged : ℕ → Db → Type 0
IsUnflagged conv s =
    (c : Conversation) → find_conversation conv s ≡ some c → c.search_indexed ≡ false

unflagged_rows :
    (conv : ℕ) (rows : List Conversation) (c : Conversation)
    → find (has_conv_id conv) (
        update_where
          (has_conv_id conv)
          (λ x. record x { search_indexed = false; search_indexed_at = none })
          rows)
      ≡ some c
    → c.search_indexed ≡ false
unflagged_rows conv [] c h = absurd (ground arith)
unflagged_rows conv (x ∷ rows) c h = elim (Bool-cases (x.id == conv)) [
  | inl t ↦ ground arith
  | inr f ↦ unflagged_rows conv rows c (ground arith)
]

flag_search-IsUnflagged : (conv : ℕ) (s : Db) → IsUnflagged conv (flag_search none conv s)
unfolding find_conversation
flag_search-IsUnflagged conv s c h = unflagged_rows conv s.conversations c h

module _ {Index : Type 0} (engine : Engine Index) (cfg : Config) (ready : Bool) where
  abbrev IsSilent : ℕ → (Document → Type 0) → Indexed Index → Type 0
  IsSilent conv Excepted st =
      IsUnflagged conv st.db × HoldsOnly engine cfg ready conv Excepted st.index

  -- The outbox hands over any number of messages.
  abbrev pub index_all : List IndexInput → Indexed Index → Indexed Index
  index_all [] st = st
  index_all (input ∷ inputs) st =
      index_all inputs (index_message_if_enabled engine cfg ready input st).1

  -- What a search may be told of one hit.
  abbrev pub IsFound : SearchInput → Index → SearchHit → Type 0
  IsFound input index h =
      (d : Document) × (engine.IsHeld index d)
      × (any (λ p. p == input.user_id) d.participants ≡ true)
      × ((conv : ℕ) → input.conversation_id ≡ some conv → (d.conversation_id == conv) ≡ true)
      × (h.conversation_id ≡ d.conversation_id)

  filter_of-about :
      (input : SearchInput) (d : Document)
      → All (λ clause. is_matched clause d ≡ true) (filter_of engine cfg ready input)
      → (conv : ℕ) → input.conversation_id ≡ some conv
      → (d.conversation_id == conv) ≡ true
  filter_of-about input d (named, rest) conv asked = (rw asked at rest).0

  hits-All :
      (input : SearchInput) (index : Index) (hits : List (Document × List Text))
      → All
          (λ h.
            engine.IsHeld index h.0
            × All (λ clause. is_matched clause h.0 ≡ true) (filter_of engine cfg ready input))
          hits
      → All (IsFound input index) (map hit_of hits)
  hits-All input index [] a = tt
  hits-All input index ((d, highlight) ∷ hits) ((held, passed), rest) =
      ((d, held, passed.0, filter_of-about input d passed, refl), hits-All input index hits rest)

  -- A search answers with documents that the engine holds and that its filter lets through.
  pub search_inv :
      (input : SearchInput) (st : Indexed Index) (r : SearchResult)
      → search engine cfg ready input st ≡ ok r
      → (is_enabled cfg ready ≡ true) × All (IsFound input st.index) r.hits
  unfolding search search_documents
  search_inv input st r h = elim (Bool-cases (is_enabled cfg ready)) [
    | inr disabled ↦ absurd (ground arith)
    | inl enabled ↦
        let request = request_of engine cfg ready input in
        elim (Option-cases (engine.query request st.index)) [
          | inl refused ↦ absurd (ground arith)
          | inr ((total, hits), answer) ↦
              let law = engine.query-IsHeld request st.index total hits answer in
              let same : r.hits ≡ map hit_of hits = ground arith in
              (
                enabled,
                subst (All (IsFound input st.index)) (sym same) (hits-All input st.index hits law),
              )
        ]
  ]
