-- ===== src/Search/OpenSearch.antt =====
-- backend/src/modules/search/opensearch.service.ts. The engine is a remote service: its requests may
-- fail, and its laws are what its documentation says of the queries that the service sends.
use messageries.Base.{
  All, Bool, List, Option, [], any, false, if◌then◌else◌, map, min, none, or_default, some, true, ℕ,
  ◌&&◌, ◌==◌, ◌∷◌, ◌≡◌, ◌⊎◌,
}
use messageries.Base.Text.{Text}
use messageries.Config.{Config}

pub record Document : Type 0 where
  pub message_id : ℕ
  pub conversation_id : ℕ
  pub sequence : ℕ
  pub sender_id : ℕ
  pub created_at : ℕ
  pub content : Text
  pub participants : List ℕ

pub record SearchInput : Type 0 where
  pub user_id : ℕ
  pub query : Text
  pub conversation_id : Option ℕ
  pub limit : Option ℕ

pub record SearchHit : Type 0 where
  pub message_id : ℕ
  pub conversation_id : ℕ
  pub sequence : ℕ
  pub sender_id : ℕ
  pub created_at : ℕ
  pub highlight : List Text

pub record SearchResult : Type 0 where
  pub total : ℕ
  pub hits : List SearchHit

-- A clause of the query language, `term: { participants }` or `term: { conversationId }`, and the
-- documents that it is true of.
pub data TermClause : Type 0 where
  participants_term : ℕ → TermClause
  conversation_term : ℕ → TermClause

abbrev pub is_matched : TermClause → Document → Bool
is_matched (participants_term user) d = any (λ p. p == user) d.participants
is_matched (conversation_term conv) d = d.conversation_id == conv

-- `bool: { must: match content, filter }` with `size`.
pub record SearchRequest : Type 0 where
  pub size : ℕ
  pub content : Text
  pub filter_terms : List TermClause

-- `IsHeld` says which documents a search may answer with, now or after a refresh: an older version of
-- a document too. `IsFresh` says which were put since the last refresh: a deletion by query works on
-- what a search would find, and misses those.
pub record Engine (Index : Type 0) : Type 1 where
  pub put : Document → Index → Option Index
  pub delete : ℕ → Index → Option Index
  pub delete_by_query : TermClause → Index → Option Index
  pub query : SearchRequest → Index → Option (ℕ × List (Document × List Text))
  pub IsHeld : Index → Document → Type 0
  pub IsFresh : Index → Document → Type 0
  pub put-IsHeld :
      (d : Document) (i j : Index)
      → put d i ≡ some j
      → (x : Document) → IsHeld j x
      → (x ≡ d) ⊎ IsHeld i x
  pub delete_by_query-IsHeld :
      (clause : TermClause) (i j : Index)
      → delete_by_query clause i ≡ some j
      → (x : Document) → IsHeld j x
      → (is_matched clause x ≡ false) ⊎ IsFresh i x
  pub query-IsHeld :
      (request : SearchRequest) (i : Index) (total : ℕ) (hits : List (Document × List Text))
      → query request i ≡ some (total, hits)
      → All
          (λ h. IsHeld i h.0 × All (λ clause. is_matched clause h.0 ≡ true) request.filter_terms)
          hits

abbrev pub is_enabled : Config → Bool → Bool
is_enabled cfg ready = cfg.search_enabled && ready

abbrev pub hit_of : Document × List Text → SearchHit
hit_of (d, highlight) = record {
  message_id = d.message_id;
  conversation_id = d.conversation_id;
  sequence = d.sequence;
  sender_id = d.sender_id;
  created_at = d.created_at;
  highlight = highlight;
}

-- The requests of the service; none where one fails.
module _ {Index : Type 0} (engine : Engine Index) (cfg : Config) (ready : Bool) where
  unfoldable pub index_message : Document → Index → Option Index
  index_message doc index = if is_enabled cfg ready then engine.put doc index else some index

  -- A document that is not there is no failure of `delete`.
  unfoldable pub delete_message : ℕ → Index → Option Index
  delete_message id index = if is_enabled cfg ready then engine.delete id index else some index

  unfoldable pub delete_by_conversation : ℕ → Index → Option Index
  delete_by_conversation conv index =
      if is_enabled cfg ready
      then engine.delete_by_query (conversation_term conv) index
      else some index

  abbrev pub size_of : Option ℕ → ℕ
  size_of limit = min (or_default limit 20) 100

  -- The filter on the user is always there.
  abbrev pub filter_of : SearchInput → List TermClause
  filter_of input =
      participants_term input.user_id
      ∷ (elim input.conversation_id [ none ↦ [] | some conv ↦ conversation_term conv ∷ [] ])

  abbrev pub request_of : SearchInput → SearchRequest
  request_of input = record {
    size = size_of input.limit;
    content = input.query;
    filter_terms = filter_of input;
  }

  unfoldable pub search_documents : SearchInput → Index → Option SearchResult
  search_documents input index =
      if is_enabled cfg ready
      then (elim (engine.query (request_of input) index) [
        | none ↦ none
        | some found ↦ some (record { total = found.0; hits = map hit_of found.1 })
      ])
      else some (record { total = 0; hits = [] })
