-- ===== src/Tests/Searching.antt =====
-- The theorems on the search, with an engine that keeps its documents in a list.
use messageries.Base.{
  All, All-map, All-take, Bool, Bool-cases, List, [], ap, arith, false, filter, inl, inr, length,
  map, none, not, refl, some, some_inj, subst, sym, take, true, ℕ, ◌&&◌, ◌==◌, ◌∷◌, ◌≡◌, ◌⊎◌,
}
use messageries.Base.Text.{Text}
use messageries.Config.{Config}
use messageries.Conversations.Activity.{has_active}
use messageries.Db.{Error, err}
use messageries.Entities.Accounts.{customer}
use messageries.Http.Guards.{App}
use messageries.Http.Searching.{outsider_toggles_nothing, search_disable, search_enable}
use messageries.Search.{IndexInput, Indexed, disable_indexing, flag_search}
use messageries.Search.OpenSearch.{
  Document, Engine, SearchHit, SearchInput, SearchRequest, SearchResult, TermClause, is_matched,
}
use messageries.Tests.Fixtures.{at, cfg, cipher, shop}
use messageries.Tests.Requests.{app, as_user, conv_uuid, user}

pub Holds : List Document → Document → Type 0
Holds [] x = ⊥
Holds (d ∷ i) x = (x ≡ d) ⊎ Holds i x

pub put-Holds :
    (d : Document) (i j : List Document)
    → some (d ∷ i) ≡ some j
    → (x : Document) → Holds j x
    → (x ≡ d) ⊎ Holds i x
unfolding Holds
put-Holds d i j e x h = subst (λ k. Holds k x) (sym (some_inj (d ∷ i) j e)) h

abbrev left : TermClause → List Document → List Document
left clause i = filter (λ d. not (is_matched clause d)) i

left-Holds :
    (clause : TermClause) (i : List Document) (x : Document)
    → Holds (left clause i) x
    → is_matched clause x ≡ false
unfolding Holds
left-Holds clause [] x h = absurd h
left-Holds clause (d ∷ i) x h = elim (Bool-cases (is_matched clause d)) [
  | inl t ↦ left-Holds clause i x (rw t at h)
  | inr f ↦
      let h' : (x ≡ d) ⊎ Holds (left clause i) x = rw f at h in
      elim h' [
        | inl e ↦ subst (λ y. is_matched clause y ≡ false) (sym e) f
        | inr later ↦ left-Holds clause i x later
      ]
]

-- Everything is refreshed at once.
abbrev AreFresh : List Document → Document → Type 0
AreFresh i x = ⊥

pub deleted-Holds :
    (clause : TermClause) (i j : List Document)
    → some (left clause i) ≡ some j
    → (x : Document) → Holds j x
    → (is_matched clause x ≡ false) ⊎ AreFresh i x
deleted-Holds clause i j e x h =
    inl (left-Holds clause i x (subst (λ k. Holds k x) (sym (some_inj (left clause i) j e)) h))

-- Every clause is true of the document.
abbrev matches_all : List TermClause → Document → Bool
matches_all [] d = true
matches_all (clause ∷ cs) d = is_matched clause d && matches_all cs d

matches_all-All :
    (cs : List TermClause) (d : Document)
    → matches_all cs d ≡ true
    → All (λ clause. is_matched clause d ≡ true) cs
matches_all-All [] d h = tt
matches_all-All (clause ∷ cs) d h = (ground arith, matches_all-All cs d (ground arith))

abbrev IsAnswer : List TermClause → List Document → Document × List Text → Type 0
IsAnswer cs i h = Holds i h.0 × All (λ clause. is_matched clause h.0 ≡ true) cs

abbrev answers : List TermClause → List Document → List (Document × List Text)
answers cs i = map (λ d. (d, [])) (filter (matches_all cs) i)

answers-All : (cs : List TermClause) (i : List Document) → All (IsAnswer cs i) (answers cs i)
unfolding Holds
answers-All cs [] = tt
answers-All cs (d ∷ i) =
    let rest =
      All-map (IsAnswer cs i) (IsAnswer cs (d ∷ i)) (λ h (held, passed). (inr held, passed))
        (answers cs i) (answers-All cs i) in
    elim (Bool-cases (matches_all cs d)) [
      | inl t ↦ rw t ((inl refl, matches_all-All cs d t), rest)
      | inr f ↦ rw f rest
    ]

abbrev first_answers : SearchRequest → List Document → ℕ × List (Document × List Text)
first_answers request i =
    (length (answers request.filter_terms i), take request.size (answers request.filter_terms i))

pub queried-All :
    (request : SearchRequest) (i : List Document) (total : ℕ) (hits : List (Document × List Text))
    → some (first_answers request i) ≡ some (total, hits)
    → All (IsAnswer request.filter_terms i) hits
queried-All request i total hits e =
    let same = some_inj (first_answers request i) (total, hits) e in
    subst (All (IsAnswer request.filter_terms i)) (ap (λ x. x.1) same) (
      All-take (IsAnswer request.filter_terms i) request.size (answers request.filter_terms i)
        (answers-All request.filter_terms i))

-- It matches every text.
abbrev pub engine : Engine (List Document)
engine = record {
  put = λ d i. some (d ∷ i);
  delete = λ id i. some (filter (λ d. not (d.message_id == id)) i);
  delete_by_query = λ clause i. some (left clause i);
  query = λ request i. some (first_answers request i);
  IsHeld = Holds;
  IsFresh = AreFresh;
  put-IsHeld = put-Holds;
  delete_by_query-IsHeld = deleted-Holds;
  query-IsHeld = queried-All;
}

abbrev searching : Config
searching = record cfg { search_enabled = true }

abbrev told : Document
told = record {
  message_id = 50;
  conversation_id = 20;
  sequence = 1;
  sender_id = 1;
  created_at = 900;
  content = 104 ∷ 105 ∷ [];
  participants = 1 ∷ 2 ∷ [];
}

abbrev indexed : Indexed (List Document)
indexed = record {
  db = flag_search (some 900) 20 shop;
  index = told ∷ record told { message_id = 60; conversation_id = 21 } ∷ [];
}

abbrev opted_out : Indexed (List Document)
opted_out = (disable_indexing engine cipher searching true (at 1000 0) 20 1 customer indexed).1

handed_over : IndexInput
handed_over = record {
  conversation_id = 20;
  message_id = 51;
  sequence = 2;
  sender_id = 1;
  created_at = 1100;
  content = 104 ∷ 105 ∷ [];
  participants = 1 ∷ 2 ∷ [];
}

abbrev question : SearchInput
question = record { user_id = 1; query = 104 ∷ 105 ∷ []; conversation_id = none; limit = none }

abbrev other_hit : SearchHit
other_hit = record {
  message_id = 60;
  conversation_id = 21;
  sequence = 1;
  sender_id = 1;
  created_at = 900;
  highlight = [];
}

abbrev one_hit : SearchResult
one_hit = record { total = 1; hits = other_hit ∷ [] }

-- The application of the requests, with the search switched on.
abbrev searching_app : App
searching_app = record app { cfg = searching }

abbrev first_hit : SearchHit
first_hit = record {
  message_id = 50;
  conversation_id = 20;
  sequence = 1;
  sender_id = 1;
  created_at = 900;
  highlight = [];
}

abbrev both_hits : SearchResult
both_hits = record { total = 2; hits = first_hit ∷ other_hit ∷ [] }

outside_shop :
    (id : ℕ) → searching_app.read_id conv_uuid ≡ some id → has_active id 7 indexed.db ≡ false
outside_shop id h = ground arith

outsider_toggles_nothing_example :
    (e : Error) × (search_enable engine searching_app true (at 1000 0) (as_user 7) conv_uuid indexed
      ≡ (err e, indexed))
    × (search_disable engine searching_app true (at 1000 0) (as_user 7) conv_uuid indexed
        ≡ (err e, indexed))
outsider_toggles_nothing_example =
    outsider_toggles_nothing engine searching_app true (at 1000 0) (as_user 7) (user 7) conv_uuid
      indexed (7 ∷ [], refl, refl) refl outside_shop
