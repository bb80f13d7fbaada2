-- ===== src/Search.antt =====
-- backend/src/modules/search: opensearch.service.ts over a remote engine, which is a parameter, and
-- search.service.ts, which indexes the conversations that were opted in.
pub mod OpenSearch
pub mod Silence
use messageries.Base.{
  Bool, List, Option, [], false, filter, if◌then◌else◌, is_none, is_some, length, ltb, map, none,
  not, some, true, update_where, ℕ, ◌&&◌, ◌==◌, ◌∷◌,
}
use messageries.Audit.{log}
use messageries.Base.Sorting.{sort_asc}
use messageries.Base.Text.{Text}
use messageries.Config.{Config}
use messageries.Conversations.{assert_can_access, find_conversation, has_conv_id, list_participants}
use messageries.Crypto.{BodyCipher}
use messageries.Db.{Db, Env, Result, conflict, err, forbidden, internal, ok}
use messageries.Entities.Accounts.{UserRole, backfilled, no_metadata}
use messageries.Entities.Chat.{Conversation, Message}
use messageries.Messages.Decryption.{decrypt_columns}
use messageries.Scanner.{is_empty}
use messageries.Search.OpenSearch.{
  Document, Engine, SearchInput, SearchResult, delete_by_conversation, index_message, is_enabled,
  search_documents,
}

pub record Indexed (Index : Type 0) : Type 0 where
  pub db : Db
  pub index : Index

pub record IndexInput : Type 0 where
  pub conversation_id : ℕ
  pub message_id : ℕ
  pub sequence : ℕ
  pub sender_id : ℕ
  pub created_at : ℕ
  pub content : Text
  pub participants : List ℕ

abbrev pub with_db :
    {Index : Type 0} {A : Type 0} → Result A × Db → Index → Result A × Indexed Index
with_db x index = (x.0, record { db = x.1; index = index })

abbrev pub flag_search : Option ℕ → ℕ → Db → Db
flag_search at conv s = record s {
  conversations =
      update_where (has_conv_id conv)
        (λ c. record c { search_indexed = is_some at; search_indexed_at = at }) s.conversations;
}

-- A text that is empty counts for none, and one that does not decrypt is empty.
unfoldable pub decrypt_content : BodyCipher → Message → Db → Text
decrypt_content cipher m s =
    let sealed = decrypt_columns cipher m.body_ciphertext m.body_iv m.body_tag m.body_dek_id s in
    let opened : Text = elim sealed.0 [ ok t ↦ t | err e ↦ [] ] in
    elim m.body [ none ↦ opened | some t ↦ if is_empty t then opened else t ]

abbrev pub is_backfilled : ℕ → Message → Bool
is_backfilled conv m = m.conversation_id == conv && is_none m.deleted_at

unfoldable pub backfill_messages : ℕ → Db → List Message
backfill_messages conv s = sort_asc (λ m. m.sequence) (filter (is_backfilled conv) s.messages)

-- `ready` is whether the client of the engine was made.
module _ {Index : Type 0} (engine : Engine Index) (cipher : BodyCipher) (cfg : Config)
    (ready : Bool) (env : Env) where
  abbrev pub document : Message → List ℕ → Text → Document
  document m participants content = record {
    message_id = m.id;
    conversation_id = m.conversation_id;
    sequence = m.sequence;
    sender_id = m.sender_id;
    created_at = m.created_at;
    content = content;
    participants = participants;
  }

  -- The index as the loop leaves it, and whether every request was taken: it ends at the first that
  -- was not.
  unfoldable pub backfill : List ℕ → Db → List Message → Index → Bool × Index
  backfill participants s [] index = (true, index)
  backfill participants s (m ∷ ms) index =
      let content = decrypt_content cipher m s in
      let doc = document m participants content in
      if is_empty content
      then backfill participants s ms index
      else elim (index_message engine cfg ready doc index) [
        | none ↦ (false, index)
        | some index' ↦ backfill participants s ms index'
      ]

  unfoldable pub enable_in_db : Conversation → ℕ → Db → Index → Result (Unit {0}) × Indexed Index
  enable_in_db conversation actor s index =
      if conversation.search_indexed
      then (err (conflict "Déjà indexée"), record { db = s; index = index })
      else if not (is_enabled cfg ready)
      then (err (conflict "Recherche désactivée côté serveur"), record { db = s; index = index })
      else let messages = backfill_messages conversation.id s in
        let participants = map (λ p. p.user_id) (list_participants conversation.id s) in
        let (done, index') = backfill participants s messages index in
        if not done
        then (err internal, record { db = s; index = index' })
        else with_db
            (log env 1 (some actor) "search.enabled" "conversation" (some conversation.id)
              (backfilled (length messages)) (flag_search (some env.now) conversation.id s))
            index'

  unfoldable pub enable_indexing :
      ℕ → ℕ → UserRole → Indexed Index → Result (Unit {0}) × Indexed Index
  enable_indexing conv actor role st =
      let (r, s) = assert_can_access env actor role conv st.db in
      elim r [
        | err e ↦ (err e, record { db = s; index = st.index })
        | ok a ↦ enable_in_db a.conversation actor s st.index
      ]

  unfoldable pub disable_indexing :
      ℕ → ℕ → UserRole → Indexed Index → Result (Unit {0}) × Indexed Index
  disable_indexing conv actor role st =
      let (r, s) = assert_can_access env actor role conv st.db in
      let s' = flag_search none conv s in
      elim r [
        | err e ↦ (err e, record { db = s; index = st.index })
        | ok a ↦ elim (delete_by_conversation engine cfg ready conv st.index) [
          | none ↦ (err internal, record { db = s'; index = st.index })
          | some index' ↦
              with_db
                (log env 1 (some actor) "search.disabled" "conversation" (some conv) no_metadata s')
                index'
        ]
      ]

module _ {Index : Type 0} (engine : Engine Index) (cfg : Config) (ready : Bool) where
  unfoldable pub index_message_if_enabled :
      IndexInput → Indexed Index → Result (Unit {0}) × Indexed Index
  index_message_if_enabled input st =
      let doc : Document = record {
        message_id = input.message_id;
        conversation_id = input.conversation_id;
        sequence = input.sequence;
        sender_id = input.sender_id;
        created_at = input.created_at;
        content = input.content;
        participants = input.participants;
      } in
      elim (find_conversation input.conversation_id st.db) [
        | none ↦ (ok tt, st)
        | some c ↦
            if not c.search_indexed
            then (ok tt, st)
            else elim (index_message engine cfg ready doc st.index) [
              | none ↦ (err internal, st)
              | some index' ↦ (ok tt, record { db = st.db; index = index' })
            ]
      ]

  unfoldable pub search : SearchInput → Indexed Index → Result SearchResult
  search input st =
      if not (is_enabled cfg ready)
      then err (conflict "Recherche désactivée")
      else if ltb (length input.query) 2
      then err (forbidden "Requête trop courte")
      else elim (search_documents engine cfg ready input st.index) [
        | none ↦ err internal
        | some found ↦ ok found
      ]
