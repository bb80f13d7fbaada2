-- ===== src/Messages/Deletion.antt =====
-- Deleting and reading a message.
use messageries.Base.{
  Option, Option-cases, [], arith, find, find-update_where, find_sound, inl, inr, refl, some, ℕ,
  ◌==◌, ◌≡◌,
}
use messageries.Base.Text.{Text}
use messageries.Config.{Config}
use messageries.Conversations.{find_conversation}
use messageries.Crypto.{BodyCipher}
use messageries.Db.{Db, Env, Error, err, ok}
use messageries.Entities.Chat.{Message}
use messageries.Messages.Decryption.{shown_text, to_decrypted}
use messageries.Messages.Reading.{soft_delete, wiped}
use messageries.Messages.Sequence.{IsNumbered, sequences-update_where}
use messageries.Realtime.{publish_message_deleted}

module _ (cipher : BodyCipher) (cfg : Config) (env : Env) where
  -- Only its sender deletes a message. Its row keeps its number and loses its text, in clear and
  -- encrypted; whoever reads it gets the empty text.
  pub soft_delete_inv :
      (message_id actor : ℕ) (s s' : Db)
      → soft_delete cfg env message_id actor s ≡ (ok tt, s')
      → (m : Message) × (find (λ x. x.id == message_id) s.messages ≡ some m)
        × (m.sender_id ≡ actor)
        × (find (λ x. x.id == message_id) s'.messages ≡ some (wiped cfg env m))
        × ((known : Option Text)
            → to_decrypted cipher known (wiped cfg env m) s'
              ≡ (ok (record { message = wiped cfg env m; body = [] }), s'))
  unfolding soft_delete publish_message_deleted to_decrypted shown_text
  soft_delete_inv message_id actor s s' h =
      elim (Option-cases (find (λ (x : Message). x.id == message_id) s.messages)) [
        | inl missing ↦ absurd (ground arith)
        | inr (m, found) ↦ (
          m,
          found,
          ground arith,
          ground (
            arith,
            find_sound (λ (x : Message). x.id == message_id) s.messages m found,
            find-update_where (λ (x : Message). x.id == message_id) (λ x. x.id == message_id)
                (wiped cfg env) s.messages (λ x. refl),
          ),
          λ known. refl,
        )
      ]

  -- A refused deletion, of an unknown message or of another's, changes nothing.
  pub soft_delete_fails :
      (message_id actor : ℕ) (s : Db) (e : Error)
      → (soft_delete cfg env message_id actor s).0 ≡ err e
      → (soft_delete cfg env message_id actor s).1 ≡ s
  unfolding soft_delete publish_message_deleted
  soft_delete_fails message_id actor s e h =
      elim (Option-cases (find (λ (x : Message). x.id == message_id) s.messages)) [
        | inl missing ↦ ground arith
        | inr (m, found) ↦ ground arith
      ]

  -- Deleting keeps every number.
  pub soft_delete-IsNumbered :
      (message_id actor : ℕ) (s : Db)
      → IsNumbered s
      → IsNumbered (soft_delete cfg env message_id actor s).1
  unfolding soft_delete publish_message_deleted find_conversation
  soft_delete-IsNumbered message_id actor s h conv c found =
      elim (Option-cases (find (λ (x : Message). x.id == message_id) s.messages)) [
        | inl missing ↦ ground (arith, h conv c)
        | inr (m, located) ↦ ground (
          arith,
          h conv c,
          sequences-update_where conv (λ m. m.id == message_id) (wiped cfg env) s.messages
              (λ m. refl) (λ m. refl),
        )
      ]
