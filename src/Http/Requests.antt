-- ===== src/Http/Requests.antt =====
-- Requests of signed-in users to the controllers under backend/src/modules, from the guards to the
-- answer.
use messageries.Base.{
  Option, [], arith, false, find, if◌then◌else◌, inl, inr, is_some, refl, some, true, ℕ, ◌∷◌, ◌≡◌,
}
use messageries.Auth.{JwtPayload}
use messageries.Base.Text.{Text}
use messageries.Conversations.{Granted, assert_can_access}
use messageries.Db.{Db, Env, Result, err, ok, outcome}
use messageries.Entities.Chat.{Message}
use messageries.Http.Access.{IsSignedIn, authenticate-known}
use messageries.Http.Guards.{App, Credentials, conversation_guard, run_guards}
use messageries.Http.Handlers.{
  id_param, message_answer, messages_send, moderation_report, report_answer,
}
use messageries.Http.Routes.{
  ReportDto, SendMessageDto, guards_of, is_valid, report_message, send_message,
}
use messageries.Http.Serving.{Response, catch_error, handler, respond, serve, status_of, success}
use messageries.Http.Uuid.{fits, transform}
use messageries.Messages.Decryption.{DecryptedMessage}
use messageries.Messages.Sending.{SendMessageInput, send}
use messageries.Moderation.{has_message_id, report, report_row}
use messageries.Scanner.{is_empty}

-- How what `send` ends with is answered.
abbrev pub answered : Result DecryptedMessage → Db → Response × Db
answered (ok m) s = (success 201 (message_answer m), s)
answered (err e) s = (catch_error e, s)

abbrev pub input_of : ℕ → SendMessageDto → Option Text → JwtPayload → SendMessageInput
input_of id dto header_key user = record {
  conversation_id = id;
  sender_id = user.sub;
  body = dto.body;
  idempotency_key = if is_some dto.idempotency_key then dto.idempotency_key else header_key;
}

transform-full : (value id : Text) → transform value ≡ ok id → is_empty value ≡ false
unfolding transform fits
transform-full [] id h = absurd (ground arith)
transform-full (c ∷ t) id h = refl

module _ (app : App) (before env : Env) where
  id_param-read :
      (value written : Text) (id : ℕ) (s : Db)
      → transform value ≡ ok written
      → app.read_id written ≡ some id
      → id_param app env value s ≡ (ok id, s)
  unfolding id_param
  id_param-read value written id s h r = ground arith

  conversation_guard-granted :
      (user : JwtPayload) (conv : Text) (id : ℕ) (g : Granted) (s s' : Db)
      → is_empty conv ≡ false
      → app.read_id conv ≡ some id
      → assert_can_access before user.sub user.role id s ≡ (ok g, s')
      → conversation_guard app before conv user s ≡ (ok g, s')
  unfolding conversation_guard
  conversation_guard-granted user conv id g s s' full read granted = ground arith

  -- A valid message of a signed-in user who has access, under an identifier in any case, is answered
  -- as `send` ends on the database that the guard leaves, with the user of the token as the sender.
  pub message_served :
      (c : Credentials) (user : JwtPayload) (conv written : Text) (dto : SendMessageDto)
      (header_key : Option Text) (id : ℕ) (g : Granted) (s s' : Db)
      → IsSignedIn app before env c user
      → transform conv ≡ ok written
      → app.read_id conv ≡ some id
      → app.read_id written ≡ some id
      → is_valid app.characters (send_message conv dto header_key) ≡ true
      → assert_can_access before user.sub user.role id s ≡ (ok g, s')
      → respond app before env c (send_message conv dto header_key) s ≡ (
          let (r, s'') =
            send app.cipher app.scanner app.cfg env (input_of id dto header_key user) s' in
          answered r s'')
  unfolding respond serve run_guards guards_of handler messages_send status_of
  message_served c user conv written dto header_key id g s s' (token, found, verified) shaped read
        read_written valid granted =
      let known = authenticate-known app before env c user s token found verified in
      let guarded =
        conversation_guard-granted user conv id g s s' (transform-full conv written shaped) read
          granted in
      let param = id_param-read conv written id s' shaped read_written in
      elim (outcome
        (send app.cipher app.scanner app.cfg env (input_of id dto header_key user) s')) [
          | inl (a, t, done) ↦ ground (arith, done)
          | inr (e, t, threw) ↦ ground (arith, threw)
        ]

  -- Any signed-in user who knows the identifier of a message may report it, in whatever conversation
  -- it is; one report is added, in the name of that user.
  pub anyone_reports :
      (c : Credentials) (user : JwtPayload) (message written : Text) (dto : ReportDto) (id : ℕ)
      (m : Message) (s : Db)
      → IsSignedIn app before env c user
      → transform message ≡ ok written
      → app.read_id written ≡ some id
      → is_valid app.characters (report_message message dto) ≡ true
      → find (has_message_id id) s.messages ≡ some m
      → let row = report_row env (record {
        message_id = id;
        reporter_id = user.sub;
        reason = dto.reason;
        details = dto.details;
      }) in
        let (answer, s') = respond app before env c (report_message message dto) s in
        (answer ≡ success 201 (report_answer row))
        × (s'.reports ≡ row ∷ s.reports)
        × (s'.messages ≡ s.messages)
  unfolding respond serve run_guards guards_of handler moderation_report report status_of
  anyone_reports c user message written dto id m s (token, found, verified) shaped read valid
        known =
      let signed = authenticate-known app before env c user s token found verified in
      let param = id_param-read message written id s shaped read in
      (ground arith, ground arith, ground arith)
