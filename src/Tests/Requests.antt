-- ===== src/Tests/Requests.antt =====
-- The theorems on requests over HTTP, in the small shop.
use messageries.Base.{
  String, [], arith, false, if◌then◌else◌, length, none, refl, some, true, ℕ, ◌+◌, ◌∷◌, ◌≡◌,
}
use messageries.Auth.{Jwt, JwtPayload}
use messageries.Base.Text.{Text, codes, text_eq}
use messageries.Conversations.{Granted, assert_can_access}
use messageries.Conversations.Activity.{has_active}
use messageries.Db.{Db}
use messageries.Entities.Accounts.{customer}
use messageries.Entities.Chat.{Message, MessageReport}
use messageries.Http.Access.{IsSignedIn, outsider_gets_nothing, role_refused}
use messageries.Http.Guards.{App, Credentials}
use messageries.Http.Handlers.{report_answer}
use messageries.Http.Requests.{answered, anyone_reports, input_of, message_served}
use messageries.Http.Routes.{
  PresignDto, ReportDto, SendMessageDto, delete_by_admin, is_valid, presign_attachment,
  report_message, send_message,
}
use messageries.Http.Serving.{failure, respond, success}
use messageries.Http.Uploads.{outsider_uploads_nothing}
use messageries.Http.Uuid.{fits, transform}
use messageries.Messages.Sending.{message_row, send, with_body}
use messageries.Moderation.{report_row}
use messageries.Tests.Fixtures.{at, cfg, cipher, conv, crypt, hash, scanner, shop}

-- A token is the number of its user.
abbrev reading_jwt : Jwt
reading_jwt = record {
  sign = λ now p. p.sub ∷ [];
  verify = λ now t. elim t [
    | [] ↦ none
    | sub ∷ _ ↦ some (record { sub = sub; email = 97 ∷ []; role = customer })
  ];
}

abbrev pub conv_uuid : Text
conv_uuid = codes "0000000a-0000-4000-8000-000000000020"

abbrev message_uuid : Text
message_uuid = codes "0000000b-0000-4000-8000-000000000050"

abbrev pub app : App
app = record {
  cipher = cipher;
  scanner = scanner;
  cfg = cfg;
  crypt = crypt;
  hash = hash;
  jwt = reading_jwt;
  store = record {
    presign_put = λ key mime size ttl. key;
    presign_get = λ key ttl name. key;
    head = λ key. some 500;
    delete = λ key. true;
  };
  print_id = λ id. (id + 48) ∷ [];
  read_id = λ t.
      if text_eq t conv_uuid then some 20 else if text_eq t message_uuid then some 50 else none;
  read_number = λ t. none;
  characters = length;
  to_base64 = λ b. b;
  from_base64 = λ t. t;
  usable = true;
  zero_is_none = false;
}

-- The signed-in user of a number.
abbrev pub as_user : ℕ → Credentials
as_user n = record { cookie = none; bearer = some (n ∷ []) }

abbrev pub user : ℕ → JwtPayload
user n = record { sub = n; email = 97 ∷ []; role = customer }

abbrev hello : SendMessageDto
hello = record { body = 104 ∷ 105 ∷ []; idempotency_key = none }

as_user-IsSignedIn : (n now : ℕ) → IsSignedIn app (at now 40) (at now 50) (as_user n) (user n)
as_user-IsSignedIn n now = (n ∷ [], refl, refl)

role_refused_example :
    respond app (at 900 40) (at 900 50) (as_user 1) (delete_by_admin conv_uuid) shop
    ≡ (failure 403 "Rôle insuffisant", shop)
role_refused_example =
    role_refused app (at 900 40) (at 900 50) (as_user 1) (user 1) (delete_by_admin conv_uuid) shop
      (as_user-IsSignedIn 1 900) refl

outside_shop : (id : ℕ) → app.read_id conv_uuid ≡ some id → has_active id 7 shop ≡ false
outside_shop id h = ground arith

outsider_gets_nothing_example :
    (status : ℕ) × (message : String) × (respond app
        (at 900 40)
        (at 900 50)
        (as_user 7)
        (send_message conv_uuid hello none)
        shop
      ≡ (failure status message, shop))
outsider_gets_nothing_example =
    outsider_gets_nothing app (at 900 40) (at 900 50) (as_user 7) (user 7)
      (send_message conv_uuid hello none) conv_uuid shop (as_user-IsSignedIn 7 900) refl refl
      outside_shop

abbrev contract : PresignDto
contract = record {
  conversation_id = 20;
  filename = 97 ∷ [];
  mime_type = codes "application/pdf";
  size_bytes = 500;
}

outsider_uploads_nothing_example :
    (status : ℕ) × (message : String) × (respond app
        (at 900 40)
        (at 900 50)
        (as_user 7)
        (presign_attachment contract)
        shop
      ≡ (failure status message, shop))
outsider_uploads_nothing_example =
    outsider_uploads_nothing app (at 900 40) (at 900 50) (as_user 7) (user 7) contract shop
      (as_user-IsSignedIn 7 900) refl refl

abbrev alices : Granted
alices = record { conversation = conv; participant_role = customer }

message_served_example :
    respond app (at 900 40) (at 900 50) (as_user 1) (send_message conv_uuid hello none) shop ≡ (
      let (r, s) = send cipher scanner cfg (at 900 50) (input_of 20 hello none (user 1)) shop in
      answered r s)
unfolding transform fits is_valid assert_can_access
message_served_example =
    message_served app (at 900 40) (at 900 50) (as_user 1) (user 1) conv_uuid conv_uuid hello none
      20 alices shop shop (as_user-IsSignedIn 1 900) refl refl refl refl refl

abbrev stored : Message
stored =
    message_row cipher scanner cfg (at 900 50) (input_of 20 hello none (user 1)) conv
      (scanner.scan (104 ∷ 105 ∷ []))

abbrev talking : Db
talking = record shop { messages = stored ∷ [] }

abbrev spam : ReportDto
spam = record { reason = codes "spam"; details = none }

abbrev complaint : MessageReport
complaint =
    report_row (at 950 70)
      (record { message_id = 50; reporter_id = 7; reason = spam.reason; details = none })

-- User 7 has no part in the conversation.
anyone_reports_example :
    let (answer, s) =
      respond app (at 950 40) (at 950 70) (as_user 7) (report_message message_uuid spam) talking in
    (answer ≡ success 201 (report_answer complaint))
    × (s.reports ≡ complaint ∷ [])
    × (s.messages ≡ stored ∷ [])
unfolding transform fits is_valid message_row with_body
anyone_reports_example =
    anyone_reports app (at 950 40) (at 950 70) (as_user 7) (user 7) message_uuid message_uuid spam
      50 stored talking (7 ∷ [], refl, refl) refl refl refl refl
