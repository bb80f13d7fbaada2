-- ===== src/Tests/Fixtures.antt =====
-- A small shop: order 10 of customer 1 and seller 2 has conversation 20; agent 3 is support.
use messageries.Base.{
  Bool, Option, [], arith, false, none, refl, some, true, ℕ, ◌*◌, ◌+◌, ◌∷◌, ◌≡◌, ◌≢◌,
}
use messageries.Auth.{Jwt}
use messageries.Base.Text.{Text, codes, text_eq}
use messageries.Config.{Config, default_config}
use messageries.Crypto.{BodyCipher}
use messageries.Db.{Db, Env, empty_db}
use messageries.Entities.Accounts.{Order, User, UserRole, customer, open_order, seller}
use messageries.Entities.Chat.{Conversation, ConversationParticipant, open_conv}
use messageries.Scanner.{Scanner}
use messageries.Users.{Crypt}

abbrev pub cfg : Config
cfg = default_config

abbrev pub at : ℕ → ℕ → Env
at now base = record { now = now; uuid = λ n. base + n; audit_up = true }

-- Encryption that writes the text as it is, under one key.
pub cipher_law : (n : ℕ) (t : Text) → true ≡ true → ◌≡◌ {A = Option Text} (some t) (some t)
cipher_law n t h = refl

pub key_law : (n : ℕ) (t : Text) → ◌≢◌ {A = Text} (1 ∷ []) []
key_law n t h = ground arith

abbrev pub cipher : BodyCipher
cipher = record {
  encodable = λ t. true;
  encrypt = λ n t. record { ciphertext = t; iv = n ∷ []; tag = []; dek_id = 1 ∷ [] };
  decrypt = λ e. some e.ciphertext;
  decrypt-encrypt = cipher_law;
  dek_id_ne_nil = key_law;
}

pub scan_law : (t : Text) → ◌≡◌ {A = Bool} false false
scan_law t = refl

-- A scanner that finds nothing.
abbrev pub scanner : Scanner
scanner = record {
  scan = λ t. record { cleaned = t; flags = []; score = 0; had_sensitive = false };
  sensitive_iff_flagged = scan_law;
}

abbrev pub hash : Text → ℕ
hash [] = 0
hash (c ∷ t) = c + 2 * hash t

abbrev pub crypt : Crypt
crypt = record {
  lower = λ t. t;
  fold = λ t. t;
  hash_password = λ salt t. t;
  verify = λ h t. text_eq h t;
}

abbrev pub jwt : Jwt
jwt = record { sign = λ now p. p.sub ∷ now ∷ []; verify = λ now t. none }

abbrev pub alice : User
alice = record {
  id = 1;
  email = 97 ∷ [];
  password_hash = 112 ∷ [];
  role = customer;
  display_name = none;
  mfa_secret = none;
  is_suspended = false;
  anonymized_at = none;
  data_export_requested_at = none;
  created_at = 0;
  updated_at = 0;
}

abbrev pub order : Order
order = record {
  id = 10;
  external_ref = 79 ∷ [];
  customer_id = 1;
  seller_id = 2;
  status = open_order;
  total_cents = 4200;
  currency = codes "EUR";
  created_at = 0;
}

abbrev pub conv : Conversation
conv = record {
  id = 20;
  order_id = 10;
  status = open_conv;
  subject = none;
  last_message_at = none;
  last_sequence = 0;
  created_at = 0;
  updated_at = 0;
  search_indexed = false;
  search_indexed_at = none;
  e2ee_enabled = false;
  e2ee_enabled_at = none;
}

abbrev pub member : ℕ → UserRole → ConversationParticipant
member user role = record {
  conversation_id = 20;
  user_id = user;
  role = role;
  joined_at = 0;
  left_at = none;
  muted = false;
  last_read_sequence = 0;
}

abbrev pub shop : Db
shop = record empty_db {
  users = alice ∷ [];
  orders = order ∷ [];
  conversations = conv ∷ [];
  participants = member 1 customer ∷ member 2 seller ∷ [];
}
