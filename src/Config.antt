-- ===== src/Config.antt =====
-- backend/src/config/env.validation.ts: the settings that the modelled code reads, and their
-- default values.
use messageries.Base.{Bool, false, true, ℕ}

pub record Config : Type 0 where
  pub is_production : Bool
  pub jwt_access_ttl : ℕ
  pub jwt_refresh_ttl : ℕ
  pub max_message_length : ℕ
  pub max_attachment_mb : ℕ
  pub rate_limit_ws_events_per_minute : ℕ
  pub clamav_enabled : Bool
  pub encrypt_message_body : Bool
  pub email_throttle_minutes : ℕ
  pub ws_gateway_dedicated : Bool
  pub nats_enabled : Bool
  pub search_enabled : Bool

abbrev pub default_config : Config
default_config = record {
  is_production = false;
  jwt_access_ttl = 900;
  jwt_refresh_ttl = 2592000;
  max_message_length = 4000;
  max_attachment_mb = 10;
  rate_limit_ws_events_per_minute = 120;
  clamav_enabled = false;
  encrypt_message_body = true;
  email_throttle_minutes = 10;
  ws_gateway_dedicated = false;
  nats_enabled = false;
  search_enabled = false;
}
