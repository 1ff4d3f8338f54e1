-- ===== src/Models.antt =====
-- The rows of the gateway's tables (backend/app/models). Money is a number of millionths of a US
-- dollar, the smallest step that the decimal columns hold; times are seconds; identifiers that are
-- only compared are numbers. A signed limit of -1 means no limit.
use five_api.Base.{ℕ, String, Bool, Option, List}
use five_api.Base.Int.{ℤ}
use five_api.Base.Json.{Json}

-- Rolling caps on spend by the length of their windows, as they are read from a row's JSON.
pub record WindowLimits : Type 0 where
  pub five_hours : Option ℕ
  pub one_day : Option ℕ
  pub seven_days : Option ℕ

pub record Tenant : Type 0 where
  pub id : ℕ
  pub quota_total : ℤ
  pub quota_used : ℕ
  pub quota_reset_day : Option ℕ
  pub quota_last_reset_at : Option ℕ
  pub window_limits : Json
  pub is_enabled : Bool
  pub allowed_models : List String
  pub rpm_limit : ℤ
  pub tpm_limit : ℤ
  pub concurrent_limit : ℤ

pub record ApiKey : Type 0 where
  pub id : ℕ
  pub tenant_id : ℕ
  pub quota_total : ℤ
  pub quota_used : ℕ
  pub quota_reset_day : Option ℕ
  pub quota_last_reset_at : Option ℕ
  pub window_limits : Json
  pub is_enabled : Bool
  pub is_revoked : Bool
  pub allowed_models : List String
  pub allowed_ips : List String
  pub model_group_id : Option ℕ
  pub channel_ids : List ℕ
  pub expires_at : Option ℕ
  pub rpm_limit : ℤ
  pub tpm_limit : ℤ
  pub concurrent_limit : ℤ

-- Prices are per million tokens, and per request.
pub record ModelPrice : Type 0 where
  pub prompt_price : ℕ
  pub completion_price : ℕ
  pub cached_price : ℕ
  pub cache_write_price : ℕ
  pub request_price : ℕ
  pub is_active : Bool

-- A price that a channel fixes for a model; a field that is left out has a default.
pub record PriceOverride : Type 0 where
  pub prompt : Option ℕ
  pub completion : Option ℕ
  pub cached : Option ℕ
  pub cache_write : Option ℕ
  pub request : Option ℕ

-- The price multiplier is in ten-thousandths, the step of its column.
pub record Channel : Type 0 where
  pub id : ℕ
  pub provider : String
  pub models : List String
  pub model_mapping : List (String × String)
  pub price_multiplier : ℕ
  pub price_overrides : List (String × PriceOverride)
  pub priority : ℕ
  pub weight : ℕ
  pub is_enabled : Bool
  pub max_retries : ℕ

pub data State : Type 0 where
  reserved pending failed uncertain released settled : State

abbrev pub Payload : Type 0
Payload = List (String × Json)

-- Prices by token bucket, as a quote holds them.
pub record Prices : Type 0 where
  pub input : ℕ
  pub output : ℕ
  pub cache_read : ℕ
  pub cache_write : ℕ
  pub request : ℕ

pub data PriceSource : Type 0 where
  from_channel from_global from_catalog : PriceSource

pub record Quote : Type 0 where
  pub model : String
  pub source : PriceSource
  pub prices : Prices
  pub multiplier : Option ℕ

-- The price snapshots of a request, by channel and upstream model.
pub data SnapshotKey : Type 0 where
  default : SnapshotKey
  at_channel : ℕ → String → SnapshotKey

abbrev pub Quotes : Type 0
Quotes = List (SnapshotKey × Quote)

pub record Settlement : Type 0 where
  pub id : ℕ
  pub request_id : ℕ
  pub tenant_id : ℕ
  pub api_key_id : ℕ
  pub state : State
  pub occupied : ℕ
  pub cost : Option ℕ
  pub payload : Option Payload
  pub quotes : Quotes
  pub owner_id : ℕ
  pub dispatched : Bool
  pub attempts : ℕ
  pub next_retry_at : Option ℕ
  pub last_error : String
  pub windows_recorded : Bool
  pub created_at : ℕ
