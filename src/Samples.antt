-- ===== src/Samples.antt =====
-- Rows and draws that the examples share.
use five_api.Base.{ℕ, ◌<◌, true, false, none, some, List, [], ◌∷◌, arith, length}
use five_api.Base.Int.{pos, negsuc}
use five_api.Base.Json.{obj, end}
use five_api.Models.{Tenant, ApiKey, Channel}
use five_api.Routing.Fallbacks.{Calls}

abbrev pub acme : Tenant
acme = record {
  id = 1;
  quota_total = pos 1_000;
  quota_used = 0;
  quota_reset_day = none;
  quota_last_reset_at = none;
  window_limits = obj end;
  is_enabled = true;
  allowed_models = [];
  rpm_limit = pos 60;
  tpm_limit = negsuc 0;
  concurrent_limit = negsuc 0;
}

abbrev pub robot : ApiKey
robot = record {
  id = 2;
  tenant_id = 1;
  quota_total = negsuc 999_999;
  quota_used = 0;
  quota_reset_day = none;
  quota_last_reset_at = none;
  window_limits = obj end;
  is_enabled = true;
  is_revoked = false;
  allowed_models = [];
  allowed_ips = [];
  model_group_id = none;
  channel_ids = [];
  expires_at = some 900;
  rpm_limit = pos 10;
  tpm_limit = negsuc 0;
  concurrent_limit = negsuc 0;
}

abbrev pub west : Channel
west = record {
  id = 4;
  provider = "openai";
  models = "gpt-5.5" ∷ [];
  model_mapping = [];
  price_multiplier = 10_000;
  price_overrides = [];
  priority = 0;
  weight = 3;
  is_enabled = true;
  max_retries = 1;
}

abbrev pub east : Channel
east = record west { id = 5; weight = 1 }

abbrev pub other : Channel
other = record west { id = 6; models = "gpt-4.1" ∷ [] }

abbrev pub last_one : List Channel → ℕ
last_one [] = 0
last_one (ch ∷ chs) = length chs

abbrev pub full_weight : List Channel → ℕ
full_weight chs = 4

pub last_in_range : (chs : List Channel) → 0 < length chs → last_one chs < length chs
last_in_range [] h = h
last_in_range (ch ∷ chs) h = omega arith

abbrev pub calls : Calls
calls = record {
  randrange = λ i. last_one;
  uniform = λ i. full_weight;
  healthy = λ i id. true;
  scores = λ i. none;
  channels = λ i. west ∷ other ∷ east ∷ [];
}
