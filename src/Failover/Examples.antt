-- ===== src/Failover/Examples.antt =====
-- One call at two channels: the first is overloaded, the second answers.
use five_api.Base.{
  ℕ, ◌≡◌, refl, true, false, none, some, List, [], ◌∷◌, Result, ok, err, ◌==◌, if◌then◌else◌,
}
use five_api.Base.Int.{pos, negsuc}
use five_api.Base.Json.{obj, end, str}
use five_api.Models.{ApiKey, Channel, Quotes, default, from_global}
use five_api.Redis.{plain, no_keys}
use five_api.Settlements.Reserve.{new_row}
use five_api.Lease.{RequestLease}
use five_api.Pricing.Tokens.{is_blob, count_text_tokens}
use five_api.Failover.Texts.{bare}
use five_api.Failover.Errors.{Kind, Failure, http_status}
use five_api.Failover.Details.{client_status}
use five_api.Failover.Usage.{meter_tokens, new_meter}
use five_api.Failover.Keys.{Provider, new_provider}
use five_api.Failover.Billing.{Call, Desk}
use five_api.Failover.Attempts.{Gateway, Answer, try_channel}
use five_api.Failover.Execute.{execute_with_failover}
use five_api.Failover.Statuses.{IsPublic, client_status-IsPublic}
use five_api.Failover.Meters.{feed_all, joined, feed_all-count_text_tokens}
use five_api.Failover.Bounded.{EndsWithin, try_channel-EndsWithin}
use five_api.Failover.Unreached.{OthersUnreached}
use five_api.Failover.Resends.{execute-OthersUnreached}
use five_api.Failover.Books.{IsOver}
use five_api.Failover.Ends.{execute-IsOver}

abbrev pub gateway : Gateway
gateway = record {
  texts = bare;
  redact = λ p. p;
  detail_of = λ c source searches. [];
  save_error = λ p. none;
  fingerprint = λ s. 0;
  session_index = λ s. 0;
  is_base64 = λ s. false;
  threshold = 3;
  redis_up = true;
  dispatch_up = true;
  db_up = true;
  now = 100;
}

abbrev channel : ℕ → Channel
channel id = record {
  id = id;
  provider = "openai";
  models = "gpt-5.5" ∷ [];
  model_mapping = [];
  price_multiplier = 10_000;
  price_overrides = [];
  priority = 0;
  weight = 1;
  is_enabled = true;
  max_retries = 1;
}

abbrev pub two_providers : List Provider
two_providers =
    new_provider (channel 1) ("sk-a" ∷ "sk-b" ∷ []) none
    ∷ new_provider (channel 2) ("sk-c" ∷ []) none
    ∷ []

abbrev robot : ApiKey
robot = record {
  id = 2;
  tenant_id = 1;
  quota_total = negsuc 999_999;
  quota_used = 0;
  quota_reset_day = none;
  quota_last_reset_at = none;
  window_limits = obj end;
  is_enabled = true;
  is_revoked = false;
  allowed_models = [];
  allowed_ips = [];
  model_group_id = none;
  channel_ids = [];
  expires_at = none;
  rpm_limit = negsuc 0;
  tpm_limit = negsuc 0;
  concurrent_limit = negsuc 0;
}

abbrev pub call : Call
call = record {
  request_id = 7;
  api_key = robot;
  endpoint = "/v1/chat/completions";
  model_requested = "gpt-5.5";
  is_stream = false;
  ip = "10.0.0.1";
  session_id = "";
  estimated_input = 50;
  concurrency_lease_id = none;
  price_table = [];
  owner_id = 9;
  now = 100;
}

abbrev quotes : Quotes
quotes =
    (
      default,
      record {
        model = "gpt-5.5";
        source = from_global;
        prices = record {
          input = 2_000_000;
          output = 8_000_000;
          cache_read = 0;
          cache_write = 0;
          request = 0;
        };
        multiplier = none;
      },
    )
    ∷ []

abbrev pub lease : RequestLease
lease = record {
  api_key_id = 2;
  request_id = 7;
  tpm_limit = negsuc 0;
  tenant_id = 1;
  tenant_tpm_limit = negsuc 0;
  tpm_reserved = 0;
  tenant_tpm_reserved = 0;
  tenant_lease_id = none;
  quotes = quotes;
  reserved = true;
  dispatched = false;
  estimated_tokens = 100;
  closed = false;
}

abbrev pub desk : Desk plain
desk = record {
  db = record {
    tenants = [];
    keys = robot ∷ [];
    settlements = new_row 1 7 1 2 500 quotes 9 90 ∷ [];
    logs = [];
    next_id = 2;
  };
  store = no_keys;
  unsaved = [];
  lease = some lease;
  sends = [];
}

abbrev pub overloaded : Kind
overloaded =
    http_status
      (record { status_code = 429; error_in_ok = false; text = some "busy"; headers = [] })

abbrev answer : Answer
answer = record {
  usage = record {
    prompt_tokens = some (pos 40);
    completion_tokens = some (pos 10);
    cached_tokens = none;
    cache_write_tokens = none;
    request_units = none;
    reported_prompt = none;
    reported_completion = none;
    usage_source = none;
    web_search_requests = none;
  };
  generated = obj end;
}

-- Channel 1 is overloaded, whichever key is used.
abbrev upstream : ℕ → ℕ → Result Failure Answer
upstream channel n =
    if channel == 1 then err (record { kind = overloaded; message = "429" }) else ok answer

execute-IsOver_example :
    IsOver plain gateway 7
      (execute_with_failover plain gateway false upstream none call two_providers desk).0
execute-IsOver_example =
    execute-IsOver plain gateway false upstream none call two_providers lease desk refl refl refl
      refl refl

execute-OthersUnreached_example :
    OthersUnreached
      (execute_with_failover plain gateway false upstream none call two_providers desk).0.sends
execute-OthersUnreached_example =
    execute-OthersUnreached plain gateway upstream none call two_providers desk refl

try_channel-EndsWithin_example : EndsWithin plain gateway true upstream 4 (
    try_channel plain gateway true upstream none
      (new_provider (channel 1) ("sk-a" ∷ "sk-b" ∷ []) none)
      desk)
try_channel-EndsWithin_example =
    try_channel-EndsWithin plain gateway true upstream none
      (new_provider (channel 1) ("sk-a" ∷ "sk-b" ∷ []) none) desk

client_status-IsPublic_example : IsPublic (client_status bare overloaded)
client_status-IsPublic_example = client_status-IsPublic bare overloaded

feed_all-count_text_tokens_example :
    meter_tokens (feed_all ("one " ∷ "two" ∷ []) new_meter)
    ≡ count_text_tokens (λ s n. s) (λ s. false) (str "one two")
unfolding is_blob joined
feed_all-count_text_tokens_example =
    feed_all-count_text_tokens (λ s n. s) (λ s. false) ("one " ∷ "two" ∷ []) refl
