-- ===== src/Failover/Billing/Request.antt =====
-- What `_bill_and_log` of backend/app/services/proxy.py is given, how a request is priced, and its row
-- in the log.
use five_api.Base.{
  ℕ, String, Bool, not, ◌&&◌, Option, none, some, List, [], ◌∷◌, if◌then◌else◌, ok, err,
}
use five_api.Base.Int.{ℤ, pos, eqb_ℤ}
use five_api.Base.Json.{Json, int, str}
use five_api.Base.Json.{bool}
use five_api.Models
use five_api.Models.{
  ApiKey, Channel, ModelPrice, Settlement, Payload, Quote, Quotes, SnapshotKey, default, at_channel,
}
use five_api.Pricing.Quotes.{same_key, selling_quote, quote_cost, Charge}
use five_api.Lease.{RequestLease}
use five_api.Failover.Errors.{Kind, Failure}
use five_api.Failover.Details.{Description}

-- What of a call is the same whichever channel serves it.
pub record Call : Type 0 where
  pub request_id : ℕ
  pub api_key : ApiKey
  pub endpoint : String
  pub model_requested : String
  pub is_stream : Bool
  pub ip : String
  pub session_id : String
  pub estimated_input : ℕ
  pub concurrency_lease_id : Option ℕ
  pub price_table : List (String × ModelPrice)
  pub owner_id : ℕ
  pub now : ℕ

pub record TokenCounts : Type 0 where
  pub prompt_tokens : ℤ
  pub completion_tokens : ℤ
  pub cached_tokens : ℤ
  pub cache_write_tokens : ℤ
  pub request_units : ℤ

abbrev pub no_tokens : TokenCounts
no_tokens = record {
  prompt_tokens = pos 0;
  completion_tokens = pos 0;
  cached_tokens = pos 0;
  cache_write_tokens = pos 0;
  request_units = pos 0;
}

-- The other arguments of `_bill_and_log`.
pub record Bill : Type 0 where
  pub model_actual : String
  pub tokens : TokenCounts
  pub channel : Option Channel
  pub status_code : ℕ
  pub description : Description
  pub failed_over : Bool
  pub usage_source : String
  pub uncertain : Bool
  pub web_search_requests : ℤ

abbrev pub no_description : Description
no_description = record {
  error_origin = "";
  upstream_status_code = 0;
  upstream_error = "";
  error_message = "";
}

-- One sending of the request: the channel, and how it failed if it did. A stream is noted before it is
-- read, without a failure.
pub record Sent : Type 0 where
  pub channel_id : ℕ
  pub failure : Option Kind

-- What is known of a database failure: its class.
abbrev pub no_database : Failure
no_database = record { kind = Kind.other; message = "OperationalError" }

abbrev pub find_quote : SnapshotKey → Quotes → Option Quote
find_quote k [] = none
find_quote k ((j, q) ∷ qs) = let rest = find_quote k qs in if same_key j k then some q else rest

abbrev pub or_quote : Option Quote → Option Quote → Option Quote
or_quote none q = q
or_quote (some p) q = some p

abbrev pub channel_quote : Option Channel → String → Quotes → Option Quote
channel_quote none model quotes = none
channel_quote (some ch) model quotes = find_quote (at_channel ch.id model) quotes

-- What the price of a request comes to: `raised` names the error that leaves it without a cost.
pub data Priced : Type 0 where
  priced : Charge → Priced
  raised : String → Priced

abbrev pub cost_of : Priced → Option ℕ
cost_of (priced c) = some c.cost
cost_of (raised e) = none

abbrev pub error_of : Priced → String
error_of (priced c) = ""
error_of (raised e) = e

abbrev pub price_tokens : Quote → TokenCounts → Priced
price_tokens q t =
    elim (quote_cost q t.prompt_tokens t.completion_tokens t.cached_tokens t.cache_write_tokens
      t.request_units) [ none ↦ raised "ValueError" | some c ↦ priced c ]

-- The snapshot that a lease holds, or today's price where there is no lease.
abbrev pub price_bill : Call → Option RequestLease → Bill → Priced
price_bill call (some lease) b =
    elim (or_quote (channel_quote b.channel b.model_actual lease.quotes)
      (find_quote default lease.quotes)) [
        | none ↦ raised "ValueError"
        | some q ↦ price_tokens q b.tokens
      ]
price_bill call none b =
    elim (selling_quote b.model_actual call.model_requested b.channel call.price_table) [
      | err e ↦ raised "HTTPException"
      | ok q ↦ price_tokens q b.tokens
    ]

abbrev pub has_tokens : TokenCounts → Bool
has_tokens t = not (
    eqb_ℤ t.prompt_tokens (pos 0)
    && eqb_ℤ t.completion_tokens (pos 0)
    && eqb_ℤ t.cached_tokens (pos 0)
    && eqb_ℤ t.cache_write_tokens (pos 0)
    && eqb_ℤ t.request_units (pos 0))

abbrev pub to_unknown : Payload → Settlement → Settlement
to_unknown payload s = record s {
  state = Models.uncertain;
  payload = some payload;
  last_error = "Upstream outcome unknown; manual reconciliation required";
}

abbrev pub id_of : Option Channel → Json
id_of none = Json.null
id_of (some ch) = int (pos ch.id)

abbrev pub provider_of : Option Channel → String
provider_of none = ""
provider_of (some ch) = ch.provider

-- The row of the request log. Names, latency, times and texts of the request are left out.
abbrev pub log_of : Call → Bill → Payload
log_of call b =
    ("request_id", int (pos call.request_id))
    ∷ ("api_key_id", int (pos call.api_key.id))
    ∷ ("tenant_id", int (pos call.api_key.tenant_id))
    ∷ ("channel_id", id_of b.channel)
    ∷ ("model_requested", str call.model_requested)
    ∷ ("model_actual", str b.model_actual)
    ∷ ("provider", str (provider_of b.channel))
    ∷ ("endpoint", str call.endpoint)
    ∷ ("prompt_tokens", int b.tokens.prompt_tokens)
    ∷ ("completion_tokens", int b.tokens.completion_tokens)
    ∷ ("cached_tokens", int b.tokens.cached_tokens)
    ∷ ("cache_write_tokens", int b.tokens.cache_write_tokens)
    ∷ ("is_stream", bool call.is_stream)
    ∷ ("status_code", int (pos b.status_code))
    ∷ ("error_message", str b.description.error_message)
    ∷ ("error_origin", str b.description.error_origin)
    ∷ ("upstream_status_code", int (pos b.description.upstream_status_code))
    ∷ ("upstream_error", str b.description.upstream_error)
    ∷ ("ip_address", str call.ip)
    ∷ ("failed_over", bool b.failed_over)
    ∷ ("session_id", str call.session_id)
    ∷ []

abbrev pub append_field : String → Json → Payload → Payload
append_field k v [] = (k, v) ∷ []
append_field k v (e ∷ p) = e ∷ append_field k v p
