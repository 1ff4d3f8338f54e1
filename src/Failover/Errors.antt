-- ===== src/Failover/Errors.antt =====
-- What a call to a channel may raise, and which of it is worth another channel:
-- backend/app/services/failover.py.
use five_api.Base.{ℕ, String, Bool, true, false, ◌||◌, Option, none, some, List, leb, ◌==◌}

-- httpx.Response, as far as it is read: `text` is `none` where reading it raises, and `error_in_ok`
-- marks an error body that came with HTTP 200. Header names are in lower case, as httpx gives them.
pub record Response : Type 0 where
  pub status_code : ℕ
  pub error_in_ok : Bool
  pub text : Option String
  pub headers : List (String × String)

-- The exceptions by class. `stream_error` is UpstreamStreamError, an HTTPStatusError with its event and
-- whether the stream was unfinished; `other` is an exception of no class that is asked about.
pub data Kind : Type 0 where
  http_status : Response → Kind
  stream_error : Response → String → Bool → Kind
  connect_timeout read_timeout write_timeout pool_timeout : Kind
  connect_error read_error write_error close_error : Kind
  remote_protocol_error : Kind
  no_ready_upstream_key : ℕ → Kind
  http_exception : ℕ → Kind
  other : Kind

-- `message` is `str(exc)`.
pub record Failure : Type 0 where
  pub kind : Kind
  pub message : String

-- Subclasses: TimeoutException, NetworkError, HTTPStatusError.
abbrev pub is_timeout : Kind → Bool
is_timeout connect_timeout = true
is_timeout read_timeout = true
is_timeout write_timeout = true
is_timeout pool_timeout = true
is_timeout _ = false

abbrev pub is_network_error : Kind → Bool
is_network_error connect_error = true
is_network_error read_error = true
is_network_error write_error = true
is_network_error close_error = true
is_network_error _ = false

abbrev pub response_of : Kind → Option Response
response_of (http_status r) = some r
response_of (stream_error r event unfinished) = some r
response_of _ = none

abbrev pub status_of : Option Response → Option ℕ
status_of none = none
status_of (some r) = some r.status_code

unfoldable pub upstream_status : Kind → Option ℕ
upstream_status k = status_of (response_of k)

-- CREDENTIAL_STATUSES
abbrev pub is_credential_status : ℕ → Bool
is_credential_status n = (n == 401) || (n == 403)

abbrev pub satisfies : (ℕ → Bool) → Option ℕ → Bool
satisfies test none = false
satisfies test (some n) = test n

abbrev pub is_protocol_error : Kind → Bool
is_protocol_error remote_protocol_error = true
is_protocol_error _ = false

abbrev pub is_no_ready_key : Kind → Bool
is_no_ready_key (no_ready_upstream_key id) = true
is_no_ready_key _ = false

abbrev pub is_http_exception : Kind → Bool
is_http_exception (http_exception n) = true
is_http_exception _ = false

unfoldable pub is_retryable_error : Kind → Bool
unfolding upstream_status
is_retryable_error k =
    is_timeout k
    || is_network_error k
    || satisfies (λ n. (n == 429) || leb 500 n) (upstream_status k)
    || is_protocol_error k

unfoldable pub is_credential_error : Kind → Bool
unfolding upstream_status
is_credential_error k = satisfies is_credential_status (upstream_status k)

unfoldable pub should_switch_channel : Kind → Bool
unfolding is_retryable_error is_credential_error
should_switch_channel k = is_retryable_error k || is_credential_error k || is_no_ready_key k

-- Nothing was sent, or no connection was made.
abbrev pub is_unsent : Kind → Bool
is_unsent (no_ready_upstream_key id) = true
is_unsent connect_error = true
is_unsent connect_timeout = true
is_unsent pool_timeout = true
is_unsent _ = false

unfoldable pub never_reached_upstream : Kind → Bool
unfolding upstream_status
never_reached_upstream k =
    is_unsent k || satisfies (λ n. (n == 429) || is_credential_status n) (upstream_status k)
