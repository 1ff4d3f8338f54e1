-- ===== src/Failover/Details.antt =====
-- How a failure is logged and what the client sees of it: backend/app/services/error_detail.py.
use Prim.Native.String.{count, ◌++◌}
use five_api.Base.{
  ℕ, String, Bool, true, false, not, ◌||◌, ◌&&◌, Option, none, some, ltb, leb, if◌then◌else◌,
}
use five_api.Base.Json.{Json, str, obj, Fields, truthy, get_field, is_empty}
use five_api.Failover.Texts.{Texts}
use five_api.Failover.Errors.{
  Kind, Failure, Response, http_status, stream_error, read_timeout, write_timeout, read_error,
  write_error, remote_protocol_error, no_ready_upstream_key, is_timeout, is_network_error,
  is_credential_error, response_of,
}

abbrev pub max_error_chars : ℕ
max_error_chars = 8_000

-- A dict of these four fields.
pub record Description : Type 0 where
  pub error_origin : String
  pub upstream_status_code : ℕ
  pub upstream_error : String
  pub error_message : String

module _ (texts : Texts) where
  open texts use {loads, show, show_ℕ, strip, first_chars, redact, redact_error}

  abbrev pub clip_redacted : String → String
  clip_redacted text =
      if leb (count text) max_error_chars
      then text
      else first_chars text max_error_chars ++ "\n…[truncated]"

  abbrev pub clip : String → String
  clip text = clip_redacted (redact text)

  abbrev pub response_text : Response → String
  response_text r = elim r.text [ none ↦ "" | some text ↦ text ]

  abbrev pub or_text : String → String → String
  or_text text fallback = if is_empty text then fallback else text

  -- `data.get("message")`, or else the fallback
  abbrev pub plain_message : Fields → String → String
  plain_message body fallback =
      if truthy (get_field "message" body) then show (get_field "message" body) else fallback

  -- By the type of `data.get("error")`.
  abbrev pub error_message_of : Json → Fields → String → String
  error_message_of (obj error) body fallback =
      if truthy (get_field "message" error)
      then show (get_field "message" error)
      else plain_message body fallback
  error_message_of (str error) body fallback =
      if is_empty error then plain_message body fallback else error
  error_message_of _ body fallback = plain_message body fallback

  abbrev pub message_in : Json → String → String
  message_in (obj body) fallback = error_message_of (get_field "error" body) body fallback
  message_in _ fallback = fallback

  unfoldable pub message_from_body : String → String → String
  message_from_body text fallback = elim (loads text) [
    | none ↦ or_text (strip text) fallback
    | some body ↦ message_in body fallback
  ]

  abbrev pub described : String → ℕ → String → String → Description
  described origin status error summary = record {
    error_origin = origin;
    upstream_status_code = status;
    upstream_error = clip error;
    error_message = clip summary;
  }

  abbrev pub describe_response : Response → String → Description
  describe_response r summary =
      described "channel" (if r.error_in_ok then 200 else r.status_code) (response_text r)
        (message_from_body (response_text r) summary)

  abbrev pub describe_unanswered : Kind → String → Description
  describe_unanswered k summary =
      if is_timeout k
      then described "channel" 0 "Upstream timeout" "Upstream timeout"
      else if is_network_error k
      then described "channel" 0 ("Upstream network error: " ++ summary)
          ("Upstream network error: " ++ summary)
      else described "channel" 0 summary summary

  unfoldable pub describe_upstream_failure : Failure → Description
  unfolding message_from_body
  describe_upstream_failure e = elim (response_of e.kind) [
    | some r ↦ describe_response r e.message
    | none ↦ describe_unanswered e.kind e.message
  ]

  abbrev pub relayed_body : ℕ → Option Json → Option (ℕ × Json)
  relayed_body status (some (obj body)) = some (status, redact_error (obj body))
  relayed_body status _ = none

  abbrev pub relayed_response : Response → Option (ℕ × Json)
  relayed_response r =
      if ltb r.status_code 400 || (leb 500 r.status_code && not r.error_in_ok)
      then none
      else if is_empty (response_text r) || ltb max_error_chars (count (response_text r))
      then none
      else relayed_body r.status_code (loads (response_text r))

  unfoldable pub upstream_json_error : Kind → Option (ℕ × Json)
  unfolding is_credential_error
  upstream_json_error k = elim (response_of k) [
    | none ↦ none
    | some r ↦ if is_credential_error k then none else relayed_response r
  ]

  abbrev pub status_passed : Option (ℕ × Json) → ℕ
  status_passed none = 502
  status_passed (some passed) = passed.0

  unfoldable pub client_status : Kind → ℕ
  unfolding upstream_json_error
  client_status (no_ready_upstream_key id) = 503
  client_status k = status_passed (upstream_json_error k)

  abbrev pub status_message : Kind → String
  status_message (http_status r) = "Upstream error: HTTP " ++ show_ℕ r.status_code
  status_message (stream_error r event unfinished) = "Upstream error: HTTP " ++ show_ℕ r.status_code
  status_message k =
      if is_timeout k
      then "Upstream error: timeout"
      else if is_network_error k
      then "Upstream error: network unreachable"
      else "Upstream error"

  unfoldable pub client_message : Kind → String
  unfolding is_credential_error
  client_message (no_ready_upstream_key id) = "Upstream capacity temporarily unavailable"
  client_message k =
      if is_credential_error k then "Upstream credentials unavailable" else status_message k

  unfoldable pub gateway_failure : String → Description
  gateway_failure message = described "gateway" 0 "" message

-- Whether the channel may have done the work without the gateway learning it.
unfoldable pub outcome_uncertain : Kind → Bool
outcome_uncertain (stream_error r event unfinished) = unfinished
outcome_uncertain read_timeout = true
outcome_uncertain write_timeout = true
outcome_uncertain read_error = true
outcome_uncertain write_error = true
outcome_uncertain remote_protocol_error = true
outcome_uncertain _ = false
