-- ===== src/Failover/Stream.antt =====
-- The end of a stream: the `except` and the `finally` of `stream_with_failover` in
-- backend/app/services/proxy.py.
use five_api.Base.{
  ℕ, String, Bool, true, false, not, ◌&&◌, ◌||◌, ◌==◌, Option, none, some, List, if◌then◌else◌,
}
use five_api.Base.Json.{is_empty}
use five_api.Base.Int.{pos}
use five_api.Redis.{Redis, key}
use five_api.Lease.{RequestLease}
use five_api.Limits.Concurrency
use five_api.Failover.Errors.{Kind, Failure, stream_error, http_exception, is_credential_error}
use five_api.Failover.Details.{
  Description, describe_upstream_failure, client_status, client_message, outcome_uncertain,
}
use five_api.Failover.Usage.{meter_tokens}
use five_api.Failover.Keys.{Provider}
use five_api.Failover.Billing.{Call, Bill, TokenCounts, Desk}
use five_api.Failover.Attempts.{Gateway, with_store}
use five_api.Failover.Execute.{bill, close_lease}
use five_api.Failover.Streaming.{Script, Flow, new_flow}
use five_api.Failover.Relay.{Ending, over, hung_up, raised, stream_candidates, end_active}

module _ (r : Redis) (g : Gateway) where
  open r use {Store}

  -- The generator's end: its variables, the exception that it raises, and its last event.
  pub record StreamEnd : Type 0 where
    pub flow : Flow r g
    pub raises : Option Failure
    pub event : Option String

  abbrev pub unanswered : Flow r g → StreamEnd
  unanswered f = record { flow = f; raises = none; event = none }

  abbrev pub own_event : Kind → Option String
  own_event (stream_error res event unfinished) = if is_empty event then none else some event
  own_event _ = none

  -- The channel's own event where it has one and it is not about the platform's credentials.
  abbrev pub event_or : Option String → Kind → String → String
  event_or none e formatted = formatted
  event_or (some event) e formatted =
      if is_credential_error e then formatted else g.texts.redact_event event

  abbrev pub error_event : (Kind → String) → Kind → String
  error_event format_error_event e = event_or (own_event e) e (format_error_event e)

  abbrev pub no_accounting : Description
  no_accounting = record {
    error_origin = "gateway";
    upstream_status_code = 0;
    upstream_error = "";
    error_message = "Accounting unavailable before upstream dispatch";
  }

  abbrev pub client_failure : Kind → Failure
  client_failure e = record {
    kind = http_exception (client_status g.texts e);
    message = client_message g.texts e;
  }

  abbrev pub failed_flow : Failure → Flow r g → Flow r g
  failed_flow e f = record f {
    status_code = client_status g.texts e.kind;
    description = describe_upstream_failure g.texts e;
    uncertain = not f.data_yielded && outcome_uncertain e.kind;
  }

  abbrev pub is_refused : Kind → Option ℕ
  is_refused (http_exception n) = some n
  is_refused _ = none

  -- Before the first line the client gets a status, after it an event.
  abbrev pub caught : (Kind → String) → Failure → Option ℕ → Flow r g → StreamEnd
  caught format_error_event e (some status) f = record {
    flow = record f { status_code = status; description = no_accounting };
    raises = some e;
    event = none;
  }
  caught format_error_event e none f =
      if f.data_yielded
      then record {
        flow = failed_flow e f;
        raises = none;
        event = some (error_event format_error_event e.kind);
      }
      else record { flow = failed_flow e f; raises = some (client_failure e.kind); event = none }

  abbrev pub handled : (Kind → String) → Ending r g → StreamEnd
  handled format_error_event (over f) = unanswered f
  handled format_error_event (hung_up f) = unanswered f
  handled format_error_event (raised e f) = caught format_error_event e (is_refused e.kind) f

  abbrev pub disconnected : Description
  disconnected = record {
    error_origin = "client";
    upstream_status_code = 0;
    upstream_error = "";
    error_message = "Client disconnected";
  }

  abbrev pub is_left : Flow r g → Bool
  is_left f = not f.completed && not f.answered && (f.status_code == 200)

  abbrev pub is_leased : Option RequestLease → Bool
  is_leased none = false
  is_leased (some lease) = true

  -- What was not reported is taken from what was forwarded, or from the estimate.
  abbrev pub billed_tokens : Call → Flow r g → TokenCounts
  billed_tokens call f = record f.tokens {
    prompt_tokens =
        if f.data_yielded && not f.reported_prompt && is_leased f.desk.lease
        then pos call.estimated_input
        else f.tokens.prompt_tokens;
    completion_tokens =
        if f.data_yielded && not f.reported_output
        then pos (meter_tokens f.meter)
        else f.tokens.completion_tokens;
  }

  abbrev pub usage_source : Flow r g → String
  usage_source f =
      if f.reported_prompt && f.reported_output
      then "upstream"
      else if f.reported_prompt || f.reported_output
      then "mixed"
      else "estimated"

  unfoldable pub stream_bill : Call → Flow r g → Bill
  stream_bill call f = record {
    model_actual = f.model_actual;
    tokens = billed_tokens call f;
    channel = f.channel;
    status_code = if is_left f then 499 else f.status_code;
    description = if is_left f then disconnected else f.description;
    failed_over = f.failed_over;
    usage_source = usage_source f;
    uncertain = f.uncertain;
    web_search_requests = f.web_search_requests;
  }

  -- A bill that raises skips the release, and its exception takes the place of any other.
  abbrev pub released_or : Desk r × Option Failure → StreamEnd → StreamEnd
  released_or (d, some e) end = record end { flow = record end.flow { desk = d }; raises = some e }
  released_or (d, none) end = record end {
    flow = record end.flow { desk = close_lease r g d.lease d };
  }

  abbrev pub before_bill : Call → Flow r g → Desk r
  before_bill call f =
      with_store r g (Concurrency.release r key call.api_key.id call.concurrency_lease_id)
        (end_active r g f.active f.desk)

  unfoldable pub close_stream : Call → StreamEnd → StreamEnd
  unfolding stream_bill
  close_stream call end =
      released_or (bill r g call (stream_bill call end.flow) (before_bill call end.flow)) end

  unfoldable pub stream_with_failover :
      (ℕ → Bool)
      → (ℕ → ℕ → Script)
      → (Kind → String)
      → Option String
      → Call
      → List Provider
      → Desk r
      → StreamEnd
  unfolding stream_candidates close_stream
  stream_with_failover hangs_up upstream format_error_event session call ps d = close_stream call (
      handled format_error_event
        (stream_candidates r g hangs_up upstream call session ps (new_flow r g call d)))
