-- ===== src/Failover/Execute.antt =====
-- Sending a request to its candidates in turn, billing it and answering: `execute_with_failover` of
-- backend/app/services/proxy.py.
use mathlib.Core.Option
use five_api.Base.{
  ℕ, String, Bool, true, false, ◌&&◌, ◌||◌, Option, none, some, List, [], ◌∷◌, if◌then◌else◌,
  Result, ok, err, ◌>>=◌,
}
use five_api.Base.Int.{ℤ, pos}
use five_api.Base.Json.{
  Json, str, arr, obj, Items, nil, cons, Fields, end, field, truthy, get_field,
}
use five_api.Redis.{Redis, key}
use five_api.Pricing.Tokens.{count_text_tokens}
use five_api.Lease.{RequestLease, release}
use five_api.Limits.Concurrency
use five_api.Routing.Health.{record_success}
use five_api.Failover.Errors.{Kind, Failure, is_http_exception, should_switch_channel}
use five_api.Failover.Details.{
  describe_upstream_failure, client_status, client_message, upstream_json_error, outcome_uncertain,
}
use five_api.Failover.Usage.{dict_or_empty}
use five_api.Failover.Keys.{Provider, apply_model_mapping}
use five_api.Failover.Billing.{
  Call, Bill, TokenCounts, no_tokens, no_description, Desk, bill_and_log,
}
use five_api.Failover.Attempts.{
  Gateway, Reported, Answer, try_channel, answered, broke, spinning, Loop, with_store, may_resend,
}

abbrev pub count_or_zero : Option ℤ → ℤ
count_or_zero n = Option.get_or n (pos 0)

abbrev pub is_given : Option ℤ → Bool
is_given none = false
is_given (some n) = true

abbrev pub add_items : Items → Items → Items
add_items nil ys = ys
add_items (cons x xs) ys = cons x (add_items xs ys)

abbrev pub names_of : Fields → Items
names_of end = nil
names_of (field k v fs) = cons (str k) (names_of fs)

abbrev pub chars_of : String → Items
chars_of String.[] = nil
chars_of (String.◌∷◌ c s) = cons (str (String.◌∷◌ c String.[])) (chars_of s)

-- What walking `value or []` gives.
abbrev pub walked : Json → Result String Items
walked (arr xs) = ok xs
walked (obj fs) = ok (names_of fs)
walked (str s) = ok (chars_of s)
walked v = if truthy v then err "TypeError" else ok nil

abbrev pub choice_texts : Items → Result String Items
choice_texts nil = ok nil
choice_texts (cons (obj choice) choices) = do
  message ← dict_or_empty (get_field "message" choice)
  later ← choice_texts choices
  ok (
      cons (get_field "content" message) (
        cons (get_field "reasoning_content" message)
          (cons (get_field "tool_calls" message) (cons (get_field "text" choice) later))))
choice_texts (cons _ choices) = err "AttributeError"

-- The texts of an answer that came without a count of its output.
unfoldable pub generated_texts : Fields → Result String Items
generated_texts generated = do
  choices ← walked (get_field "choices" generated)
  pieces ← choice_texts choices
  output ← walked (get_field "output" generated)
  ok (add_items pieces output)

abbrev pub reported_prompt : Reported → Bool
reported_prompt u = Option.get_or u.reported_prompt (is_given u.prompt_tokens)

abbrev pub reported_output : Reported → Bool
reported_output u = Option.get_or u.reported_completion (is_given u.completion_tokens)

-- What a client gets: an answer, an error body of the channel, or nothing where there is no candidate.
pub data Reply : Type 0 where
  served : Answer → Reply
  relayed : ℕ → Json → Reply
  no_candidate : Reply

module _ (r : Redis) (g : Gateway) where
  open r use {Store}

  abbrev pub bill : Call → Bill → Desk r → Desk r × Option Failure
  bill call b d = bill_and_log r g.redact g.detail_of g.save_error g.redis_up g.db_up call b d

  abbrev pub count_output : Json → ℤ → Result String ℤ
  count_output (obj generated) given = do
    texts ← generated_texts generated
    ok (pos (count_text_tokens g.texts.first_chars g.is_base64 (arr texts)))
  count_output _ given = ok given

  abbrev pub provenance : Reported → String
  provenance u =
      if reported_prompt u && reported_output u
      then Option.get_or u.usage_source "upstream"
      else if reported_prompt u || reported_output u
      then "mixed"
      else "estimated"

  -- With a lease, what is not reported is estimated.
  abbrev pub tokens_with :
      Option RequestLease → Call → Answer → Result String (TokenCounts × String)
  tokens_with none call x = ok (
    record {
      prompt_tokens = count_or_zero x.usage.prompt_tokens;
      completion_tokens = count_or_zero x.usage.completion_tokens;
      cached_tokens = count_or_zero x.usage.cached_tokens;
      cache_write_tokens = count_or_zero x.usage.cache_write_tokens;
      request_units = count_or_zero x.usage.request_units;
    },
    Option.get_or x.usage.usage_source "upstream",
  )
  tokens_with (some lease) call x = do
    counted ←
        (let given = count_or_zero x.usage.completion_tokens in
          if reported_output x.usage then ok given else count_output x.generated given)
    ok (
      record {
        prompt_tokens =
            if reported_prompt x.usage
            then count_or_zero x.usage.prompt_tokens
            else pos call.estimated_input;
        completion_tokens = counted;
        cached_tokens = count_or_zero x.usage.cached_tokens;
        cache_write_tokens = count_or_zero x.usage.cache_write_tokens;
        request_units = count_or_zero x.usage.request_units;
      },
      provenance x.usage,
    )

  abbrev pub answer_bill : Call → Bool → Provider → Answer → TokenCounts × String → Bill
  answer_bill call moved p x (tokens, source) = record {
    model_actual = apply_model_mapping p call.model_requested;
    tokens = tokens;
    channel = some p.channel;
    status_code = 200;
    description = no_description;
    failed_over = moved;
    usage_source = source;
    uncertain = false;
    web_search_requests = count_or_zero x.usage.web_search_requests;
  }

  abbrev pub failure_bill : Call → Bool → Provider → Failure → Bill
  failure_bill call moved p e = record {
    model_actual = apply_model_mapping p call.model_requested;
    tokens = no_tokens;
    channel = some p.channel;
    status_code = client_status g.texts e.kind;
    description = describe_upstream_failure g.texts e;
    failed_over = moved;
    usage_source = "upstream";
    uncertain = outcome_uncertain e.kind;
    web_search_requests = pos 0;
  }

  abbrev pub charge_tokens :
      Call
      → Bool
      → Provider
      → Answer
      → Desk r
      → Result String (TokenCounts × String)
      → Desk r × Option Failure
  charge_tokens call moved p x d (err e) = (d, some (record { kind = Kind.other; message = e }))
  charge_tokens call moved p x d (ok t) = bill call (answer_bill call moved p x t) d

  abbrev pub charge_answer : Call → Bool → Provider → Answer → Desk r → Desk r × Option Failure
  charge_answer call moved p x d = charge_tokens call moved p x d (tokens_with d.lease call x)

  -- How one candidate leaves the loop over them.
  pub data Served : Type 0 where
    replied : Desk r → Reply → Served
    raised : Desk r → Failure → Served
    moves : Desk r → Served

  -- `format_error` raises an HTTPException.
  abbrev pub formatted : Kind → Failure
  formatted e = record {
    kind = Kind.http_exception (client_status g.texts e);
    message = client_message g.texts e;
  }

  abbrev pub relay_or_raise : Desk r → Kind → Option (ℕ × Json) → Served
  relay_or_raise d e (some passed) = replied d (relayed (client_status g.texts e) passed.1)
  relay_or_raise d e none = raised d (formatted e)

  abbrev pub after_bill : Kind → Desk r × Option Failure → Served
  after_bill e (d, some e') = raised d e'
  after_bill e (d, none) = relay_or_raise d e (upstream_json_error g.texts e)

  abbrev pub close_lease : Option RequestLease → Desk r → Desk r
  close_lease none d = d
  close_lease (some lease) d =
      let (ended, w) = release r g.redis_up g.db_up lease (record { db = d.db; store = d.store }) in
      record d { lease = some ended; db = w.db; store = w.store }

  -- The `finally` of the whole.
  unfoldable pub close : Call → Desk r → Desk r
  close call d =
      with_store r g (Concurrency.release r key call.api_key.id call.concurrency_lease_id)
        (close_lease d.lease d)

  module _ (idempotent : Bool) (upstream : ℕ → ℕ → Result Failure Answer) where
    -- `more` says whether a candidate is left.
    unfoldable pub on_failure : Call → Bool → Bool → Provider → Failure → Desk r → Served
    on_failure call moved more p e d =
        if is_http_exception e.kind
        then raised d e
        else if should_switch_channel e.kind && may_resend r g idempotent upstream e.kind && more
        then moves d
        else after_bill e.kind (bill call (failure_bill call moved p e) d)

    abbrev pub after_answer :
        Call → Bool → Bool → Provider → Answer → Desk r × Option Failure → Served
    after_answer call moved more p x (d, none) =
        replied (with_store r g (record_success r p.channel.id) d) (served x)
    after_answer call moved more p x (d, some e) = on_failure call moved more p e d

    -- A loop with enough fuel never spins.
    abbrev pub after_loop : Call → Bool → Bool → Loop r g idempotent upstream → Desk r → Served
    after_loop call moved more (answered d p x) d0 =
        after_answer call moved more p x (charge_answer call moved p x d)
    after_loop call moved more (broke d p e) d0 = on_failure call moved more p e d
    after_loop call moved more spinning d0 = moves d0

    unfoldable pub try_candidate : Option String → Call → Bool → Bool → Provider → Desk r → Served
    unfolding on_failure
    try_candidate session call moved more p d =
        after_loop call moved more (try_channel r g idempotent upstream session p d) d

    abbrev pub is_more : List Provider → Bool
    is_more [] = false
    is_more (p ∷ ps) = true

    -- Whether the loop goes on to the next candidate.
    abbrev pub next_candidate :
        (Desk r → Desk r × Result Failure Reply) → Served → Desk r × Result Failure Reply
    next_candidate rest (replied d reply) = (d, ok reply)
    next_candidate rest (raised d e) = (d, err e)
    next_candidate rest (moves d) = rest d

    unfoldable pub try_candidates :
        Option String → Call → Bool → List Provider → Desk r → Desk r × Result Failure Reply
    unfolding try_candidate
    try_candidates session call moved [] d = (d, ok no_candidate)
    try_candidates session call moved (p ∷ ps) d =
        next_candidate (λ d'. try_candidates session call true ps d')
          (try_candidate session call moved (is_more ps) p d)

    unfoldable pub execute_with_failover :
        Option String → Call → List Provider → Desk r → Desk r × Result Failure Reply
    unfolding try_candidates close
    execute_with_failover session call ps d =
        let (d', outcome) = try_candidates session call false ps d in (close call d', outcome)
