-- ===== src/Failover/Attempts.antt =====
-- Sending to one channel again and again: the inner loop of `execute_with_failover` in
-- backend/app/services/proxy.py.
use five_api.Base.{
  ℕ, zero, suc, ◌+◌, ◌-◌, String, Bool, true, false, not, ◌&&◌, ◌||◌, Option, none, some, ◌∷◌, ltb,
  leb, ◌==◌, if◌then◌else◌, Result, ok, err, length,
}
use five_api.Base.Int.{ℤ}
use five_api.Base.Json.{Json}
use five_api.Models.{Payload}
use five_api.Redis.{Redis}
use five_api.Pricing.Quotes.{Charge}
use five_api.Lease.{RequestLease, before_send}
use five_api.Routing.Health.{record_failure, record_rate_limit}
use five_api.Failover.Texts.{Texts}
use five_api.Failover.Errors.{
  Kind, Failure, is_http_exception, is_retryable_error, is_credential_error, never_reached_upstream,
  upstream_status, satisfies,
}
use five_api.Failover.Keys.{
  Provider, is_key_status, cooldown_for, rotate_key, has_ready_key, select_key, begin_attempt,
  end_attempt,
}
use five_api.Failover.Billing.{Desk}

-- What surrounds a request: the functions on texts and hashes, the health threshold, and what answers.
-- The database answers the dispatch (`dispatch_up`) and the bill (`db_up`) or not.
pub record Gateway : Type 0 where
  pub texts : Texts
  pub redact : Payload → Payload
  pub detail_of : Charge → String → ℤ → Payload
  pub save_error : Payload → Option String
  pub fingerprint : String → ℕ
  pub session_index : String → ℕ
  pub is_base64 : String → Bool
  pub threshold : ℕ
  pub redis_up : Bool
  pub dispatch_up : Bool
  pub db_up : Bool
  pub now : ℕ

-- A usage dict; a field that is left out is `none`.
pub record Reported : Type 0 where
  pub prompt_tokens : Option ℤ
  pub completion_tokens : Option ℤ
  pub cached_tokens : Option ℤ
  pub cache_write_tokens : Option ℤ
  pub request_units : Option ℤ
  pub reported_prompt : Option Bool
  pub reported_completion : Option Bool
  pub usage_source : Option String
  pub web_search_requests : Option ℤ

-- What a channel answered; `generated` is the response or what its body parses to, an empty object where
-- it does not parse.
pub record Answer : Type 0 where
  pub usage : Reported
  pub generated : Json

-- How one attempt ends: with an answer, with a reason to try again, or for good.
pub data Turn : Type 0 where
  got : Answer → Turn
  rotates retries : Turn
  gives_up : Failure → Turn

abbrev pub kind_of : Result Failure Answer → Option Kind
kind_of (ok x) = none
kind_of (err e) = some e.kind

abbrev pub unavailable : Failure
unavailable = record { kind = Kind.http_exception 503; message = "accounting_unavailable" }

module _ (r : Redis) (g : Gateway) where
  open r use {Store}

  abbrev pub with_store : (Store → Store) → Desk r → Desk r
  with_store f d = if g.redis_up then record d { store = f d.store } else d

  abbrev pub begun : ℕ → Desk r → Desk r
  begun id d = record d { store = begin_attempt r g.redis_up id d.store }

  abbrev pub ended : ℕ → Desk r → Desk r
  ended id d = record d { store = end_attempt r g.redis_up id d.store }

  abbrev pub dispatch_lease : Option RequestLease → Desk r → Result Failure (Desk r)
  dispatch_lease none d = ok d
  dispatch_lease (some lease) d =
      if not (lease.dispatched || g.dispatch_up)
      then err unavailable
      else elim (before_send r lease d.db) [
        | err e ↦ err unavailable
        | ok (lease', db) ↦ ok (record d { lease = some lease'; db = db })
      ]

  -- `_quiet` swallows a failure of Redis, and no key is changed.
  unfoldable pub try_next_key : Provider → Kind → ℕ → Desk r → Desk r × Provider × Bool
  unfolding rotate_key cooldown_for upstream_status
  try_next_key p e rotations d =
      let (s, p', rotated) =
        rotate_key r g.fingerprint g.session_index (cooldown_for g.texts e) g.now p d.store in
      if not (satisfies is_key_status (upstream_status e))
        || leb (length p.keys - 1) rotations
        || not g.redis_up
      then (d, p, false)
      else (record d { store = s }, p', rotated)

  abbrev pub is_rate_limited : Kind → Bool
  is_rate_limited e = satisfies (λ n. n == 429) (upstream_status e)

  unfoldable pub record_attempt_failure : ℕ → Kind → Desk r → Desk r
  unfolding record_rate_limit record_failure
  record_attempt_failure id e d =
      if is_rate_limited e
      then with_store (record_rate_limit r id) d
      else if is_retryable_error e || is_credential_error e
      then with_store (record_failure r g.threshold g.now id) d
      else d

  module _ (idempotent : Bool) (upstream : ℕ → ℕ → Result Failure Answer) where
    abbrev pub may_resend : Kind → Bool
    may_resend e = idempotent || never_reached_upstream e

    abbrev pub sent_as : Provider → Desk r → Result Failure Answer → Desk r × Result Failure Answer
    sent_as p d outcome = (
      record d {
        sends = record { channel_id = p.channel.id; failure = kind_of outcome } ∷ d.sends;
      },
      outcome,
    )

    -- `send_fn` answers by the channel and the number of sendings before.
    abbrev pub sent : Provider → Desk r → Desk r × Result Failure Answer
    sent p d = sent_as p d (upstream p.channel.id (length d.sends))

    abbrev pub sent_if :
        Provider → Desk r → Result Failure (Desk r) → Desk r × Result Failure Answer
    sent_if p d (err e) = (d, err e)
    sent_if p d (ok d') = sent p d'

    abbrev pub send_once : Provider → Desk r → Desk r × Result Failure Answer
    send_once p d = sent_if p d (dispatch_lease d.lease d)

    abbrev pub can_retry_same : Provider → ℕ → Kind → Bool
    can_retry_same p attempt e =
        is_retryable_error e
        && not (is_rate_limited e)
        && ltb attempt p.channel.max_retries
        && may_resend e

    abbrev pub after_rotation : ℕ → Failure → Desk r × Provider × Bool → Desk r × Provider × Turn
    after_rotation attempt e (d, p, true) = (d, p, rotates)
    after_rotation attempt e (d, p, false) = (
      record_attempt_failure p.channel.id e.kind d,
      p,
      if can_retry_same p attempt e.kind then retries else gives_up e,
    )

    abbrev pub after_send :
        Provider → ℕ → ℕ → Desk r × Result Failure Answer → Desk r × Provider × Turn
    after_send p attempt rotations (d, ok x) = (d, p, got x)
    after_send p attempt rotations (d, err e) =
        if is_http_exception e.kind
        then (d, p, gives_up e)
        else after_rotation attempt e (try_next_key p e.kind rotations d)

    -- One pass of `while True`.
    unfoldable pub turn : Provider → ℕ → ℕ → Desk r → Desk r × Provider × Turn
    unfolding try_next_key record_attempt_failure before_send
    turn p attempt rotations d =
        let (d', p', t) = after_send p attempt rotations (send_once p (begun p.channel.id d)) in
        (ended p.channel.id d', p', t)

    pub data Loop : Type 0 where
      answered : Desk r → Provider → Answer → Loop
      broke : Desk r → Provider → Failure → Loop
      spinning : Loop

    -- What follows a pass: the loop goes on after a rotation or for a retry, or it ends.
    abbrev pub next_pass :
        (Desk r → Provider → Loop) → (Desk r → Provider → Loop) → Desk r × Provider × Turn → Loop
    next_pass rotated retried (d, p, got x) = answered d p x
    next_pass rotated retried (d, p, rotates) = rotated d p
    next_pass rotated retried (d, p, retries) = retried d p
    next_pass rotated retried (d, p, gives_up e) = broke d p e

    unfoldable pub send_loop : ℕ → Provider → ℕ → ℕ → Desk r → Loop
    unfolding turn
    send_loop zero p attempt rotations d = spinning
    send_loop (suc fuel) p attempt rotations d =
        next_pass (λ d' p'. send_loop fuel p' attempt (suc rotations) d')
          (λ d' p'. send_loop fuel p' (suc attempt) rotations d') (turn p attempt rotations d)

    -- Each pass but the last uses up a retry or a rotation.
    abbrev pub enough : Provider → ℕ
    enough p = p.channel.max_retries + length p.keys + 1

    abbrev pub redis_error : Failure
    redis_error = record { kind = Kind.other; message = "ConnectionError" }

    abbrev pub no_ready_key : Provider → Failure
    no_ready_key p = record {
      kind = Kind.no_ready_upstream_key p.channel.id;
      message = "All upstream keys on the channel are cooling down";
    }

    abbrev pub loop_from : Desk r → Store × Provider → Loop
    loop_from d (s, p) = send_loop (enough p) p 0 0 (record d { store = s })

    -- `_select_key` and the loop. Only a channel with several keys asks Redis.
    unfoldable pub try_channel : Option String → Provider → Desk r → Loop
    unfolding send_loop has_ready_key select_key
    try_channel session p d =
        if ltb 1 (length p.keys) && not g.redis_up
        then broke d p redis_error
        else if not (has_ready_key r g.fingerprint g.session_index p d.store)
        then broke d p (no_ready_key p)
        else loop_from d (select_key r g.fingerprint g.session_index session p d.store)
