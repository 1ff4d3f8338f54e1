-- ===== src/Failover/Relay.antt =====
-- The candidates of a stream, and its end: `stream_with_failover` of backend/app/services/proxy.py.
use five_api.Base.{
  ℕ, zero, suc, ◌+◌, String, Bool, true, false, not, ◌&&◌, Option, none, some, List, [], ◌∷◌, ltb,
  if◌then◌else◌, Result, ok, err, length,
}
use five_api.Redis.{Redis}
use five_api.Routing.Health.{record_success}
use five_api.Failover.Errors.{
  Kind, Failure, is_http_exception, is_retryable_error, should_switch_channel,
}
use five_api.Failover.Outcome.{new_outcome}
use five_api.Failover.Keys.{Provider, has_ready_key, select_key, begin_attempt, end_attempt}
use five_api.Failover.Billing.{Call, Desk}
use five_api.Failover.Attempts.{
  Gateway, try_next_key, record_attempt_failure, dispatch_lease, is_rate_limited, with_store,
}
use five_api.Failover.Streaming.{
  Script, Flow, at_channel, Read, complete, broken, failed, read_chunks,
}

module _ (r : Redis) (g : Gateway) where
  open r use {Store}

  abbrev pub on_desk : (Desk r → Desk r) → Flow r g → Flow r g
  on_desk change f = record f { desk = change f.desk }

  -- A pass of the loop: the stream is through, there is a reason to try again, it failed for good, or
  -- the client is gone.
  pub data Pass : Type 0 where
    through gone : Pass
    rotates retries : Pass
    gives_up : Failure → Pass

  abbrev pub end_active : Option ℕ → Desk r → Desk r
  end_active none d = d
  end_active (some id) d = record d { store = end_attempt r g.redis_up id d.store }

  -- The attempt before is no longer counted, and this one is.
  abbrev pub begin_pass : ℕ → Flow r g → Flow r g
  begin_pass id f =
      let d = end_active f.active f.desk in
      record f {
        active = some id;
        desk = record d { store = begin_attempt r g.redis_up id d.store };
      }

  -- How the attempts at one channel end.
  pub data Attempted : Type 0 where
    streamed left : Flow r g → Provider → Attempted
    fell : Flow r g → Provider → Failure → Attempted
    spinning : Attempted

  -- How the candidates end: the stream is through, the client is gone, or a failure is left.
  pub data Ending : Type 0 where
    over hung_up : Flow r g → Ending
    raised : Failure → Flow r g → Ending

  module _ (hangs_up : ℕ → Bool) (upstream : ℕ → ℕ → Script) (call : Call) where
    abbrev pub stream_sent : Provider → Flow r g → Read r g
    stream_sent p f =
        let script = upstream p.channel.id (length f.desk.sends) in
        read_chunks r g hangs_up call p script.headers script.ending script.chunks
          (new_outcome call.endpoint)
          (on_desk
            (λ d. record d {
              sends = record { channel_id = p.channel.id; failure = none } ∷ d.sends;
            })
            f)

    abbrev pub stream_if : Provider → Flow r g → Result Failure (Desk r) → Read r g
    stream_if p f (err e) = failed e f
    stream_if p f (ok d) = stream_sent p (record f { desk = d })

    abbrev pub retries_stream : Provider → ℕ → Kind → Flow r g → Bool
    retries_stream p attempt e f =
        not f.data_yielded
        && is_retryable_error e
        && not (is_rate_limited r g e)
        && ltb attempt p.channel.max_retries

    abbrev pub after_key :
        ℕ → Failure → Flow r g → Desk r × Provider × Bool → Flow r g × Provider × Pass
    after_key attempt e f (d, p, true) = (record f { desk = d }, p, rotates)
    after_key attempt e f (d, p, false) = (
      record f { desk = record_attempt_failure r g p.channel.id e.kind d },
      p,
      if retries_stream p attempt e.kind f then retries else gives_up e,
    )

    -- A key is changed only before the first line.
    abbrev pub next_key : Provider → Kind → ℕ → Flow r g → Desk r × Provider × Bool
    next_key p e rotations f =
        if f.data_yielded then (f.desk, p, false) else try_next_key r g p e rotations f.desk

    abbrev pub after_read : Provider → ℕ → ℕ → Read r g → Flow r g × Provider × Pass
    after_read p attempt rotations (complete f) = (f, p, through)
    after_read p attempt rotations (broken f) = (f, p, gone)
    after_read p attempt rotations (failed e f) =
        if is_http_exception e.kind
        then (f, p, gives_up e)
        else after_key attempt e f (next_key p e.kind rotations f)

    unfoldable pub stream_turn : Provider → ℕ → ℕ → Flow r g → Flow r g × Provider × Pass
    unfolding read_chunks
    stream_turn p attempt rotations f =
        let begun = begin_pass p.channel.id f in
        after_read p attempt rotations
          (stream_if p begun (dispatch_lease r g begun.desk.lease begun.desk))

    abbrev pub next_turn :
        (Flow r g → Provider → Attempted)
        → (Flow r g → Provider → Attempted)
        → Flow r g × Provider × Pass
        → Attempted
    next_turn rotated retried (f, p, through) = streamed f p
    next_turn rotated retried (f, p, gone) = left f p
    next_turn rotated retried (f, p, rotates) = rotated f p
    next_turn rotated retried (f, p, retries) = retried f p
    next_turn rotated retried (f, p, gives_up e) = fell f p e

    unfoldable pub stream_loop : ℕ → Provider → ℕ → ℕ → Flow r g → Attempted
    unfolding stream_turn
    stream_loop zero p attempt rotations f = spinning
    stream_loop (suc fuel) p attempt rotations f =
        next_turn (λ f' p'. stream_loop fuel p' attempt (suc rotations) f')
          (λ f' p'. stream_loop fuel p' (suc attempt) rotations f')
          (stream_turn p attempt rotations f)

    abbrev pub stream_from : Flow r g → Store × Provider → Attempted
    stream_from f (s, p) =
        stream_loop (p.channel.max_retries + length p.keys + 1) p 0 0
          (on_desk (λ d. record d { store = s }) f)

    abbrev pub cooling : ℕ → Failure
    cooling id = record {
      kind = Kind.no_ready_upstream_key id;
      message = "All upstream keys on the channel are cooling down";
    }

    abbrev pub away : Failure
    away = record { kind = Kind.other; message = "ConnectionError" }

    unfoldable pub stream_channel : Option String → Provider → Flow r g → Attempted
    unfolding stream_loop has_ready_key select_key
    stream_channel session p f =
        if ltb 1 (length p.keys) && not g.redis_up
        then fell f p away
        else if not (has_ready_key r g.fingerprint g.session_index p f.desk.store)
        then fell f p (cooling p.channel.id)
        else stream_from f (select_key r g.fingerprint g.session_index session p f.desk.store)

    abbrev pub succeeded : Provider → Flow r g → Flow r g
    succeeded p f =
        let named = if f.data_yielded then f else at_channel r g call p f in
        on_desk (with_store r g (record_success r p.channel.id)) (record named { completed = true })

    abbrev pub next_stream : Bool → (Flow r g → Ending) → Attempted → Flow r g → Ending
    next_stream more rest (streamed f p) f0 = over (succeeded p f)
    next_stream more rest (left f p) f0 = hung_up f
    next_stream more rest (fell f p e) f0 =
        if not f.data_yielded && should_switch_channel e.kind && more
        then rest (record f { failed_over = true })
        else raised e (at_channel r g call p f)
    next_stream more rest spinning f0 = hung_up f0

    abbrev pub any_left : List Provider → Bool
    any_left [] = false
    any_left (p ∷ ps) = true

    unfoldable pub stream_candidates : Option String → List Provider → Flow r g → Ending
    unfolding stream_channel
    stream_candidates session [] f = over (record f { completed = true })
    stream_candidates session (p ∷ ps) f =
        next_stream (any_left ps) (λ f'. stream_candidates session ps f')
          (stream_channel session p f) f
