-- ===== src/Failover/Delivery.antt =====
-- A client of a stream gets the lines of one sending only.
use mathlib.Core.Path.{subst}
use five_api.Base.{
  ℕ, zero, suc, ◌≡◌, refl, sym, ◌∙◌, Bool, true, false, not, ◌&&◌, Option, none, some, String, List,
  [], ◌∷◌, arith, length, Result, ok, err, inl, inr, Bool-cases, if_both, ltb, ◌+◌, if◌then◌else◌,
}
use five_api.Redis.{Redis, key}
use five_api.Limits.Concurrency
use five_api.Failover.Errors.{Kind, Failure, is_http_exception, should_switch_channel}
use five_api.Failover.Keys.{Provider, select_key, has_ready_key}
use five_api.Failover.Billing.{Call, Desk, Sent}
use five_api.Failover.Attempts.{Gateway, record_attempt_failure, dispatch_lease, with_store}
use five_api.Failover.Outcome.{new_outcome}
use five_api.Routing.Health.{record_success}
use five_api.Failover.Execute.{bill, close_lease}
use five_api.Failover.Bills.{bill_and_log-Billed, close_lease-sends}
use five_api.Failover.Reading.{AllFrom, FromLast, ReadsLast, read_chunks-ReadsLast}
use five_api.Failover.Passes.{try_next_key-Rotated, record_attempt_failure-sends}
use five_api.Failover.Streaming.{Script, Flow, Read, complete, broken, failed, new_flow, at_channel}
use five_api.Failover.Relay.{
  Pass, through, gone, rotates, retries, gives_up, begin_pass, stream_if, after_key, next_key,
  after_read, stream_turn, Attempted, streamed, left, fell, spinning, next_turn, stream_loop,
  stream_channel, Ending, over, hung_up, raised, next_stream, any_left, stream_candidates,
  retries_stream, on_desk, end_active,
}
use five_api.Failover.Stream.{
  StreamEnd, handled, caught, failed_flow, client_failure, is_refused, close_stream, released_or,
  before_bill, stream_bill, stream_with_failover,
}

module _ (r : Redis) (g : Gateway) where
  module _ (hangs_up : ℕ → Bool) where
    -- Nothing has been delivered, so that the request may be sent again.
    abbrev Fresh : Flow r g → Type 0
    Fresh f = (f.data_yielded ≡ false) × (f.delivered ≡ [])

    Fresh-FromLast : (f : Flow r g) → Fresh f → FromLast r g f
    Fresh-FromLast f h = (subst (AllFrom (length f.desk.sends)) (sym h.1) tt, λ n. h.1)

    abbrev AfterPass : Flow r g × Provider × Pass r g → Type 0
    AfterPass (f, p, through) = FromLast r g f
    AfterPass (f, p, gone) = FromLast r g f
    AfterPass (f, p, rotates) = Fresh f
    AfterPass (f, p, retries) = Fresh f
    AfterPass (f, p, gives_up e) = FromLast r g f

    -- A desk with the same sendings in place of the old one.
    same_sends :
        (f : Flow r g) (d : Desk r)
        → d.sends ≡ f.desk.sends
        → FromLast r g f
        → FromLast r g (record f { desk = d })
    same_sends f d same h =
        (subst (λ (ss : List Sent). AllFrom (length ss) f.delivered) (sym same) h.0, h.1)

    -- Redis is no matter.
    with_store-sends :
        (change : r.Store → r.Store) (d : Desk r) → (with_store r g change d).sends ≡ d.sends
    with_store-sends change d =
        if_both (λ (d' : Desk r). d'.sends ≡ d.sends) g.redis_up
          (record d { store = change d.store }) d refl refl

    stored :
        (change : r.Store → r.Store) (f : Flow r g)
        → FromLast r g f
        → FromLast r g (on_desk r g (with_store r g change) f)
    stored change f h =
        same_sends f (with_store r g change f.desk) (with_store-sends change f.desk) h

    module _ (upstream : ℕ → ℕ → Script) (call : Call) where
      -- A key is changed only while nothing has been delivered.
      abbrev Keyed : Flow r g → Desk r × Provider × Bool → Type 0
      Keyed f (d, p, b) = (d.sends ≡ f.desk.sends) × (b ≡ true → f.data_yielded ≡ false)

      next_key-Keyed :
          (p : Provider) (e : Kind) (rotations : ℕ) (f : Flow r g)
          → Keyed f (next_key r g hangs_up upstream call p e rotations f)
      next_key-Keyed p e rotations f =
          let rotated = try_next_key-Rotated r g p e rotations f.desk in
          elim (Bool-cases f.data_yielded) [
            | inl begun ↦ rw begun (refl, λ n. absurd (ground arith))
            | inr fresh ↦ rw fresh (rotated.2, λ n. refl)
          ]

      after_key-AfterPass :
          (attempt : ℕ) (e : Failure) (f : Flow r g) (x : Desk r × Provider × Bool)
          → Keyed f x
          → FromLast r g f
          → AfterPass (after_key r g hangs_up upstream call attempt e f x)
      after_key-AfterPass attempt e f (d, p, true) k h = (k.1 refl, h.1 (k.1 refl))
      after_key-AfterPass attempt e f (d, p, false) k h =
          let d' = record_attempt_failure r g p.channel.id e.kind d in
          let same : d'.sends ≡ f.desk.sends =
            record_attempt_failure-sends r g p.channel.id e.kind d ∙ k.0 in
          let lasts = same_sends f d' same h in
          elim (Bool-cases (retries_stream r g hangs_up upstream call p attempt e.kind f)) [
            | inl again ↦
                rw again (let fresh : f.data_yielded ≡ false = ground arith in (fresh, h.1 fresh))
            | inr stops ↦ rw stops lasts
          ]

      after_read-AfterPass :
          (p : Provider) (attempt rotations : ℕ) (x : Read r g)
          → ReadsLast r g x
          → AfterPass (after_read r g hangs_up upstream call p attempt rotations x)
      after_read-AfterPass p attempt rotations (complete f) h = h
      after_read-AfterPass p attempt rotations (broken f) h = h
      after_read-AfterPass p attempt rotations (failed e f) h =
          if_both AfterPass (is_http_exception e.kind) (f, p, gives_up e) _ h
            (after_key-AfterPass attempt e f
              (next_key r g hangs_up upstream call p e.kind rotations f)
              (next_key-Keyed p e.kind rotations f) h)

      stream_if-ReadsLast :
          (p : Provider) (f : Flow r g) (x : Result Failure (Desk r))
          → Fresh f
          → ReadsLast r g (stream_if r g hangs_up upstream call p f x)
      stream_if-ReadsLast p f (err e) h = Fresh-FromLast f h
      stream_if-ReadsLast p f (ok d) h =
          let script = upstream p.channel.id (length d.sends) in
          let d' : Desk r = record d {
            sends = record { channel_id = p.channel.id; failure = none } ∷ d.sends;
          } in
          read_chunks-ReadsLast r g hangs_up call p script.headers script.ending script.chunks
            (new_outcome call.endpoint) (record f { desk = d' })
            (Fresh-FromLast (record f { desk = d' }) h)

      stream_turn-AfterPass :
          (p : Provider) (attempt rotations : ℕ) (f : Flow r g)
          → Fresh f
          → AfterPass (stream_turn r g hangs_up upstream call p attempt rotations f)
      unfolding stream_turn
      stream_turn-AfterPass p attempt rotations f h =
          let begun = begin_pass r g p.channel.id f in
          let x = dispatch_lease r g begun.desk.lease begun.desk in
          after_read-AfterPass p attempt rotations (stream_if r g hangs_up upstream call p begun x)
            (stream_if-ReadsLast p begun x h)

      abbrev AfterAttempts : Attempted r g → Type 0
      AfterAttempts (streamed f p) = FromLast r g f
      AfterAttempts (left f p) = FromLast r g f
      AfterAttempts (fell f p e) = FromLast r g f
      AfterAttempts spinning = Unit {0}

      next_turn-AfterAttempts :
          (rotated retried : Flow r g → Provider → Attempted r g)
          (x : Flow r g × Provider × Pass r g)
          → AfterPass x
          → ((f : Flow r g) (p : Provider) → Fresh f → AfterAttempts (rotated f p))
          → ((f : Flow r g) (p : Provider) → Fresh f → AfterAttempts (retried f p))
          → AfterAttempts (next_turn r g hangs_up upstream call rotated retried x)
      next_turn-AfterAttempts rotated retried (f, p, through) h a b = h
      next_turn-AfterAttempts rotated retried (f, p, gone) h a b = h
      next_turn-AfterAttempts rotated retried (f, p, rotates) h a b = a f p h
      next_turn-AfterAttempts rotated retried (f, p, retries) h a b = b f p h
      next_turn-AfterAttempts rotated retried (f, p, gives_up e) h a b = h

      stream_loop-AfterAttempts :
          (fuel : ℕ) (p : Provider) (attempt rotations : ℕ) (f : Flow r g)
          → Fresh f
          → AfterAttempts (stream_loop r g hangs_up upstream call fuel p attempt rotations f)
      unfolding stream_loop
      stream_loop-AfterAttempts zero p attempt rotations f h = tt
      stream_loop-AfterAttempts (suc fuel) p attempt rotations f h =
          next_turn-AfterAttempts
            (λ f' p'. stream_loop r g hangs_up upstream call fuel p' attempt (suc rotations) f')
            (λ f' p'. stream_loop r g hangs_up upstream call fuel p' (suc attempt) rotations f')
            (stream_turn r g hangs_up upstream call p attempt rotations f)
            (stream_turn-AfterPass p attempt rotations f h)
            (λ f' p' h'. stream_loop-AfterAttempts fuel p' attempt (suc rotations) f' h')
            (λ f' p' h'. stream_loop-AfterAttempts fuel p' (suc attempt) rotations f' h')

      stream_channel-AfterAttempts :
          (session : Option String) (p : Provider) (f : Flow r g)
          → Fresh f
          → AfterAttempts (stream_channel r g hangs_up upstream call session p f)
      unfolding stream_channel
      stream_channel-AfterAttempts session p f h =
          let last = Fresh-FromLast f h in
          elim (Bool-cases (ltb 1 (length p.keys) && not g.redis_up)) [
            | inl down ↦ rw down last
            | inr up ↦
                elim (Bool-cases (has_ready_key r g.fingerprint g.session_index p f.desk.store)) [
                  | inl ready ↦
                      rw (up, ready)
                        (let (s, p') =
                            select_key r g.fingerprint g.session_index session p f.desk.store in
                          stream_loop-AfterAttempts (p'.channel.max_retries + length p'.keys + 1) p'
                            0 0 (record f { desk = record f.desk { store = s } }) h)
                  | inr stuck ↦ rw (up, stuck) last
                ]
          ]

      abbrev AfterEnding : Ending r g → Type 0
      AfterEnding (over f) = FromLast r g f
      AfterEnding (hung_up f) = FromLast r g f
      AfterEnding (raised e f) = FromLast r g f

      next_stream-AfterEnding :
          (more : Bool) (rest : Flow r g → Ending r g) (x : Attempted r g) (f0 : Flow r g)
          → AfterAttempts x
          → Fresh f0
          → ((f : Flow r g) → Fresh f → AfterEnding (rest f))
          → AfterEnding (next_stream r g hangs_up upstream call more rest x f0)
      next_stream-AfterEnding more rest (streamed f p) f0 h h0 k =
          let at = at_channel r g call p f in
          let named : FromLast r g
              (record (if f.data_yielded then f else at) { completed = true }) =
            if_both (FromLast r g) f.data_yielded f at h h in
          stored (record_success r p.channel.id)
            (record (if f.data_yielded then f else at) { completed = true }) named
      next_stream-AfterEnding more rest (left f p) f0 h h0 k = h
      next_stream-AfterEnding more rest (fell f p e) f0 h h0 k =
          elim (Bool-cases (not f.data_yielded && should_switch_channel e.kind && more)) [
            | inl switches ↦ rw switches (
                let fresh : f.data_yielded ≡ false = ground arith in
                k (record f { failed_over = true }) (fresh, h.1 fresh))
            | inr stays ↦ rw stays h
          ]
      next_stream-AfterEnding more rest spinning f0 h h0 k = Fresh-FromLast f0 h0

      stream_candidates-AfterEnding :
          (session : Option String) (ps : List Provider) (f : Flow r g)
          → Fresh f
          → AfterEnding (stream_candidates r g hangs_up upstream call session ps f)
      unfolding stream_candidates
      stream_candidates-AfterEnding session [] f h = Fresh-FromLast f h
      stream_candidates-AfterEnding session (p ∷ ps) f h =
          next_stream-AfterEnding (any_left r g hangs_up upstream call ps)
            (λ f'. stream_candidates r g hangs_up upstream call session ps f')
            (stream_channel r g hangs_up upstream call session p f) f
            (stream_channel-AfterAttempts session p f h) h
            (λ f' h'. stream_candidates-AfterEnding session ps f' h')

      caught_lines :
          (format_error_event : Kind → String) (e : Failure) (status : Option ℕ) (f : Flow r g)
          → FromLast r g f
          → FromLast r g (caught r g format_error_event e status f).flow
      caught_lines format_error_event e (some status) f h = h
      caught_lines format_error_event e none f h =
          if_both (λ (end : StreamEnd r g). FromLast r g end.flow) f.data_yielded _
            (record {
              flow = failed_flow r g e f;
              raises = some (client_failure r g e.kind);
              event = none;
            })
            h h

      handled_lines :
          (format_error_event : Kind → String) (x : Ending r g)
          → AfterEnding x
          → FromLast r g (handled r g format_error_event x).flow
      handled_lines format_error_event (over f) h = h
      handled_lines format_error_event (hung_up f) h = h
      handled_lines format_error_event (raised e f) h =
          caught_lines format_error_event e (is_refused r g e.kind) f h

      end_active-sends :
          (active : Option ℕ) (d : Desk r) → (end_active r g active d).sends ≡ d.sends
      end_active-sends none d = refl
      end_active-sends (some id) d = refl

      released_or_lines :
          (x : Desk r × Option Failure) (end : StreamEnd r g)
          → x.0.sends ≡ end.flow.desk.sends
          → FromLast r g end.flow
          → FromLast r g (released_or r g x end).flow
      released_or_lines (d, some e) end same h = same_sends end.flow d same h
      released_or_lines (d, none) end same h =
          same_sends end.flow (close_lease r g d.lease d) (close_lease-sends r g d.lease d ∙ same) h

      -- Billing adds no sending.
      close_stream_lines :
          (end : StreamEnd r g)
          → FromLast r g end.flow
          → FromLast r g (close_stream r g call end).flow
      unfolding close_stream
      close_stream_lines end h =
          let d = before_bill r g call end.flow in
          let same : d.sends ≡ end.flow.desk.sends =
            with_store-sends (Concurrency.release r key call.api_key.id call.concurrency_lease_id)
              (end_active r g end.flow.active end.flow.desk)
            ∙ end_active-sends end.flow.active end.flow.desk in
          released_or_lines (bill r g call (stream_bill r g call end.flow) d) end
            ((bill_and_log-Billed r g.redact g.detail_of g.save_error g.redis_up g.db_up call
                (stream_bill r g call end.flow) d).0
              ∙ same)
            h

      -- All lines that a stream's client gets come from the last sending of the request: after the
      -- first line the request is sent to no other key or channel.
      pub stream-FromLast :
          (format_error_event : Kind → String) (session : Option String) (ps : List Provider)
          (d : Desk r)
          → let f =
              (stream_with_failover r g hangs_up upstream format_error_event session call ps
                d).flow in
            AllFrom (length f.desk.sends) f.delivered
      unfolding stream_with_failover
      stream-FromLast format_error_event session ps d =
          (close_stream_lines
            (handled r g format_error_event
              (stream_candidates r g hangs_up upstream call session ps (new_flow r g call d)))
            (handled_lines format_error_event _
              (stream_candidates-AfterEnding session ps (new_flow r g call d) (refl, refl)))).0
