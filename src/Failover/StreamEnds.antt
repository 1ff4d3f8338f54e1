-- ===== src/Failover/StreamEnds.antt =====
-- Each end of `stream_with_failover` closes the books of its request.
use mathlib.Core.Path.{subst}
use five_api.Base.{
  ℕ, zero, suc, ◌+◌, ◌≡◌, refl, sym, Bool, true, false, not, ◌&&◌, Option, none, some, String, List,
  [], ◌∷◌, arith, length, ltb, Result, ok, err, inl, inr, Bool-cases, if_both, if◌then◌else◌,
}
use five_api.Redis.{Redis, key}
use five_api.Limits.Concurrency
use five_api.Lease.{RequestLease}
use five_api.Routing.Health.{record_success}
use five_api.Failover.Errors.{Kind, Failure, is_http_exception, should_switch_channel}
use five_api.Failover.Keys.{Provider, select_key, has_ready_key}
use five_api.Failover.Billing.{Call, Desk}
use five_api.Failover.Attempts.{Gateway, dispatch_lease, with_store}
use five_api.Failover.Execute.{bill}
use five_api.Failover.Outcome.{new_outcome}
use five_api.Failover.Streaming.{Script, Flow, Read, complete, broken, failed, new_flow, at_channel}
use five_api.Failover.Relay.{
  Pass, through, gone, rotates, retries, gives_up, begin_pass, stream_if, after_key, next_key,
  after_read, stream_turn, Attempted, streamed, left, fell, spinning, next_turn, stream_loop,
  stream_channel, Ending, over, hung_up, raised, next_stream, any_left, stream_candidates,
  end_active,
}
use five_api.Failover.Stream.{
  StreamEnd, handled, caught, failed_flow, client_failure, is_refused, close_stream, released_or,
  before_bill, stream_bill, stream_with_failover,
}
use five_api.Failover.Standing.{On, OnRead, read_chunks-OnRead}
use five_api.Failover.Settling.{Kept, Shut}
use five_api.Failover.Books.{
  IsOver, bill-Shut, close_lease-IsOver, dispatch_lease-Stands, try_next_key-Stands,
  record_attempt_failure-Stands,
}

module _ (r : Redis) (g : Gateway) (rid : ℕ) where
  -- Counting attempts changes Redis alone.
  begin_pass-On :
      (id : ℕ) (active : Option ℕ) (f : Flow r g)
      → On r g rid f
      → On r g rid (begin_pass r g id (record f { active = active }))
  begin_pass-On id none f h = h
  begin_pass-On id (some before) f h = h

  end_active-On :
      (active : Option ℕ) (d : Desk r)
      → Kept rid d.lease d.db
      → let d' = end_active r g active d in Kept rid d'.lease d'.db
  end_active-On none d h = h
  end_active-On (some id) d h = h

  stored-On :
      (change : r.Store → r.Store) (d : Desk r)
      → Kept rid d.lease d.db
      → let d' = with_store r g change d in Kept rid d'.lease d'.db
  stored-On change d h =
      if_both (λ (d' : Desk r). Kept rid d'.lease d'.db) g.redis_up
        (record d { store = change d.store }) d h h

  module _ (hangs_up : ℕ → Bool) where
    module _ (upstream : ℕ → ℕ → Script) (call : Call) where
      after_key-On :
          (attempt : ℕ) (e : Failure) (f : Flow r g) (x : Desk r × Provider × Bool)
          → Kept rid x.0.lease x.0.db
          → On r g rid (after_key r g hangs_up upstream call attempt e f x).0
      after_key-On attempt e f (d, p, true) h = h
      after_key-On attempt e f (d, p, false) h =
          record_attempt_failure-Stands r g rid p.channel.id e.kind d h

      after_read-On :
          (p : Provider) (attempt rotations : ℕ) (x : Read r g)
          → OnRead r g rid x
          → On r g rid (after_read r g hangs_up upstream call p attempt rotations x).0
      after_read-On p attempt rotations (complete f) h = h
      after_read-On p attempt rotations (broken f) h = h
      after_read-On p attempt rotations (failed e f) h =
          if_both (λ (x : Flow r g × Provider × Pass r g). On r g rid x.0)
            (is_http_exception e.kind) (f, p, gives_up e) _ h
            (after_key-On attempt e f (next_key r g hangs_up upstream call p e.kind rotations f) (
              if_both (λ (x : Desk r × Provider × Bool). Kept rid x.0.lease x.0.db) f.data_yielded
                (f.desk, p, false) _ h (try_next_key-Stands r g rid p e.kind rotations f.desk h)))

      stream_if-OnRead :
          (p : Provider) (f : Flow r g) (x : Result Failure (Desk r))
          → dispatch_lease r g f.desk.lease f.desk ≡ x
          → On r g rid f
          → OnRead r g rid (stream_if r g hangs_up upstream call p f x)
      stream_if-OnRead p f (err e) at h = h
      stream_if-OnRead p f (ok d) at h =
          let script = upstream p.channel.id (length d.sends) in
          let d' : Desk r = record d {
            sends = record { channel_id = p.channel.id; failure = none } ∷ d.sends;
          } in
          let sent = dispatch_lease-Stands r g rid f.desk.lease f.desk d refl at h in
          read_chunks-OnRead r g rid hangs_up call p script.headers script.ending script.chunks
            (new_outcome call.endpoint) (record f { desk = d' })
            (record {
              lease = sent.lease;
              at = sent.at;
              same_request = sent.same_request;
              reserves = sent.reserves;
              over = sent.over;
            })

      stream_turn-On :
          (p : Provider) (attempt rotations : ℕ) (f : Flow r g)
          → On r g rid f
          → On r g rid (stream_turn r g hangs_up upstream call p attempt rotations f).0
      unfolding stream_turn
      stream_turn-On p attempt rotations f h =
          let begun = begin_pass r g p.channel.id f in
          let start : On r g rid begun = begin_pass-On p.channel.id f.active f h in
          let x = dispatch_lease r g begun.desk.lease begun.desk in
          after_read-On p attempt rotations (stream_if r g hangs_up upstream call p begun x)
            (stream_if-OnRead p begun x refl start)

      abbrev OnAttempts : Attempted r g → Type 0
      OnAttempts (streamed f p) = On r g rid f
      OnAttempts (left f p) = On r g rid f
      OnAttempts (fell f p e) = On r g rid f
      OnAttempts spinning = Unit {0}

      next_turn-OnAttempts :
          (rotated retried : Flow r g → Provider → Attempted r g)
          (x : Flow r g × Provider × Pass r g)
          → On r g rid x.0
          → ((f : Flow r g) (p : Provider) → On r g rid f → OnAttempts (rotated f p))
          → ((f : Flow r g) (p : Provider) → On r g rid f → OnAttempts (retried f p))
          → OnAttempts (next_turn r g hangs_up upstream call rotated retried x)
      next_turn-OnAttempts rotated retried (f, p, through) h a b = h
      next_turn-OnAttempts rotated retried (f, p, gone) h a b = h
      next_turn-OnAttempts rotated retried (f, p, rotates) h a b = a f p h
      next_turn-OnAttempts rotated retried (f, p, retries) h a b = b f p h
      next_turn-OnAttempts rotated retried (f, p, gives_up e) h a b = h

      stream_loop-OnAttempts :
          (fuel : ℕ) (p : Provider) (attempt rotations : ℕ) (f : Flow r g)
          → On r g rid f
          → OnAttempts (stream_loop r g hangs_up upstream call fuel p attempt rotations f)
      unfolding stream_loop
      stream_loop-OnAttempts zero p attempt rotations f h = tt
      stream_loop-OnAttempts (suc fuel) p attempt rotations f h =
          next_turn-OnAttempts
            (λ f' p'. stream_loop r g hangs_up upstream call fuel p' attempt (suc rotations) f')
            (λ f' p'. stream_loop r g hangs_up upstream call fuel p' (suc attempt) rotations f')
            (stream_turn r g hangs_up upstream call p attempt rotations f)
            (stream_turn-On p attempt rotations f h)
            (λ f' p' h'. stream_loop-OnAttempts fuel p' attempt (suc rotations) f' h')
            (λ f' p' h'. stream_loop-OnAttempts fuel p' (suc attempt) rotations f' h')

      stream_channel-OnAttempts :
          (session : Option String) (p : Provider) (f : Flow r g)
          → On r g rid f
          → OnAttempts (stream_channel r g hangs_up upstream call session p f)
      unfolding stream_channel
      stream_channel-OnAttempts session p f h =
          elim (Bool-cases (ltb 1 (length p.keys) && not g.redis_up)) [
            | inl down ↦ rw down h
            | inr up ↦
                elim (Bool-cases (has_ready_key r g.fingerprint g.session_index p f.desk.store)) [
                  | inl ready ↦
                      rw (up, ready)
                        (let (s, p') =
                            select_key r g.fingerprint g.session_index session p f.desk.store in
                          stream_loop-OnAttempts (p'.channel.max_retries + length p'.keys + 1) p' 0
                            0 (record f { desk = record f.desk { store = s } }) h)
                  | inr stuck ↦ rw (up, stuck) h
                ]
          ]

      abbrev OnEnding : Ending r g → Type 0
      OnEnding (over f) = On r g rid f
      OnEnding (hung_up f) = On r g rid f
      OnEnding (raised e f) = On r g rid f

      next_stream-OnEnding :
          (more : Bool) (rest : Flow r g → Ending r g) (x : Attempted r g) (f0 : Flow r g)
          → OnAttempts x
          → On r g rid f0
          → ((f : Flow r g) → On r g rid f → OnEnding (rest f))
          → OnEnding (next_stream r g hangs_up upstream call more rest x f0)
      next_stream-OnEnding more rest (streamed f p) f0 h h0 k =
          let at = at_channel r g call p f in
          stored-On (record_success r p.channel.id) (if f.data_yielded then f else at).desk
            (if_both (On r g rid) f.data_yielded f at h h)
      next_stream-OnEnding more rest (left f p) f0 h h0 k = h
      next_stream-OnEnding more rest (fell f p e) f0 h h0 k =
          if_both OnEnding (not f.data_yielded && should_switch_channel e.kind && more) _
            (raised e (at_channel r g call p f)) (k (record f { failed_over = true }) h) h
      next_stream-OnEnding more rest spinning f0 h h0 k = h0

      stream_candidates-OnEnding :
          (session : Option String) (ps : List Provider) (f : Flow r g)
          → On r g rid f
          → OnEnding (stream_candidates r g hangs_up upstream call session ps f)
      unfolding stream_candidates
      stream_candidates-OnEnding session [] f h = h
      stream_candidates-OnEnding session (p ∷ ps) f h =
          next_stream-OnEnding (any_left r g hangs_up upstream call ps)
            (λ f'. stream_candidates r g hangs_up upstream call session ps f')
            (stream_channel r g hangs_up upstream call session p f) f
            (stream_channel-OnAttempts session p f h) h
            (λ f' h'. stream_candidates-OnEnding session ps f' h')

      caught-On :
          (format_error_event : Kind → String) (e : Failure) (status : Option ℕ) (f : Flow r g)
          → On r g rid f
          → On r g rid (caught r g format_error_event e status f).flow
      caught-On format_error_event e (some status) f h = h
      caught-On format_error_event e none f h =
          if_both (λ (end : StreamEnd r g). On r g rid end.flow) f.data_yielded _
            (record {
              flow = failed_flow r g e f;
              raises = some (client_failure r g e.kind);
              event = none;
            })
            h h

      handled-On :
          (format_error_event : Kind → String) (x : Ending r g)
          → OnEnding x
          → On r g rid (handled r g format_error_event x).flow
      handled-On format_error_event (over f) h = h
      handled-On format_error_event (hung_up f) h = h
      handled-On format_error_event (raised e f) h =
          caught-On format_error_event e (is_refused r g e.kind) f h

      released_or-IsOver :
          (x : Desk r × Option Failure) (end : StreamEnd r g)
          → g.db_up ≡ true
          → Shut rid x.0.lease x.0.db
          → IsOver r g rid (released_or r g x end).flow.desk
      released_or-IsOver (d, some e) end up h = record {
        lease = h.kept.lease;
        at = h.kept.at;
        closed = h.closed;
        none_open = h.kept.over h.closed;
      }
      released_or-IsOver (d, none) end up h = close_lease-IsOver r g rid d.lease d up refl h.kept

  module _ (hangs_up : ℕ → Bool) (upstream : ℕ → ℕ → Script) (call : Call)
      (same : call.request_id ≡ rid) where
    close_stream-IsOver :
        (end : StreamEnd r g)
        → g.db_up ≡ true
        → On r g rid end.flow
        → IsOver r g rid (close_stream r g call end).flow.desk
    unfolding close_stream
    close_stream-IsOver end up h =
        let d = before_bill r g call end.flow in
        let start : Kept rid d.lease d.db =
          stored-On (Concurrency.release r key call.api_key.id call.concurrency_lease_id)
            (end_active r g end.flow.active end.flow.desk)
            (end_active-On end.flow.active end.flow.desk h) in
        let x = bill r g call (stream_bill r g call end.flow) d in
        let shut =
          bill-Shut r g call (stream_bill r g call end.flow) d up
            (subst (λ i. Kept i d.lease d.db) (sym same) start) in
        released_or-IsOver hangs_up upstream call x end up
          (subst (λ i. Shut i x.0.lease x.0.db) same shut)

    -- However a stream ends, whether it is through, it fails before or after its first line, or the
    -- client hangs up, the lease of its request is closed and no row of the request is still
    -- reserved afterwards. The database answers the bill, and at the start the lease holds a
    -- reservation of this request and is open.
    pub stream-IsOver :
        (format_error_event : Kind → String) (session : Option String) (ps : List Provider)
        (lease : RequestLease) (d : Desk r)
        → g.db_up ≡ true
        → d.lease ≡ some lease
        → lease.request_id ≡ rid
        → lease.reserved ≡ true
        → lease.closed ≡ false
        → IsOver r g rid
            (stream_with_failover r g hangs_up upstream format_error_event session call ps
              d).flow.desk
    unfolding stream_with_failover
    stream-IsOver format_error_event session ps lease d up at request reserves live =
        close_stream-IsOver
          (handled r g format_error_event
            (stream_candidates r g hangs_up upstream call session ps (new_flow r g call d)))
          up
          (handled-On hangs_up upstream call format_error_event _ (
            stream_candidates-OnEnding hangs_up upstream call session ps (new_flow r g call d)
              (record {
                lease = lease;
                at = at;
                same_request = request;
                reserves = reserves;
                over = λ c. absurd (ground arith);
              })))
