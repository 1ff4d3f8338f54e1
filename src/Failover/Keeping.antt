-- ===== src/Failover/Keeping.antt =====
-- What every step of a request keeps, the whole request keeps.
use five_api.Base.{
  ℕ, zero, suc, Bool, true, ◌&&◌, not, ltb, Option, none, some, List, [], ◌∷◌, length, String, inl,
  inr, Result, ok, err, Bool-cases, Option-cases, if_both,
}
use five_api.Redis.{Redis}
use five_api.Failover.Errors.{Kind, Failure, is_http_exception, should_switch_channel}
use five_api.Failover.Details.{upstream_json_error}
use five_api.Failover.Keys.{Provider, select_key, has_ready_key}
use five_api.Failover.Billing.{Desk, Call, Bill, TokenCounts}
use five_api.Failover.Attempts.{
  Gateway, Answer, Turn, got, rotates, retries, gives_up, turn, Loop, answered, broke, spinning,
  send_loop, try_channel, next_pass, loop_from, redis_error, no_ready_key, with_store, may_resend,
}
use five_api.Routing.Health.{record_success}
use five_api.Failover.Execute.{
  Reply, Served, replied, raised, moves, try_candidate, try_candidates, on_failure, after_loop,
  after_answer, after_bill, charge_answer, charge_tokens, next_candidate, is_more, tokens_with,
  answer_bill, bill, failure_bill,
}

module _ (r : Redis) (g : Gateway) (idempotent : Bool)
    (upstream : ℕ → ℕ → Result Failure Answer) where
  open r use {Store}

  -- `_select_key` stops, or the loop runs.
  pub try_channel_cases :
      (P : Loop r g idempotent upstream → Type 0) (session : Option String) (p : Provider)
      (d : Desk r)
      → P (broke d p (redis_error r g idempotent upstream))
      → P (broke d p (no_ready_key r g idempotent upstream p))
      → P (
          loop_from r g idempotent upstream d
            (select_key r g.fingerprint g.session_index session p d.store))
      → P (try_channel r g idempotent upstream session p d)
  unfolding try_channel
  try_channel_cases P session p d away cooling runs =
      elim (Bool-cases (ltb 1 (length p.keys) && not g.redis_up)) [
        | inl down ↦ rw down away
        | inr up ↦ elim (Bool-cases (has_ready_key r g.fingerprint g.session_index p d.store)) [
          | inl ready ↦ rw (up, ready) runs
          | inr stuck ↦ rw (up, stuck) cooling
        ]
      ]

  -- `I` is kept by a turn, by selecting a key, by billing and by the health record.
  module _ (I : Desk r → Type 0)
      (turns : (p : Provider) (attempt rotations : ℕ) (d : Desk r)
        → I d
        → I (turn r g idempotent upstream p attempt rotations d).0)
      (selects : (session : Option String) (p : Provider) (d : Desk r)
        → I d
        → I (record d { store = (select_key r g.fingerprint g.session_index session p d.store).0 }))
      (call : Call) (bills : (b : Bill) (d : Desk r) → I d → I (bill r g call b d).0)
      (succeeds : (id : ℕ) (d : Desk r) → I d → I (with_store r g (record_success r id) d)) where
    abbrev pub LoopKeeps : Loop r g idempotent upstream → Type 0
    LoopKeeps (answered d p x) = I d
    LoopKeeps (broke d p e) = I d
    LoopKeeps spinning = Unit {0}

    next_pass-LoopKeeps :
        (rotated retried : Desk r → Provider → Loop r g idempotent upstream)
        (x : Desk r × Provider × Turn)
        → I x.0
        → ((d : Desk r) (p : Provider) → I d → LoopKeeps (rotated d p))
        → ((d : Desk r) (p : Provider) → I d → LoopKeeps (retried d p))
        → LoopKeeps (next_pass r g idempotent upstream rotated retried x)
    next_pass-LoopKeeps rotated retried (d, p, got x) h f k = h
    next_pass-LoopKeeps rotated retried (d, p, rotates) h f k = f d p h
    next_pass-LoopKeeps rotated retried (d, p, retries) h f k = k d p h
    next_pass-LoopKeeps rotated retried (d, p, gives_up e) h f k = h

    send_loop-LoopKeeps :
        (fuel : ℕ) (p : Provider) (attempt rotations : ℕ) (d : Desk r)
        → I d
        → LoopKeeps (send_loop r g idempotent upstream fuel p attempt rotations d)
    unfolding send_loop
    send_loop-LoopKeeps zero p attempt rotations d h = tt
    send_loop-LoopKeeps (suc fuel) p attempt rotations d h =
        next_pass-LoopKeeps
          (λ d' p'. send_loop r g idempotent upstream fuel p' attempt (suc rotations) d')
          (λ d' p'. send_loop r g idempotent upstream fuel p' (suc attempt) rotations d')
          (turn r g idempotent upstream p attempt rotations d) (turns p attempt rotations d h)
          (λ d' p' h'. send_loop-LoopKeeps fuel p' attempt (suc rotations) d' h')
          (λ d' p' h'. send_loop-LoopKeeps fuel p' (suc attempt) rotations d' h')

    pub try_channel-LoopKeeps :
        (session : Option String) (p : Provider) (d : Desk r)
        → I d
        → LoopKeeps (try_channel r g idempotent upstream session p d)
    try_channel-LoopKeeps session p d h = try_channel_cases LoopKeeps session p d h h (
        send_loop-LoopKeeps _ _ 0 0
          (record d { store = (select_key r g.fingerprint g.session_index session p d.store).0 })
          (selects session p d h))

    abbrev pub ServedKeeps : Served r g → Type 0
    ServedKeeps (replied d reply) = I d
    ServedKeeps (raised d e) = I d
    ServedKeeps (moves d) = I d

    after_bill-ServedKeeps :
        (e : Kind) (x : Desk r × Option Failure) → I x.0 → ServedKeeps (after_bill r g e x)
    after_bill-ServedKeeps e (d, some e') h = h
    after_bill-ServedKeeps e (d, none) h = elim (Option-cases (upstream_json_error g.texts e)) [
      | inl nothing ↦ rw nothing h
      | inr (passed, json) ↦ rw json h
    ]

    on_failure-ServedKeeps :
        (moved more : Bool) (p : Provider) (e : Failure) (d : Desk r)
        → I d
        → ServedKeeps (on_failure r g idempotent upstream call moved more p e d)
    unfolding on_failure
    on_failure-ServedKeeps moved more p e d h =
        if_both ServedKeeps (is_http_exception e.kind) (raised d e) _ h (
          if_both ServedKeeps
            (should_switch_channel e.kind && may_resend r g idempotent upstream e.kind && more)
            (moves d) _ h
            (after_bill-ServedKeeps e.kind (bill r g call (failure_bill r g call moved p e) d)
              (bills (failure_bill r g call moved p e) d h)))

    after_answer-ServedKeeps :
        (moved more : Bool) (p : Provider) (x : Answer) (y : Desk r × Option Failure)
        → I y.0
        → ServedKeeps (after_answer r g idempotent upstream call moved more p x y)
    after_answer-ServedKeeps moved more p x (d, none) h = succeeds p.channel.id d h
    after_answer-ServedKeeps moved more p x (d, some e) h =
        on_failure-ServedKeeps moved more p e d h

    charge_tokens_keeps :
        (moved : Bool) (p : Provider) (x : Answer) (d : Desk r)
        (t : Result String (TokenCounts × String))
        → I d
        → I (charge_tokens r g call moved p x d t).0
    charge_tokens_keeps moved p x d (err e) h = h
    charge_tokens_keeps moved p x d (ok t) h = bills (answer_bill r g call moved p x t) d h

    after_loop-ServedKeeps :
        (moved more : Bool) (l : Loop r g idempotent upstream) (d : Desk r)
        → I d
        → LoopKeeps l
        → ServedKeeps (after_loop r g idempotent upstream call moved more l d)
    after_loop-ServedKeeps moved more (answered d p x) d0 h0 h =
        after_answer-ServedKeeps moved more p x (charge_answer r g call moved p x d)
          (charge_tokens_keeps moved p x d (tokens_with r g d.lease call x) h)
    after_loop-ServedKeeps moved more (broke d p e) d0 h0 h =
        on_failure-ServedKeeps moved more p e d h
    after_loop-ServedKeeps moved more spinning d0 h0 h = h0

    next_candidate_keeps :
        (rest : Desk r → Desk r × Result Failure Reply) (x : Served r g)
        → ServedKeeps x
        → ((d : Desk r) → I d → I (rest d).0)
        → I (next_candidate r g idempotent upstream rest x).0
    next_candidate_keeps rest (replied d reply) h f = h
    next_candidate_keeps rest (raised d e) h f = h
    next_candidate_keeps rest (moves d) h f = f d h

    pub try_candidates_keeps :
        (session : Option String) (moved : Bool) (ps : List Provider) (d : Desk r)
        → I d
        → I (try_candidates r g idempotent upstream session call moved ps d).0
    unfolding try_candidates try_candidate
    try_candidates_keeps session moved [] d h = h
    try_candidates_keeps session moved (p ∷ ps) d h =
        next_candidate_keeps (λ d'. try_candidates r g idempotent upstream session call true ps d')
          (try_candidate r g idempotent upstream session call moved
            (is_more r g idempotent upstream ps) p d)
          (after_loop-ServedKeeps moved _ (try_channel r g idempotent upstream session p d) d h
            (try_channel-LoopKeeps session p d h))
          (λ d' h'. try_candidates_keeps session true ps d' h')
