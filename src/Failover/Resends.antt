-- ===== src/Failover/Resends.antt =====
-- A request that is not idempotent is sent again only where it did not reach its channel.
use mathlib.Core.Path.{subst}
use five_api.Base.{
  ℕ, ◌≡◌, refl, sym, ap, Bool, true, false, ◌&&◌, Option, none, some, List, [], ◌∷◌, arith, String,
  inl, inr, Result, ok, err, Bool-cases, Option-cases, if_both,
}
use five_api.Redis.{Redis}
use five_api.Failover.Errors.{
  Kind, Failure, is_http_exception, never_reached_upstream, should_switch_channel,
}
use five_api.Failover.Details.{upstream_json_error}
use five_api.Failover.Keys.{Provider}
use five_api.Failover.Unreached.{
  AllUnreached, OthersUnreached, weaken, Fails, AfterLoop, try_channel-AfterLoop,
}
use five_api.Failover.Billing.{Desk, Sent, Call, TokenCounts}
use five_api.Failover.Attempts.{Gateway, Answer, Loop, answered, broke, spinning, try_channel}
use five_api.Failover.Execute.{
  Reply, Served, replied, raised, moves, try_candidate, try_candidates, execute_with_failover,
  on_failure, after_loop, after_answer, after_bill, charge_answer, charge_tokens, tokens_with,
  answer_bill, next_candidate, is_more, failure_bill, close,
}
use five_api.Routing.Health.{record_success}
use five_api.Failover.Bills.{Billed, close_lease-sends, bill_and_log-Billed}

module _ (r : Redis) (g : Gateway) (upstream : ℕ → ℕ → Result Failure Answer) where
  abbrev AfterServed : Served r g → Type 0
  AfterServed (replied d reply) = OthersUnreached d.sends
  AfterServed (raised d e) = OthersUnreached d.sends
  AfterServed (moves d) = AllUnreached d.sends

  after_bill-AfterServed :
      (e : Kind) (x : Desk r × Option Failure)
      → OthersUnreached x.0.sends
      → AfterServed (after_bill r g e x)
  after_bill-AfterServed e (d, some e') h = h
  after_bill-AfterServed e (d, none) h = elim (Option-cases (upstream_json_error g.texts e)) [
    | inl nothing ↦ rw nothing h
    | inr (passed, json) ↦ rw json h
  ]

  on_failure-AfterServed :
      (call : Call) (moved more : Bool) (p : Provider) (e : Failure) (d : Desk r)
      → Fails r g upstream e.kind d.sends
      → AfterServed (on_failure r g false upstream call moved more p e d)
  unfolding on_failure
  on_failure-AfterServed call moved more p e d h =
      let billed =
        (bill_and_log-Billed r g.redact g.detail_of g.save_error g.redis_up g.db_up call
          (failure_bill r g call moved p e) d).0 in
      if_both AfterServed (is_http_exception e.kind) _ _ h.0
        (elim (Bool-cases (should_switch_channel e.kind && never_reached_upstream e.kind && more)) [
          | inl switches ↦ rw switches (h.1 (ground arith))
          | inr stays ↦
              rw stays (after_bill-AfterServed e.kind _ (subst OthersUnreached (sym billed) h.0))
        ])

  after_answer-AfterServed :
      (call : Call) (moved more : Bool) (p : Provider) (x : Answer) (sends : List Sent)
      (y : Desk r × Option Failure)
      → Billed r g.redact g.detail_of g.save_error g.redis_up g.db_up sends y
      → OthersUnreached sends
      → AfterServed (after_answer r g false upstream call moved more p x y)
  unfolding never_reached_upstream
  after_answer-AfterServed call moved more p x sends (d, none) b h =
      let others = subst OthersUnreached (sym b.0) h in
      if_both (λ (d' : Desk r). OthersUnreached d'.sends) g.redis_up
        (record d { store = record_success r p.channel.id d.store }) d others others
  after_answer-AfterServed call moved more p x sends (d, some e) b h =
      let reached : never_reached_upstream e.kind ≡ false = ap never_reached_upstream b.1 in
      on_failure-AfterServed call moved more p e d
        (subst OthersUnreached (sym b.0) h, λ u. absurd (ground (arith, reached)))

  charge_tokens-Billed :
      (call : Call) (moved : Bool) (p : Provider) (x : Answer) (d : Desk r)
      (t : Result String (TokenCounts × String))
      → Billed r g.redact g.detail_of g.save_error g.redis_up g.db_up d.sends
          (charge_tokens r g call moved p x d t)
  charge_tokens-Billed call moved p x d (err e) = (refl, refl)
  charge_tokens-Billed call moved p x d (ok t) =
      bill_and_log-Billed r g.redact g.detail_of g.save_error g.redis_up g.db_up call
        (answer_bill r g call moved p x t) d

  after_loop-AfterServed :
      (call : Call) (moved more : Bool) (l : Loop r g false upstream) (d : Desk r)
      → AllUnreached d.sends
      → AfterLoop r g upstream l
      → AfterServed (after_loop r g false upstream call moved more l d)
  after_loop-AfterServed call moved more (answered d p x) d0 h0 h =
      after_answer-AfterServed call moved more p x d.sends (charge_answer r g call moved p x d)
        (charge_tokens-Billed call moved p x d (tokens_with r g d.lease call x)) h
  after_loop-AfterServed call moved more (broke d p e) d0 h0 h =
      on_failure-AfterServed call moved more p e d h
  after_loop-AfterServed call moved more spinning d0 h0 h = h0

  next_candidate-OthersUnreached :
      (rest : Desk r → Desk r × Result Failure Reply) (x : Served r g)
      → AfterServed x
      → ((d : Desk r) → AllUnreached d.sends → OthersUnreached (rest d).0.sends)
      → OthersUnreached (next_candidate r g false upstream rest x).0.sends
  next_candidate-OthersUnreached rest (replied d reply) h f = h
  next_candidate-OthersUnreached rest (raised d e) h f = h
  next_candidate-OthersUnreached rest (moves d) h f = f d h

  try_candidates-OthersUnreached :
      (session : Option String) (call : Call) (moved : Bool) (ps : List Provider) (d : Desk r)
      → AllUnreached d.sends
      → OthersUnreached (try_candidates r g false upstream session call moved ps d).0.sends
  unfolding try_candidates try_candidate
  try_candidates-OthersUnreached session call moved [] d h = weaken d.sends h
  try_candidates-OthersUnreached session call moved (p ∷ ps) d h =
      next_candidate-OthersUnreached
        (λ d'. try_candidates r g false upstream session call true ps d')
        (try_candidate r g false upstream session call moved (is_more r g false upstream ps) p d)
        (after_loop-AfterServed call moved _ (try_channel r g false upstream session p d) d h
          (try_channel-AfterLoop r g upstream session p d h))
        (λ d' h'. try_candidates-OthersUnreached session call true ps d' h')

  close-sends : (call : Call) (d : Desk r) → (close r g call d).sends ≡ d.sends
  unfolding close
  close-sends call d =
      if_both (λ (d' : Desk r). d'.sends ≡ d.sends) g.redis_up _ _ (close_lease-sends r g d.lease d)
        (close_lease-sends r g d.lease d)

  -- A request that is not idempotent is sent again only after sendings that never reached the
  -- channel's work: when the call ends, every sending but the last one failed, and in a way that
  -- says so. Nothing was sent before the call.
  pub execute-OthersUnreached :
      (session : Option String) (call : Call) (ps : List Provider) (d : Desk r)
      → d.sends ≡ []
      → OthersUnreached (execute_with_failover r g false upstream session call ps d).0.sends
  unfolding execute_with_failover
  execute-OthersUnreached session call ps d h =
      let (d', outcome) = try_candidates r g false upstream session call false ps d in
      subst OthersUnreached (sym (close-sends call d'))
        (try_candidates-OthersUnreached session call false ps d (subst AllUnreached (sym h) tt))
