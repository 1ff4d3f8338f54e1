-- ===== src/Failover/Unreached.antt =====
-- What the attempts at one channel leave of a request that is not idempotent.
use mathlib.Core.Path.{subst}
use five_api.Base.{
  ℕ, zero, suc, ◌≡◌, refl, sym, Bool, true, false, Option, none, some, List, [], ◌∷◌, arith, String,
  inl, inr, Result, ok, err, Bool-cases, if_both, ◌∙◌,
}
use five_api.Redis.{Redis}
use five_api.Failover.Errors.{
  Kind, Failure, other, is_http_exception, never_reached_upstream, upstream_status, satisfies,
  no_ready_upstream_key,
}
use five_api.Failover.Keys.{Provider, is_key_status, select_key}
use five_api.Failover.Keeping.{try_channel_cases}
use five_api.Failover.Billing.{Desk, Sent}
use five_api.Failover.Attempts
use five_api.Failover.Attempts.{
  Gateway, Answer, Turn, got, rotates, retries, gives_up, turn, Loop, answered, broke, spinning,
  send_loop, try_channel, next_pass, try_next_key, record_attempt_failure, after_rotation,
  after_send, sent_as, sent_if, dispatch_lease, begun, loop_from, enough, is_rate_limited,
  can_retry_same, with_store,
}
use five_api.Failover.Passes.{
  Rotated, try_next_key-Rotated, record_attempt_failure-sends, dispatch_lease-sends,
}

-- The sending failed before the channel started the work.
abbrev pub is_unreached : Option Kind → Bool
is_unreached none = false
is_unreached (some e) = never_reached_upstream e

abbrev pub AllUnreached : List Sent → Type 0
AllUnreached [] = Unit {0}
AllUnreached (s ∷ ss) = (is_unreached s.failure ≡ true) × AllUnreached ss

-- Every sending but the last one, which stands first.
abbrev pub OthersUnreached : List Sent → Type 0
OthersUnreached [] = Unit {0}
OthersUnreached (s ∷ ss) = AllUnreached ss

pub weaken : (ss : List Sent) → AllUnreached ss → OthersUnreached ss
weaken [] h = h
weaken (s ∷ ss) h = h.1

module _ (r : Redis) (g : Gateway) (upstream : ℕ → ℕ → Result Failure Answer) where
  -- After a failure, all sendings may be repeated where the failure says so.
  abbrev pub Fails : Kind → List Sent → Type 0
  Fails e ss = OthersUnreached ss × (never_reached_upstream e ≡ true → AllUnreached ss)

  abbrev AfterTurn : Desk r × Provider × Turn → Type 0
  AfterTurn (d, p, got x) = OthersUnreached d.sends
  AfterTurn (d, p, rotates) = AllUnreached d.sends
  AfterTurn (d, p, retries) = AllUnreached d.sends
  AfterTurn (d, p, gives_up e) = Fails e.kind d.sends

  key_status-unreached :
      (e : Kind)
      → satisfies is_key_status (upstream_status e) ≡ true
      → never_reached_upstream e ≡ true
  unfolding never_reached_upstream
  key_status-unreached e h = ground arith

  Fails-same : (e : Kind) (ss ts : List Sent) → ts ≡ ss → Fails e ss → Fails e ts
  Fails-same e ss ts same h = subst (Fails e) (sym same) h

  after_rotation-AfterTurn :
      (p : Provider) (attempt rotations : ℕ) (e : Failure) (d : Desk r)
      (x : Desk r × Provider × Bool)
      → Rotated r g p e.kind rotations d x
      → Fails e.kind d.sends
      → AfterTurn (after_rotation r g false upstream attempt e x)
  after_rotation-AfterTurn p attempt rotations e d (d', p', true) h f =
      subst AllUnreached (sym h.2) (f.1 (key_status-unreached e.kind (h.4 refl)))
  after_rotation-AfterTurn p attempt rotations e d (d', p', false) h f =
      let d2 = record_attempt_failure r g p'.channel.id e.kind d' in
      let same : d2.sends ≡ d.sends =
        record_attempt_failure-sends r g p'.channel.id e.kind d' ∙ h.2 in
      let fails = Fails-same e.kind d.sends d2.sends same f in
      elim (Bool-cases (can_retry_same r g false upstream p' attempt e.kind)) [
        | inl again ↦ rw again (fails.1 (ground arith))
        | inr over ↦ rw over fails
      ]

  -- What a sending leaves, before its failure is looked at.
  abbrev AfterSend : Desk r × Result Failure Answer → Type 0
  AfterSend (d, ok x) = OthersUnreached d.sends
  AfterSend (d, err e) = Fails e.kind d.sends

  after_send-AfterTurn :
      (p : Provider) (attempt rotations : ℕ) (x : Desk r × Result Failure Answer)
      → AfterSend x
      → AfterTurn (after_send r g false upstream p attempt rotations x)
  after_send-AfterTurn p attempt rotations (d, ok x) h = h
  after_send-AfterTurn p attempt rotations (d, err e) h =
      if_both AfterTurn (is_http_exception e.kind) _ _ h (
        after_rotation-AfterTurn p attempt rotations e d _
          (try_next_key-Rotated r g p e.kind rotations d) h)

  sent_as-AfterSend :
      (p : Provider) (d : Desk r) (x : Result Failure Answer)
      → AllUnreached d.sends
      → AfterSend (sent_as r g false upstream p d x)
  sent_as-AfterSend p d (ok x) h = h
  sent_as-AfterSend p d (err e) h = (h, λ unreached. (unreached, h))

  sent_if-AfterSend :
      (p : Provider) (d : Desk r) (x : Result Failure (Desk r))
      → dispatch_lease r g d.lease d ≡ x
      → AllUnreached d.sends
      → AfterSend (sent_if r g false upstream p d x)
  sent_if-AfterSend p d (err e) same h = (weaken d.sends h, λ u. h)
  sent_if-AfterSend p d (ok d') same h =
      sent_as-AfterSend p d' _
        (subst AllUnreached (sym (dispatch_lease-sends r g false upstream d.lease d d' same)) h)

  turn-AfterTurn :
      (p : Provider) (attempt rotations : ℕ) (d : Desk r)
      → AllUnreached d.sends
      → AfterTurn (turn r g false upstream p attempt rotations d)
  unfolding turn
  turn-AfterTurn p attempt rotations d h =
      let start = begun r g p.channel.id d in
      let x = sent_if r g false upstream p start (dispatch_lease r g start.lease start) in
      ended-AfterTurn p.channel.id (after_send r g false upstream p attempt rotations x)
        (after_send-AfterTurn p attempt rotations x (sent_if-AfterSend p start _ refl h))
    where
      ended-AfterTurn :
          (id : ℕ) (x : Desk r × Provider × Turn)
          → AfterTurn x
          → AfterTurn (Attempts.ended r g id x.0, x.1, x.2)
      ended-AfterTurn id (d, p, got x) h = h
      ended-AfterTurn id (d, p, rotates) h = h
      ended-AfterTurn id (d, p, retries) h = h
      ended-AfterTurn id (d, p, gives_up e) h = h

  abbrev pub AfterLoop : Loop r g false upstream → Type 0
  AfterLoop (answered d p x) = OthersUnreached d.sends
  AfterLoop (broke d p e) = Fails e.kind d.sends
  AfterLoop spinning = Unit {0}

  next_pass-AfterLoop :
      (rotated retried : Desk r → Provider → Loop r g false upstream) (x : Desk r × Provider × Turn)
      → AfterTurn x
      → ((d : Desk r) (p : Provider) → AllUnreached d.sends → AfterLoop (rotated d p))
      → ((d : Desk r) (p : Provider) → AllUnreached d.sends → AfterLoop (retried d p))
      → AfterLoop (next_pass r g false upstream rotated retried x)
  next_pass-AfterLoop rotated retried (d, p, got x) h f k = h
  next_pass-AfterLoop rotated retried (d, p, rotates) h f k = f d p h
  next_pass-AfterLoop rotated retried (d, p, retries) h f k = k d p h
  next_pass-AfterLoop rotated retried (d, p, gives_up e) h f k = h

  send_loop-AfterLoop :
      (fuel : ℕ) (p : Provider) (attempt rotations : ℕ) (d : Desk r)
      → AllUnreached d.sends
      → AfterLoop (send_loop r g false upstream fuel p attempt rotations d)
  unfolding send_loop
  send_loop-AfterLoop zero p attempt rotations d h = tt
  send_loop-AfterLoop (suc fuel) p attempt rotations d h =
      next_pass-AfterLoop (λ d' p'. send_loop r g false upstream fuel p' attempt (suc rotations) d')
        (λ d' p'. send_loop r g false upstream fuel p' (suc attempt) rotations d')
        (turn r g false upstream p attempt rotations d) (turn-AfterTurn p attempt rotations d h)
        (λ d' p' h'. send_loop-AfterLoop fuel p' attempt (suc rotations) d' h')
        (λ d' p' h'. send_loop-AfterLoop fuel p' (suc attempt) rotations d' h')

  pub try_channel-AfterLoop :
      (session : Option String) (p : Provider) (d : Desk r)
      → AllUnreached d.sends
      → AfterLoop (try_channel r g false upstream session p d)
  try_channel-AfterLoop session p d h =
      let fails : (e : Kind) → Fails e d.sends = λ e. (weaken d.sends h, λ u. h) in
      let (s, p') = select_key r g.fingerprint g.session_index session p d.store in
      try_channel_cases r g false upstream AfterLoop session p d (fails other)
        (fails (no_ready_upstream_key p.channel.id))
        (send_loop-AfterLoop (enough r g false upstream p') p' 0 0 (record d { store = s }) h)
