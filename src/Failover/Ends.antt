-- ===== src/Failover/Ends.antt =====
-- Each end of `execute_with_failover` closes the books of its request.
use five_api.Base.{
  ℕ, ◌≡◌, refl, Bool, true, false, Option, some, String, List, arith, Result, ok, err, if_both,
}
use five_api.Redis.{Redis}
use five_api.Lease.{RequestLease}
use five_api.Routing.Health.{record_success}
use five_api.Failover.Errors.{Failure, is_http_exception}
use five_api.Failover.Keys.{Provider}
use five_api.Failover.Billing.{Call, Bill, Desk}
use five_api.Failover.Attempts.{
  Gateway, Answer, Turn, try_next_key, after_rotation, after_send, sent_if, dispatch_lease, begun,
  turn, gives_up, with_store,
}
use five_api.Failover.Execute.{execute_with_failover, bill}
use five_api.Failover.Keeping.{try_candidates_keeps}
use five_api.Failover.Books.{
  Stands, IsOver, try_next_key-Stands, record_attempt_failure-Stands, dispatch_lease-Stands,
  bill-Shut, close-IsOver,
}

module _ (r : Redis) (g : Gateway) (idempotent : Bool)
    (upstream : ℕ → ℕ → Result Failure Answer) where
  open r use {Store}

  sent_if-Stands :
      (rid : ℕ) (p : Provider) (d : Desk r) (x : Result Failure (Desk r))
      → dispatch_lease r g d.lease d ≡ x
      → Stands r g rid d
      → Stands r g rid (sent_if r g idempotent upstream p d x).0
  sent_if-Stands rid p d (err e) h k = k
  sent_if-Stands rid p d (ok d') h k = dispatch_lease-Stands r g rid d.lease d d' refl h k

  after_rotation-Stands :
      (rid attempt : ℕ) (e : Failure) (x : Desk r × Provider × Bool)
      → Stands r g rid x.0
      → Stands r g rid (after_rotation r g idempotent upstream attempt e x).0
  after_rotation-Stands rid attempt e (d, p, true) k = k
  after_rotation-Stands rid attempt e (d, p, false) k =
      record_attempt_failure-Stands r g rid p.channel.id e.kind d k

  after_send-Stands :
      (rid : ℕ) (p : Provider) (attempt rotations : ℕ) (x : Desk r × Result Failure Answer)
      → Stands r g rid x.0
      → Stands r g rid (after_send r g idempotent upstream p attempt rotations x).0
  after_send-Stands rid p attempt rotations (d, ok x) k = k
  after_send-Stands rid p attempt rotations (d, err e) k =
      if_both (λ (x : Desk r × Provider × Turn). Stands r g rid x.0) (is_http_exception e.kind)
        (d, p, gives_up e) _ k
        (after_rotation-Stands rid attempt e (try_next_key r g p e.kind rotations d)
          (try_next_key-Stands r g rid p e.kind rotations d k))

  turn-Stands :
      (rid : ℕ) (p : Provider) (attempt rotations : ℕ) (d : Desk r)
      → Stands r g rid d
      → Stands r g rid (turn r g idempotent upstream p attempt rotations d).0
  unfolding turn
  turn-Stands rid p attempt rotations d k =
      let start = begun r g p.channel.id d in
      after_send-Stands rid p attempt rotations
        (sent_if r g idempotent upstream p start (dispatch_lease r g start.lease start))
        (sent_if-Stands rid p start (dispatch_lease r g start.lease start) refl k)

  -- However a call ends, with an answer, a relayed error or an exception, its lease is closed and
  -- no row of its request is still reserved afterwards. The database answers the bill, and at the
  -- start the lease holds a reservation and is open.
  pub execute-IsOver :
      (session : Option String) (call : Call) (ps : List Provider) (lease : RequestLease)
      (d : Desk r)
      → g.db_up ≡ true
      → d.lease ≡ some lease
      → lease.request_id ≡ call.request_id
      → lease.reserved ≡ true
      → lease.closed ≡ false
      → IsOver r g call.request_id
          (execute_with_failover r g idempotent upstream session call ps d).0
  unfolding execute_with_failover
  execute-IsOver session call ps lease d up at same reserves live = close-IsOver r g call _ up (
      try_candidates_keeps r g idempotent upstream (Stands r g call.request_id)
        (λ p attempt rotations d k. turn-Stands call.request_id p attempt rotations d k)
        (λ session p d k. k) call bills (λ id d k. succeeds id d k) session false ps d
        (record {
          lease = lease;
          at = at;
          same_request = same;
          reserves = reserves;
          over = λ c. absurd (ground arith);
        }))
    where
      bills :
          (b : Bill) (d : Desk r)
          → Stands r g call.request_id d
          → Stands r g call.request_id (bill r g call b d).0
      bills b d k = (bill-Shut r g call b d up k).kept

      succeeds :
          (id : ℕ) (d : Desk r)
          → Stands r g call.request_id d
          → Stands r g call.request_id (with_store r g (record_success r id) d)
      succeeds id d k =
          if_both (Stands r g call.request_id) g.redis_up
            (record d { store = record_success r id d.store }) d k k
