-- ===== src/Failover/Books.antt =====
-- What keeps the lease of a request standing, and what closes it.
use mathlib.Core.Path.{subst}
use five_api.Base.{
  ℕ, ◌≡◌, refl, sym, ap, ◌∙◌, Bool, true, false, ◌||◌, Option, none, some, arith, ok, inl, inr,
  Bool-cases, Result-cases, if_both, if◌then◌else◌,
}
use five_api.Redis.{Redis, key}
use five_api.Settlements.Store.{Db}
use five_api.Settlements.Reserve.{mark_dispatched, abandon}
use five_api.Settlements.Reserve
use five_api.Settlements.Effects.{mark_dispatched-Within}
use five_api.Settlements.Closing.{NoneOpen, Within-NoneOpen, abandon-NoneOpen, release-NoneOpen}
use five_api.Lease.{RequestLease, release, before_send, World, give_up, clear}
use five_api.Limits.Concurrency
use five_api.Routing.Health.{record_failure, record_rate_limit}
use five_api.Failover.Errors.{Kind, is_retryable_error, is_credential_error}
use five_api.Failover.Keys.{Provider}
use five_api.Failover.Billing.{Call, Bill, Desk, bill_and_log}
use five_api.Failover.Attempts.{
  Gateway, try_next_key, record_attempt_failure, dispatch_lease, with_store, is_rate_limited,
}
use five_api.Failover.Execute.{bill, close, close_lease}
use five_api.Failover.Settling.{Kept, Shut, bill_and_log-Shut}

module _ (r : Redis) (g : Gateway) where
  open r use {Store}

  abbrev pub Stands : ℕ → Desk r → Type 0
  Stands rid d = Kept rid d.lease d.db

  pub try_next_key-Stands :
      (rid : ℕ) (p : Provider) (e : Kind) (rotations : ℕ) (d : Desk r)
      → Stands rid d
      → Stands rid (try_next_key r g p e rotations d).0
  unfolding try_next_key
  try_next_key-Stands rid p e rotations d k =
      if_both (λ (x : Desk r × Provider × Bool). Stands rid x.0) _ (d, p, false) _ k k

  pub record_attempt_failure-Stands :
      (rid id : ℕ) (e : Kind) (d : Desk r)
      → Stands rid d
      → Stands rid (record_attempt_failure r g id e d)
  unfolding record_attempt_failure
  record_attempt_failure-Stands rid id e d k =
      let stored : (f : Store → Store) → Stands rid (with_store r g f d) =
        λ f. if_both (Stands rid) g.redis_up (record d { store = f d.store }) d k k in
      if_both (Stands rid) (is_rate_limited r g e) _ _ (stored (record_rate_limit r id)) (
        if_both (Stands rid) (is_retryable_error e || is_credential_error e) _ d
          (stored (record_failure r g.threshold g.now id)) k)

  before_send-Kept :
      (rid : ℕ) (lease lease' : RequestLease) (db db' : Db)
      → before_send r lease db ≡ ok (lease', db')
      → Kept rid (some lease) db
      → Kept rid (some lease') db'
  unfolding before_send
  before_send-Kept rid lease lease' db db' h k = elim (Bool-cases lease.dispatched) [
    | inl again ↦
        let same : db' ≡ db = ground arith in
        record {
          lease = lease';
          at = refl;
          same_request = ground (arith, k.same_request);
          reserves = ground (arith, k.reserves);
          over = λ c. subst (NoneOpen rid) (sym same) (k.over (ground arith));
        }
    | inr first ↦ elim (Result-cases (mark_dispatched lease.request_id db)) [
      | inl (e, raised) ↦ absurd (ground arith)
      | inr (marked, done) ↦
          let same : marked ≡ db' = ground arith in
          record {
            lease = lease';
            at = refl;
            same_request = ground (arith, k.same_request);
            reserves = ground (arith, k.reserves);
            over = λ c. subst (NoneOpen rid) same (
                Within-NoneOpen rid db marked
                  (mark_dispatched-Within lease.request_id db marked done) (k.over (ground arith)));
          }
    ]
  ]

  pub dispatch_lease-Stands :
      (rid : ℕ) (lease : Option RequestLease) (d d' : Desk r)
      → lease ≡ d.lease
      → dispatch_lease r g lease d ≡ ok d'
      → Stands rid d
      → Stands rid d'
  dispatch_lease-Stands rid none d d' at h k = absurd (ground (arith, k.at))
  dispatch_lease-Stands rid (some lease) d d' at h k =
      elim (Result-cases (before_send r lease d.db)) [
        | inl (e, raised) ↦ absurd (ground arith)
        | inr ((lease', db), done) ↦
            let same : record d { lease = some lease'; db = db } ≡ d' = ground arith in
            subst (Stands rid) same (
              before_send-Kept rid lease lease' d.db db done
                (subst (λ l. Kept rid l d.db) (sym at) k))
      ]

  -- The lease is closed, and no row of the request is still reserved.
  pub record IsOver (rid : ℕ) (d : Desk r) : Type 0 where
    pub lease : RequestLease
    pub at : d.lease ≡ some lease
    pub closed : lease.closed ≡ true
    pub none_open : NoneOpen rid d.db

  give_up-NoneOpen :
      (lease : RequestLease) (db : Db)
      → lease.reserved ≡ true
      → NoneOpen lease.request_id (give_up r lease db)
  give_up-NoneOpen lease db h =
      let ended =
        if_both (NoneOpen lease.request_id) lease.dispatched (abandon lease.request_id db)
          (Reserve.release lease.request_id db) (abandon-NoneOpen lease.request_id db)
          (release-NoneOpen lease.request_id db) in
      let same : (if lease.dispatched
            then abandon lease.request_id db
            else Reserve.release lease.request_id db)
          ≡ give_up r lease db =
        ground arith in
      subst (NoneOpen lease.request_id) same ended

  abbrev Released : ℕ → RequestLease × World r → Type 0
  Released rid (lease, w) = (lease.closed ≡ true) × NoneOpen rid w.db

  release-Released :
      (redis_up : Bool) (rid : ℕ) (lease : RequestLease) (w : World r)
      → lease.request_id ≡ rid
      → lease.reserved ≡ true
      → (lease.closed ≡ true → NoneOpen rid w.db)
      → Released rid (release r redis_up true lease w)
  unfolding release
  release-Released redis_up rid lease w same reserves over = elim (Bool-cases lease.closed) [
    | inl past ↦
        let kept : (lease, w) ≡ release r redis_up true lease w = ground arith in
        subst (Released rid) kept (past, over past)
    | inr live ↦
        let now : RequestLease = record lease { closed = true } in
        let w' : World r = record {
          db = give_up r lease w.db;
          store =
              clear r redis_up lease
                (if lease.dispatched then some lease.estimated_tokens else none) w.store;
        } in
        let kept : (now, w') ≡ release r redis_up true lease w = ground arith in
        subst (Released rid) kept (
          refl,
          subst (λ i. NoneOpen i (give_up r lease w.db)) same
              (give_up-NoneOpen lease w.db reserves),
        )
  ]

  pub close_lease-IsOver :
      (rid : ℕ) (lease : Option RequestLease) (d : Desk r)
      → g.db_up ≡ true
      → d.lease ≡ lease
      → Stands rid d
      → IsOver rid (close_lease r g lease d)
  close_lease-IsOver rid none d up at k = absurd (ground (arith, k.at))
  close_lease-IsOver rid (some lease) d up at k =
      let w : World r = record { db = d.db; store = d.store } in
      let same : k.lease ≡ lease = ground (arith, k.at) in
      let done : Released rid (release r g.redis_up g.db_up lease w) =
        subst (λ b. Released rid (release r g.redis_up b lease w)) (sym up)
          (release-Released g.redis_up rid lease w
            (ap (λ l. l.request_id) (sym same) ∙ k.same_request)
            (ap (λ l. l.reserved) (sym same) ∙ k.reserves)
            (λ c. k.over (ap (λ l. l.closed) same ∙ c))) in
      record {
        lease = (release r g.redis_up g.db_up lease w).0;
        at = refl;
        closed = done.0;
        none_open = done.1;
      }

  pub bill-Shut :
      (call : Call) (b : Bill) (d : Desk r)
      → g.db_up ≡ true
      → Stands call.request_id d
      → let d' = (bill r g call b d).0 in Shut call.request_id d'.lease d'.db
  bill-Shut call b d up k =
      subst
        (λ db_up.
          let d' = (bill_and_log r g.redact g.detail_of g.save_error g.redis_up db_up call b d).0 in
          Shut call.request_id d'.lease d'.db)
        (sym up) (bill_and_log-Shut r g.redact g.detail_of g.save_error g.redis_up call b d k)

  pub close-IsOver :
      (call : Call) (d : Desk r)
      → g.db_up ≡ true
      → Stands call.request_id d
      → IsOver call.request_id (close r g call d)
  unfolding close
  close-IsOver call d up k =
      let over = close_lease-IsOver call.request_id d.lease d up refl k in
      let store = Concurrency.release r key call.api_key.id call.concurrency_lease_id in
      let ended = close_lease r g d.lease d in
      if_both (IsOver call.request_id) g.redis_up (record ended { store = store ended.store }) ended
        (record {
          lease = over.lease;
          at = over.at;
          closed = over.closed;
          none_open = over.none_open;
        })
        over
