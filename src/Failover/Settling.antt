-- ===== src/Failover/Settling.antt =====
-- However a call ends, its lease is closed and its reservation is no longer open.
use mathlib.Core.Path.{subst}
use five_api.Base.{
  ℕ, ◌≡◌, refl, sym, Bool, true, Option, some, String, arith, Result, ok, err, if_both,
}
use five_api.Base.Int.{ℤ, pos, pos_part}
use five_api.Models.{Payload}
use five_api.Redis.{Redis}
use five_api.Pricing.Quotes.{Charge}
use five_api.Settlements.Store.{Db}
use five_api.Settlements.Reserve.{is_open}
use five_api.Settlements.Apply.{apply, note_failure}
use five_api.Settlements.Effects.{note_failure-Within}
use five_api.Settlements.Closing.{
  NoneOpen, Within-NoneOpen, update-NoneOpen, persist_usage-NoneOpen, apply-NoneOpen,
}
use five_api.Lease.{RequestLease, finish}
use five_api.Failover.Errors.{Failure}
use five_api.Failover.Billing.{
  Call, Bill, Desk, bill_and_log, bill_usage, settle_usage, persisted, price_bill, settled_or,
  then_finish, mark_uncertain, marked_unknown, cost_of, error_of, applied, noted, full_log,
  finish_with, to_unknown,
}

-- The lease still holds the request, and once it is closed the request has no open reservation.
pub record Kept (rid : ℕ) (now : Option RequestLease) (db : Db) : Type 0 where
  pub lease : RequestLease
  pub at : now ≡ some lease
  pub same_request : lease.request_id ≡ rid
  pub reserves : lease.reserved ≡ true
  pub over : lease.closed ≡ true → NoneOpen rid db

-- The lease is closed as well.
pub record Shut (rid : ℕ) (now : Option RequestLease) (db : Db) : Type 0 where
  pub kept : Kept rid now db
  pub closed : kept.lease.closed ≡ true

module _ (r : Redis) (redact : Payload → Payload) (detail_of : Charge → String → ℤ → Payload)
    (save_error : Payload → Option String) (redis_up : Bool) (call : Call) where
  open r use {Store}

  abbrev Held : Option RequestLease → Desk r → Type 0
  Held lease d = (d.lease ≡ lease) × NoneOpen call.request_id d.db

  -- What `settle_usage` leaves, also where it raises.
  abbrev Leaves : Desk r → Result Failure (Desk r) → Type 0
  Leaves d x = Held d.lease (settled_or r redact detail_of save_error redis_up true d x).0

  noted-Leaves :
      (d : Desk r) (e : String) (x : Result String Db)
      → note_failure call.request_id e call.now d.db ≡ x
      → NoneOpen call.request_id d.db
      → Leaves d (noted r redact detail_of save_error redis_up true d x)
  noted-Leaves d e (err e') h n = (refl, n)
  noted-Leaves d e (ok db) h n = (
    refl,
    Within-NoneOpen call.request_id d.db db
        (note_failure-Within call.request_id e call.now d.db db h) n,
  )

  applied-Leaves :
      (d : Desk r) (x : Result String (Bool × Db × Store))
      → apply r save_error redis_up true call.request_id
          (some (call.api_key.tenant_id, call.api_key.id))
          (d.db, d.store)
        ≡ x
      → NoneOpen call.request_id d.db
      → Leaves d (applied r redact detail_of save_error redis_up true call d x)
  applied-Leaves d (err e) h n = noted-Leaves d e _ refl n
  applied-Leaves d (ok (done, db, s)) h n =
      (refl, apply-NoneOpen r save_error redis_up true call.request_id _ d.db db d.store s done h n)

  settle_usage-Leaves :
      (d : Desk r)
      → NoneOpen call.request_id d.db
      → Leaves d (settle_usage r redact detail_of save_error redis_up true call d)
  unfolding settle_usage
  settle_usage-Leaves d n = applied-Leaves d _ refl n

  finish_with-Shut :
      (lease : RequestLease) (actual : ℤ) (d : Desk r)
      → lease.request_id ≡ call.request_id
      → lease.reserved ≡ true
      → NoneOpen call.request_id d.db
      → let d' = finish_with r redact detail_of save_error redis_up true (some lease) actual d in
        Shut call.request_id d'.lease d'.db
  unfolding finish
  finish_with-Shut lease actual d same reserves n = record {
    kept = record {
      lease = (finish r redis_up (pos_part actual) lease d.store).0;
      at = refl;
      same_request = ground arith;
      reserves = ground arith;
      over = λ c. n;
    };
    closed = ground arith;
  }

  then_finish-Shut :
      (lease : RequestLease) (actual : ℤ) (x : Desk r × Option Failure)
      → lease.request_id ≡ call.request_id
      → lease.reserved ≡ true
      → Held (some lease) x.0
      → let (d', e) = then_finish r redact detail_of save_error redis_up true actual x in
        Shut call.request_id d'.lease d'.db
  then_finish-Shut lease actual (d, e) same reserves h =
      subst
        (λ (l : Option RequestLease).
          let d' = finish_with r redact detail_of save_error redis_up true l actual d in
          Shut call.request_id d'.lease d'.db)
        (sym h.0) (finish_with-Shut lease actual d same reserves h.1)

  bill_usage-Shut :
      (b : Bill) (lease : RequestLease) (d : Desk r)
      → lease.request_id ≡ call.request_id
      → lease.reserved ≡ true
      → let d0 : Desk r = record d { lease = some lease } in
        let (d', e) = bill_usage r redact detail_of save_error redis_up true call b d0 in
        Shut call.request_id d'.lease d'.db
  bill_usage-Shut b lease d same reserves =
      let d0 : Desk r = record d { lease = some lease } in
      let p = price_bill call (some lease) b in
      let payload = full_log r redact detail_of save_error redis_up true call b p in
      let saved = persisted r redact detail_of save_error redis_up true call payload p d0 in
      then_finish-Shut lease _
        (settled_or r redact detail_of save_error redis_up true saved
          (settle_usage r redact detail_of save_error redis_up true call saved))
        same reserves
        (settle_usage-Leaves saved (
          persist_usage-NoneOpen redact call.request_id payload (cost_of p) (error_of p)
            (record { db = d.db; unsaved = d.unsaved })))

  mark_uncertain-Shut :
      (b : Bill) (lease : RequestLease) (d : Desk r)
      → lease.request_id ≡ call.request_id
      → lease.reserved ≡ true
      → let d0 : Desk r = record d { lease = some lease } in
        let (d', e) = mark_uncertain r redact detail_of save_error redis_up true call b lease d0 in
        Shut call.request_id d'.lease d'.db
  mark_uncertain-Shut b lease d same reserves =
      let marked : Desk r =
        marked_unknown r redact detail_of save_error redis_up true call b
          (record d { lease = some lease }) in
      finish_with-Shut lease (pos lease.estimated_tokens) marked same reserves (
        update-NoneOpen call.request_id (is_open call.request_id) (to_unknown _) d.db.settlements
          (λ s h. h) (λ s. ground arith))

  abbrev pub BillShuts : Bill → Desk r → Type 0
  BillShuts b d =
      let (d', e) = bill_and_log r redact detail_of save_error redis_up true call b d in
      Shut call.request_id d'.lease d'.db

  pub bill_and_log-Shut :
      (b : Bill) (d : Desk r) → Kept call.request_id d.lease d.db → BillShuts b d
  unfolding bill_and_log
  bill_and_log-Shut b d k =
      subst (λ (l : Option RequestLease). BillShuts b (record d { lease = l })) (sym k.at)
        (if_both (λ (x : Desk r × Option Failure). Shut call.request_id x.0.lease x.0.db)
          b.uncertain
          (mark_uncertain r redact detail_of save_error redis_up true call b k.lease
            (record d { lease = some k.lease }))
          (bill_usage r redact detail_of save_error redis_up true call b
            (record d { lease = some k.lease }))
          (mark_uncertain-Shut b k.lease d k.same_request k.reserves)
          (bill_usage-Shut b k.lease d k.same_request k.reserves))
