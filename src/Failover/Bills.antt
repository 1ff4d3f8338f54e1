-- ===== src/Failover/Bills.antt =====
-- What billing leaves alone, and how it fails.
use five_api.Base.{◌≡◌, refl, Bool, Option, none, some, List, String, Result, ok, err, if_both, ◌∙◌}
use five_api.Base.Int.{ℤ}
use five_api.Models.{Payload}
use five_api.Redis.{Redis}
use five_api.Pricing.Quotes.{Charge}
use five_api.Settlements.Store.{Db}
use five_api.Lease.{RequestLease}
use five_api.Failover.Errors.{Failure, other}
use five_api.Failover.Attempts.{Gateway}
use five_api.Failover.Execute.{close_lease}
use five_api.Failover.Billing.{
  Call, Bill, Desk, Sent, Priced, bill_and_log, bill_with, bill_usage, settle_usage, opened,
  persisted, price_bill, settled_or, then_finish, finish_with, full_log, has_tokens, noted, applied,
  paid, logged,
}

module _ (r : Redis) (redact : Payload → Payload) (detail_of : Charge → String → ℤ → Payload)
    (save_error : Payload → Option String) (redis_up db_up : Bool) where
  open r use {Store}

  abbrev pub FailsOther : Option Failure → Type 0
  FailsOther none = Unit {0}
  FailsOther (some e) = e.kind ≡ other

  -- The sendings stand, and an error is of no class that is asked about.
  abbrev pub Billed : List Sent → Desk r × Option Failure → Type 0
  Billed sends (d, e) = (d.sends ≡ sends) × FailsOther e

  finish_with-sends :
      (lease : Option RequestLease) (actual : ℤ) (d : Desk r)
      → (finish_with r redact detail_of save_error redis_up db_up lease actual d).sends ≡ d.sends
  finish_with-sends none actual d = refl
  finish_with-sends (some lease) actual d = refl

  -- Both outcomes of what a bill runs.
  abbrev Runs : Desk r → Result Failure (Desk r) → Type 0
  Runs d x = Billed d.sends (settled_or r redact detail_of save_error redis_up db_up d x)

  noted-Runs :
      (d : Desk r) (x : Result String Db)
      → Runs d (noted r redact detail_of save_error redis_up db_up d x)
  noted-Runs d (err e) = (refl, refl)
  noted-Runs d (ok db) = (refl, tt)

  applied-Runs :
      (call : Call) (d : Desk r) (x : Result String (Bool × Db × Store))
      → Runs d (applied r redact detail_of save_error redis_up db_up call d x)
  applied-Runs call d (err e) = noted-Runs d _
  applied-Runs call d (ok (done, db, s)) = (refl, tt)

  settle_usage-Runs :
      (call : Call) (d : Desk r)
      → Runs d (settle_usage r redact detail_of save_error redis_up db_up call d)
  unfolding settle_usage
  settle_usage-Runs call d = if_both (Runs d) db_up _ _ (applied-Runs call d _) (refl, refl)

  opened-Runs :
      (lease : Option RequestLease) (call : Call) (p : Priced) (d : Desk r)
      → Runs d (opened r redact detail_of save_error redis_up db_up lease call p d)
  opened-Runs (some lease) call p d = (refl, tt)
  opened-Runs none call p d = if_both (Runs d) db_up _ _ (refl, tt) (refl, refl)

  paid-Billed :
      (call : Call) (b : Bill) (p : Priced) (d : Desk r) (x : Result Failure (Desk r))
      → Runs d x
      → Billed d.sends (paid r redact detail_of save_error redis_up db_up call b p d x)
  paid-Billed call b p d (err e) h = h
  paid-Billed call b p d (ok d') h =
      let runs = settle_usage-Runs call (
        persisted r redact detail_of save_error redis_up db_up call
          (full_log r redact detail_of save_error redis_up db_up call b p) p d') in
      (runs.0 ∙ h.0, runs.1)

  then_finish-Billed :
      (sends : List Sent) (actual : ℤ) (x : Desk r × Option Failure)
      → Billed sends x
      → Billed sends (then_finish r redact detail_of save_error redis_up db_up actual x)
  then_finish-Billed sends actual (d, e) h = (finish_with-sends d.lease actual d ∙ h.0, h.1)

  logged-Billed :
      (payload : Payload) (d : Desk r) (x : Option String)
      → Billed d.sends (logged r redact detail_of save_error redis_up db_up payload d x)
  logged-Billed payload d none = (refl, tt)
  logged-Billed payload d (some e) = (refl, refl)

  bill_usage-Billed :
      (call : Call) (b : Bill) (d : Desk r)
      → Billed d.sends (bill_usage r redact detail_of save_error redis_up db_up call b d)
  bill_usage-Billed call b d =
      let p = price_bill call d.lease b in
      then_finish-Billed d.sends _ _ (paid-Billed call b p d _ (opened-Runs d.lease call p d))

  bill_with-Billed :
      (lease : Option RequestLease) (call : Call) (b : Bill) (d : Desk r)
      → Billed d.sends (bill_with r redact detail_of save_error redis_up db_up lease call b d)
  bill_with-Billed (some lease) call b d =
      if_both (Billed d.sends) b.uncertain _ _
        (if_both (Billed d.sends) db_up _ _ (refl, tt) (refl, refl)) (bill_usage-Billed call b d)
  bill_with-Billed none call b d =
      if_both (Billed d.sends) (has_tokens b.tokens) _ _ (bill_usage-Billed call b d)
        (if_both (Billed d.sends) db_up _ _ (logged-Billed _ d _) (refl, refl))

  pub bill_and_log-Billed :
      (call : Call) (b : Bill) (d : Desk r)
      → Billed d.sends (bill_and_log r redact detail_of save_error redis_up db_up call b d)
  unfolding bill_and_log
  bill_and_log-Billed call b d = bill_with-Billed d.lease call b d

pub close_lease-sends :
    (r : Redis) (g : Gateway) (lease : Option RequestLease) (d : Desk r)
    → (close_lease r g lease d).sends ≡ d.sends
close_lease-sends r g none d = refl
close_lease-sends r g (some lease) d = refl
