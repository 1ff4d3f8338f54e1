-- ===== src/Lease/Refusals.antt =====
-- A refused request leaves the accounts as they were.

use five_api.Base.{
  ℕ, ◌≡◌, refl, ap, sym, ◌∙◌, Bool, true, false, Option, arith, inl, inr, Result, err, Option-cases,
}
use five_api.Base.Int.{ℤ}
use five_api.Base.Json.{Json}
use five_api.Models.{ApiKey, Tenant}
use five_api.Redis.{Redis, Scope}
use five_api.Settlements.Store.{Db, occupied}
use five_api.Settlements.Reserve.{Denial, reserve, is_open, to_released, new_row}
use five_api.Settlements.Reserve
use five_api.Access.{key_tenant}
use five_api.Lease.{
  Refused, RequestLease, Asked, new_lease, World, release, Progress, standing, refused_at, answer,
  give_up, take_all, begin_request_budget,
}
use five_api.Lease.Undone.{release-reserve}
use five_api.Lease.Steps.{HowRefused, Ends, all-Ends}

module _ (r : Redis) where
  release-db :
      (redis_up : Bool) (lease : RequestLease) (w : World r)
      → lease.closed ≡ false
      → (release r redis_up true lease w).1.db ≡ give_up r lease w.db
  unfolding release
  release-db redis_up lease w live = rw live refl

  refused-occupied :
      (redis_up : Bool) (k : ApiKey) (rid : ℕ) (db : Db) (lease : RequestLease) (end : World r)
      (scope : Scope) (o : ℕ)
      → HowRefused r db rid k lease end
      → occupied scope o (release r redis_up true lease end).1.db.settlements
        ≡ occupied scope o db.settlements
  refused-occupied redis_up k rid db lease end scope o (inl (same, unreserved, live, id)) =
      let untouched : (release r redis_up true lease end).1.db ≡ db =
        release-db redis_up lease end live ∙ rw (give_up, unreserved) same in
      ap (λ (d : Db). occupied scope o d.settlements) untouched
  refused-occupied redis_up k rid db lease end scope o
        (inr (amount, quotes, owner, now, did, taken, unsent, live, id)) =
      let released : (release r redis_up true lease end).1.db ≡ Reserve.release rid end.db =
        release-db redis_up lease end live ∙ rw (give_up, taken, unsent, id) refl in
      ap (λ (d : Db). occupied scope o d.settlements) released
      ∙ release-reserve scope o rid k amount quotes owner now db end.db did

  -- A request that is refused, at whichever step, holds nothing of any quota afterwards that was
  -- not held before, if the database answers.
  pub begin-err-occupied :
      (amount_of : Json → Option ℤ) (redis_up : Bool) (cached : Option Tenant) (k : ApiKey)
      (asked : Asked) (w w' : World r) (e : Refused) (scope : Scope) (o : ℕ)
      → begin_request_budget r amount_of redis_up true cached k asked w ≡ (w', err e)
      → occupied scope o w'.db.settlements ≡ occupied scope o w.db.settlements
  unfolding begin_request_budget
  begin-err-occupied amount_of redis_up cached k asked w w' e scope o h =
      elim (Option-cases (key_tenant cached w.db.tenants k)) [
        | inl nobody ↦
            let same : w' ≡ w = ground arith in
            ap (λ (x : World r). occupied scope o x.db.settlements) same
        | inr (t, found) ↦
            settled_by (take_all r amount_of k t asked (new_lease k t asked) w)
              (all-Ends r amount_of k t asked (new_lease k t asked) w
                ((refl, refl, refl, refl), refl))
              (ground arith)
      ]
    where
      settled_by :
          (p : Progress r)
          → Ends r w.db asked.request_id k p
          → answer r redis_up true p ≡ (w', err e)
          → occupied scope o w'.db.settlements ≡ occupied scope o w.db.settlements
      settled_by (standing lease end) ends h = absurd (ground arith)
      settled_by (refused_at reason lease end) ends h =
          ap (λ (x : World r × Result Refused RequestLease). occupied scope o x.0.db.settlements)
            (sym h)
          ∙ refused-occupied redis_up k asked.request_id w.db lease end scope o ends
