-- ===== src/Settlements/Budget.antt =====
-- The quota as a bound: what an owner has spent and what its reservations may still spend, together.

use mathlib.Core.Path.{subst}
use five_api.Base.{
  ℕ, ◌+◌, ◌≤◌, ◌≡◌, ap, true, false, ◌&&◌, some, List, arith, ◌==◌, Bool-cases, inl, inr,
}
use five_api.Base.Int.{ℤ, pos}
use five_api.Models.{Settlement, pending, Quotes, ApiKey, Tenant}
use five_api.Redis.{Scope, key, tenant}
use five_api.Settlements.Store.{Db, occupies, owner_of, occupied}
use five_api.Settlements.Reserve.{new_row, is_over}
use five_api.Settlements.Apply.{to_settled}
use five_api.Settlements.Rows.{
  All-find, weigh, table_weight, sum_where-weight, weight-append, weight-Pointwise_le,
}
use five_api.Settlements.Moves.{Within, Holds}
use five_api.Settlements.Outcomes.{Admitted, Charged}
use five_api.Settlements.Steps.{IsSound, Rewritten}
use five_api.Settlements.Soundness.{due-pending}
use five_api.Settlements.Accounts.{spent, spent_same, quota_of, exposure, found_account}
use five_api.Settlements.Ledger.{spent-Charged, weight-Charged, owner_same}

module _ (scope : Scope) (o : ℕ) where
  -- What a row holds of the owner's quota.
  abbrev pub held_of : Settlement → ℕ
  held_of s = weigh ((owner_of scope s == o) && occupies s.state) s.occupied

  pub occupied-weight : (rows : List Settlement) → occupied scope o rows ≡ table_weight held_of rows
  unfolding occupied
  occupied-weight rows =
      sum_where-weight (λ s. (owner_of scope s == o) && occupies s.state) (λ s. s.occupied) rows

  held_of-Within : (s s' : Settlement) → Within s s' → held_of s' ≤ held_of s
  held_of-Within s s' w = ground (arith, owner_same scope s s' w.uncharged.moves, w.held_within)

  pub quiet_bound :
      (db db' : Db) → Rewritten Within db db' → exposure scope o db' ≤ exposure scope o db
  unfolding exposure
  quiet_bound db db' h = omega (
    arith,
    spent_same scope o db db' h.0 h.1,
    occupied-weight db.settlements,
    occupied-weight db'.settlements,
    weight-Pointwise_le Within held_of held_of-Within db.settlements db'.settlements h.3,
  )

  held_before :
      (s : Settlement) (cost : ℕ)
      → s.state ≡ pending
      → s.cost ≡ some cost
      → Holds s.state s.cost s.occupied
      → held_of s ≡ weigh (owner_of scope s == o) cost
  held_before s cost e p h = ground arith

  held_after : (s : Settlement) → held_of (to_settled s) ≡ 0
  held_after s = ground arith

  -- A charge turns what was held into what is spent, to the unit.
  pub Charged-exposure :
      (rid : ℕ) (db db' : Db)
      → IsSound db
      → Charged rid db db'
      → exposure scope o db' ≡ exposure scope o db
  unfolding exposure
  Charged-exposure rid db db' v c =
      let (waits, priced) =
        due-pending c.row.state c.row.payload c.row.cost c.cost c.log c.is_due in
      omega (
        arith,
        spent-Charged rid db db' c scope o,
        occupied-weight db.settlements,
        occupied-weight db'.settlements,
        weight-Charged held_of rid db db' v c,
        held_after c.row,
        held_before c.row c.cost waits priced (
            All-find (λ s. Holds s.state s.cost s.occupied) (λ s. s.request_id == rid)
              db.settlements c.row v.holding c.row_found),
      )

  held_new :
      (i rid t k amount : ℕ) (quotes : Quotes) (owner now : ℕ)
      → held_of (new_row i rid t k amount quotes owner now)
        ≡ weigh (owner_of scope (new_row i rid t k amount quotes owner now) == o) amount
  held_new i rid t k amount quotes owner now = ground arith

room_of :
    (quota used held amount : ℕ)
    → is_over (pos quota) used held amount ≡ false
    → used + held + amount ≤ quota
unfolding is_over
room_of quota used held amount h = ground arith

-- The row that a successful reservation writes.
abbrev pub written :
    {rid : ℕ} {k : ApiKey} {amount : ℕ} {quotes : Quotes} {owner now : ℕ} {db db' : Db}
    → Admitted rid k amount quotes owner now db db'
    → Settlement
written {rid} {k} {amount} {quotes} {owner} {now} {db} {db'} a =
    new_row db.next_id rid a.tenant_row.id a.key_row.id amount quotes owner now

module _ (rid : ℕ) (k : ApiKey) (amount : ℕ) (quotes : Quotes) (owner now : ℕ) (db db' : Db)
    (a : Admitted rid k amount quotes owner now db db') where
  -- A reservation exposes its amount of the quotas of its two owners.
  pub Admitted-exposure :
      (scope : Scope) (o : ℕ)
      → exposure scope o db' ≡ exposure scope o db + weigh (owner_of scope (written a) == o) amount
  unfolding exposure
  Admitted-exposure scope o = omega (
    arith,
    spent_same scope o db db' (ap (λ (d : Db). d.tenants) a.result)
        (ap (λ (d : Db). d.keys) a.result),
    occupied-weight scope o db.settlements,
    occupied-weight scope o db'.settlements,
    ap (λ (d : Db). table_weight (held_of scope o) d.settlements) a.result,
    weight-append (held_of scope o) db.settlements (written a),
    held_new scope o db.next_id rid a.tenant_row.id a.key_row.id amount quotes owner now,
  )

  owner_room :
      (scope : Scope) (o quota i : ℕ) (total : ℤ) (used : ℕ)
      → quota_of scope o db ≡ some (pos quota)
      → (i == o) ≡ true
      → spent scope o db ≡ used
      → quota_of scope o db ≡ some total
      → is_over total used (occupied scope i db.settlements) amount ≡ false
      → exposure scope o db + amount ≤ quota
  unfolding exposure
  owner_room scope o quota i total used q e u t r =
      let e' : i ≡ o = ground arith in
      let t' : total ≡ pos quota = ground arith in
      let r' : used + occupied scope o db.settlements + amount ≤ quota =
        room_of quota used (occupied scope o db.settlements) amount (
          subst (λ j. is_over (pos quota) used (occupied scope j db.settlements) amount ≡ false) e'
            (subst (λ x. is_over x used (occupied scope i db.settlements) amount ≡ false) t' r)) in
      omega (arith, u, r')

  -- There was room for it.
  room :
      (scope : Scope) (o quota : ℕ)
      → quota_of scope o db ≡ some (pos quota)
      → (owner_of scope (written a) == o) ≡ true
      → exposure scope o db + amount ≤ quota
  unfolding spent quota_of
  room tenant o quota q e =
      let (u, t) =
        found_account (λ (t : Tenant). t.id) (λ t. t.quota_used) (λ t. t.quota_total) k.tenant_id o
          db.tenants a.tenant_row a.tenant_found e in
      owner_room tenant o quota a.tenant_row.id a.tenant_row.quota_total a.tenant_row.quota_used q e
        u t a.tenant_room
  room key o quota q e =
      let (u, t) =
        found_account (λ (t : ApiKey). t.id) (λ t. t.quota_used) (λ t. t.quota_total) k.id o db.keys
          a.key_row a.key_found e in
      owner_room key o quota a.key_row.id a.key_row.quota_total a.key_row.quota_used q e u t
        a.key_room

  pub Admitted_bound :
      (scope : Scope) (o quota : ℕ)
      → quota_of scope o db ≡ some (pos quota)
      → exposure scope o db ≤ quota
      → exposure scope o db' ≤ quota
  Admitted_bound scope o quota q h = elim (Bool-cases (owner_of scope (written a) == o)) [
    | inl same ↦ ground (arith, Admitted-exposure scope o, room scope o quota q same)
    | inr other ↦ ground (arith, Admitted-exposure scope o)
  ]
