-- ===== src/Settlements/Ledger.antt =====
-- The ledger: over any interleaving of operations, the quota that an owner has used grows by exactly
-- the costs of the requests that were settled, each once.
use mathlib.Core.Option
use mathlib.Core.Path.{subst}
use five_api.Base.{ℕ, ◌+◌, ◌≡◌, refl, sym, ap, ◌∙◌, ◌&&◌, some, arith, ◌==◌, update_where}
use five_api.Models.{Settlement, Tenant, ApiKey, pending, Quotes}
use five_api.Redis.{Scope, key, tenant}
use five_api.Settlements.Store.{Db, is_settled, owner_of}
use five_api.Settlements.Apply.{charge_key, charge_tenant, to_settled}
use five_api.Settlements.Reserve.{new_row}
use five_api.Settlements.Rows.{
  weigh, table_weight, sum_where-weight, weight-append, weight-update_one, weight-Pointwise,
  Pointwise, Pointwise-map,
}
use five_api.Settlements.Moves.{Moves, Uncharged, Within}
use five_api.Settlements.Outcomes.{Admitted, Charged}
use five_api.Settlements.Steps.{Reach, here, next, IsSound, Rewritten}
use five_api.Settlements.Kinds.{Effect, quiet, usage, admitted, charged, Step-Effect}
use five_api.Settlements.Soundness.{due-pending, Reach-IsSound}
use five_api.Settlements.Accounts.{
  spent, spent_same, quota_of, used_at, quota_at, quota_at-update, charged_total, used_at-update,
  found-id,
}

module _ (rid : ℕ) (db db' : Db) (c : Charged rid db db') where
  charged_tenants :
      db'.tenants ≡ update_where (λ t. t.id == c.row.tenant_id) (charge_tenant c.cost) db.tenants
  charged_tenants =
      ap (λ (d : Db). d.tenants) c.result
      ∙ ap (λ (i : ℕ). update_where (λ t. t.id == i) (charge_tenant c.cost) db.tenants)
          (found-id (λ t. t.id) c.row.tenant_id db.tenants c.tenant_row c.tenant_found)

  charged_keys : db'.keys ≡ update_where (λ k. k.id == c.row.api_key_id) (charge_key c.cost) db.keys
  charged_keys =
      ap (λ (d : Db). d.keys) c.result
      ∙ ap (λ (i : ℕ). update_where (λ k. k.id == i) (charge_key c.cost) db.keys)
          (found-id (λ k. k.id) c.row.api_key_id db.keys c.key_row c.key_found)

  -- A charge adds its cost to what the two owners of the row have used.
  pub spent-Charged :
      (scope : Scope) (o : ℕ)
      → spent scope o db' ≡ spent scope o db + weigh (owner_of scope c.row == o) c.cost
  unfolding spent
  spent-Charged tenant o = simp charged_tenants (
      used_at-update (λ (t : Tenant). t.id) (λ t. t.quota_used) (λ t. t.quota_total)
        (charge_tenant c.cost) c.cost (λ t. refl) (λ t. refl) (λ t. refl) c.row.tenant_id o
        db.tenants c.tenant_row c.tenant_found)
  spent-Charged key o =
      subst
        (λ ks.
          used_at (λ (k : ApiKey). k.id) (λ k. k.quota_used) o ks
          ≡ spent key o db + weigh (c.row.api_key_id == o) c.cost)
        (sym charged_keys)
        (used_at-update (λ (k : ApiKey). k.id) (λ k. k.quota_used) (λ k. k.quota_total)
          (charge_key c.cost) c.cost (λ k. refl) (λ k. refl) (λ k. refl) c.row.api_key_id o db.keys
          c.key_row c.key_found)

  pub quota_of-Charged : (scope : Scope) (o : ℕ) → quota_of scope o db' ≡ quota_of scope o db
  unfolding quota_of
  quota_of-Charged tenant o = simp charged_tenants (
      quota_at-update (λ (t : Tenant). t.id) (λ t. t.quota_used) (λ t. t.quota_total)
        (charge_tenant c.cost) c.cost (λ t. refl) (λ t. refl) (λ t. refl) c.row.tenant_id o
        db.tenants)
  quota_of-Charged key o =
      subst (λ ks. quota_at (λ (k : ApiKey). k.id) (λ k. k.quota_total) o ks ≡ quota_of key o db)
        (sym charged_keys)
        (quota_at-update (λ (k : ApiKey). k.id) (λ k. k.quota_used) (λ k. k.quota_total)
          (charge_key c.cost) c.cost (λ k. refl) (λ k. refl) (λ k. refl) c.row.api_key_id o db.keys)

-- What a charge does to any sum over the rows.
pub weight-Charged :
    (w : Settlement → ℕ) (rid : ℕ) (db db' : Db)
    → IsSound db
    → (c : Charged rid db db')
    → table_weight w db'.settlements + w c.row
      ≡ table_weight w db.settlements + w (to_settled c.row)
weight-Charged w rid db db' v c = rw (ap (λ (d : Db). d.settlements) c.result) (
    weight-update_one (λ s. s.id) w (λ s. s.request_id == rid) to_settled db.settlements c.row
      v.distinct c.row_found)

pub owner_same :
    (scope : Scope) (s s' : Settlement) → Moves s s' → owner_of scope s' ≡ owner_of scope s
owner_same tenant s s' m = m.tenant_kept
owner_same key s s' m = m.key_kept

module _ (scope : Scope) (o : ℕ) where
  -- The cost that the owner is charged for a row.
  abbrev owed : Settlement → ℕ
  owed s = weigh ((owner_of scope s == o) && is_settled s.state) (Option.get_or s.cost 0)

  charged_total-weight : (db : Db) → charged_total scope o db ≡ table_weight owed db.settlements
  unfolding charged_total
  charged_total-weight db =
      sum_where-weight (λ s. (owner_of scope s == o) && is_settled s.state)
        (λ s. Option.get_or s.cost 0) db.settlements

  owed_same : (s s' : Settlement) → Uncharged s s' → owed s' ≡ owed s
  owed_same s s' u = ground (arith, owner_same scope s s' u.moves, u.charged_kept)

  -- The used quota less the settled costs.
  abbrev IsBalanced : Db → Db → Type 0
  IsBalanced db db' =
      spent scope o db' + charged_total scope o db ≡ spent scope o db + charged_total scope o db'

  charged_total-Pointwise :
      (db db' : Db)
      → Pointwise Uncharged db.settlements db'.settlements
      → charged_total scope o db' ≡ charged_total scope o db
  charged_total-Pointwise db db' h =
      rw (charged_total-weight db, charged_total-weight db')
        (weight-Pointwise Uncharged owed owed_same db.settlements db'.settlements h)

  rows-IsBalanced : (db db' : Db) → Rewritten Uncharged db db' → IsBalanced db db'
  rows-IsBalanced db db' h =
      omega (arith, spent_same scope o db db' h.0 h.1, charged_total-Pointwise db db' h.3)

  owed_new :
      (i rid t k amount : ℕ) (quotes : Quotes) (owner now : ℕ)
      → owed (new_row i rid t k amount quotes owner now) ≡ 0
  owed_new i rid t k amount quotes owner now = ground arith

  Admitted-IsBalanced :
      (rid : ℕ) (k : ApiKey) (amount : ℕ) (quotes : Quotes) (owner now : ℕ) (db db' : Db)
      → Admitted rid k amount quotes owner now db db'
      → IsBalanced db db'
  Admitted-IsBalanced rid k amount quotes owner now db db' a = omega (
    arith,
    spent_same scope o db db' (ap (λ (d : Db). d.tenants) a.result)
        (ap (λ (d : Db). d.keys) a.result),
    charged_total-weight db,
    charged_total-weight db',
    ap (λ (d : Db). table_weight owed d.settlements) a.result,
    weight-append owed db.settlements
        (new_row db.next_id rid a.tenant_row.id a.key_row.id amount quotes owner now),
    owed_new db.next_id rid a.tenant_row.id a.key_row.id amount quotes owner now,
  )

  owed_before : (s : Settlement) → s.state ≡ pending → owed s ≡ 0
  owed_before s e = ground arith

  owed_after :
      (s : Settlement) (cost : ℕ)
      → s.cost ≡ some cost
      → owed (to_settled s) ≡ weigh (owner_of scope s == o) cost
  owed_after s cost e = elim scope [ tenant ↦ rw e (ground arith) | key ↦ rw e (ground arith) ]

  Charged-IsBalanced : (rid : ℕ) (db db' : Db) → IsSound db → Charged rid db db' → IsBalanced db db'
  Charged-IsBalanced rid db db' v c =
      let (waits, priced) =
        due-pending c.row.state c.row.payload c.row.cost c.cost c.log c.is_due in
      omega (
        arith,
        spent-Charged rid db db' c scope o,
        charged_total-weight db,
        charged_total-weight db',
        weight-Charged owed rid db db' v c,
        owed_before c.row waits,
        owed_after c.row c.cost priced,
      )

  Effect-IsBalanced : (db db' : Db) → IsSound db → Effect db db' → IsBalanced db db'
  Effect-IsBalanced db db' v (quiet h) = rows-IsBalanced db db' (
    h.0,
    h.1,
    h.2,
    Pointwise-map Within Uncharged db.settlements db'.settlements (λ r s w. w.uncharged) h.3,
  )
  Effect-IsBalanced db db' v (usage h) = rows-IsBalanced db db' h
  Effect-IsBalanced db db' v (admitted rid k amount quotes owner now a) =
      Admitted-IsBalanced rid k amount quotes owner now db db' a
  Effect-IsBalanced db db' v (charged rid c) = Charged-IsBalanced rid db db' v c

  -- Over any interleaving of operations from a sound state, the quota that an owner has used grows
  -- by exactly the costs of its requests that became settled.
  pub Reach-balanced :
      (db db' : Db)
      → IsSound db
      → Reach db db'
      → spent scope o db' + charged_total scope o db ≡ spent scope o db + charged_total scope o db'
  Reach-balanced db db' v here = refl
  Reach-balanced db db' v (next {mid} r s) =
      let h =
        Effect-IsBalanced mid db' (Reach-IsSound db mid v r)
          (Step-Effect mid db' (Reach-IsSound db mid v r) s) in
      omega (arith, Reach-balanced db mid v r, h)
