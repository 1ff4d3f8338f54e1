-- ===== src/Lease/Monthly.antt =====
-- What the monthly reset does to the tables.
use mathlib.Core.Path.{subst}
use five_api.Base.{
  ℕ, ◌≡◌, ◌⊎◌, refl, ap, ◌∙◌, ◌&&◌, List, [], ◌∷◌, inl, inr, arith, ◌==◌, Bool-cases,
}
use five_api.Models.{Tenant, ApiKey}
use five_api.Redis.{Scope, key, tenant}
use five_api.Settlements.Store.{Db, occupied}
use five_api.Settlements.Rows.{Pointwise, Pointwise-update, Pointwise-trans, All-every}
use five_api.Lease.Resets.{
  Owner, Month, tenant_owner, key_owner, is_unchanged, is_due, reset_tenant, reset_key,
  update_owner, reset_owner, reset_owners, tenants_seen, keys_seen, reset_expired_quotas,
}

-- A row is left alone, or it is reset while its owner holds nothing.
abbrev pub ResetIf {ℓ} : {R : Type ℓ} → (R → R) → (R → ℕ) → R → R → Type ℓ
ResetIf reset held a b = (b ≡ a) ⊎ ((b ≡ reset a) × (held a ≡ 0))

ResetIf-trans {ℓ} :
    {R : Type ℓ} (reset : R → R) (held : R → ℕ)
    → ((a : R) → reset (reset a) ≡ reset a)
    → (a b c : R) → ResetIf reset held a b
    → ResetIf reset held b c
    → ResetIf reset held a c
ResetIf-trans reset held twice a b c (inl same) k = subst (λ x. ResetIf reset held x c) same k
ResetIf-trans reset held twice a b c (inr (was, free)) (inl same) = inr (same ∙ was, free)
ResetIf-trans reset held twice a b c (inr (was, free)) (inr (again, free')) =
    inr (again ∙ ap reset was ∙ twice a, free)

-- What a reset may do: each tenant and each key is as before, or it has used nothing and the time of the
-- reset, and none of its requests held anything.
pub record Resets (now : ℕ) (db db' : Db) : Type 0 where
  pub tenants_reset :
      Pointwise
        (ResetIf (reset_tenant now) (λ (t : Tenant). occupied tenant t.id db.settlements))
        db.tenants
        db'.tenants
  pub keys_reset :
      Pointwise
        (ResetIf (reset_key now) (λ (k : ApiKey). occupied key k.id db.settlements))
        db.keys
        db'.keys
  pub rows_kept : db'.settlements ≡ db.settlements

Pointwise-same {ℓ} :
    {R : Type ℓ} (P : R → R → Type 0) (rs : List R) → ((r : R) → P r r) → Pointwise P rs rs
Pointwise-same P [] h = tt
Pointwise-same P (r ∷ rs) h = (h r, Pointwise-same P rs h)

Resets-refl : (now : ℕ) (db : Db) → Resets now db db
Resets-refl now db = record {
  tenants_reset = Pointwise-same _ db.tenants (λ t. inl refl);
  keys_reset = Pointwise-same _ db.keys (λ k. inl refl);
  rows_kept = refl;
}

Resets-trans : (now : ℕ) (a b c : Db) → Resets now a b → Resets now b c → Resets now a c
Resets-trans now a b c h k = record {
  tenants_reset =
      Pointwise-trans _
        (ResetIf-trans (reset_tenant now) (λ (t : Tenant). occupied tenant t.id a.settlements)
          (λ t. refl))
        a.tenants b.tenants c.tenants h.tenants_reset
        (subst
          (λ rows.
            Pointwise (ResetIf (reset_tenant now) (λ (t : Tenant). occupied tenant t.id rows))
              b.tenants c.tenants)
          h.rows_kept k.tenants_reset);
  keys_reset =
      Pointwise-trans _
        (ResetIf-trans (reset_key now) (λ (k : ApiKey). occupied key k.id a.settlements)
          (λ k. refl))
        a.keys b.keys c.keys h.keys_reset
        (subst
          (λ rows.
            Pointwise (ResetIf (reset_key now) (λ (k : ApiKey). occupied key k.id rows)) b.keys
              c.keys)
          h.rows_kept k.keys_reset);
  rows_kept = k.rows_kept ∙ h.rows_kept;
}

update_owner-Resets :
    (scope : Scope) (now : ℕ) (seen : Owner) (db : Db)
    → occupied scope seen.id db.settlements ≡ 0
    → Resets now db (update_owner scope now seen db).0
update_owner-Resets tenant now seen db free = record {
  tenants_reset =
      Pointwise-update _ (λ t. is_unchanged seen (tenant_owner t)) (reset_tenant now) db.tenants
        (λ t. inl refl)
        (All-every _ db.tenants λ t h.
          let same : t.id ≡ seen.id = ground (arith, h) in
          inr (refl, ap (λ i. occupied tenant i db.settlements) same ∙ free));
  keys_reset = Pointwise-same _ db.keys (λ k. inl refl);
  rows_kept = refl;
}
update_owner-Resets key now seen db free = record {
  tenants_reset = Pointwise-same _ db.tenants (λ t. inl refl);
  keys_reset =
      Pointwise-update _ (λ k. is_unchanged seen (key_owner k)) (reset_key now) db.keys
        (λ k. inl refl)
        (All-every _ db.keys λ k h.
          let same : k.id ≡ seen.id = ground (arith, h) in
          inr (refl, ap (λ i. occupied key i db.settlements) same ∙ free));
  rows_kept = refl;
}

reset_owner-Resets :
    (scope : Scope) (month : Month) (now : ℕ) (seen : Owner) (db : Db)
    → Resets now db (reset_owner scope month now seen db).0
unfolding reset_owner
reset_owner-Resets scope month now seen db =
    elim (Bool-cases (
      is_due month now seen.quota_reset_day seen.quota_last_reset_at
      && (occupied scope seen.id db.settlements == 0))) [
        | inl due ↦ rw due (update_owner-Resets scope now seen db (ground arith))
        | inr idle ↦ rw idle (Resets-refl now db)
      ]

reset_owners-Resets :
    (scope : Scope) (month : Month) (now : ℕ) (seen : List Owner) (db : Db)
    → Resets now db (reset_owners scope month now seen db).0
unfolding reset_owners
reset_owners-Resets scope month now [] db = Resets-refl now db
reset_owners-Resets scope month now (o ∷ rest) db =
    Resets-trans now db _ _ (reset_owner-Resets scope month now o db)
      (reset_owners-Resets scope month now rest (reset_owner scope month now o db).0)

-- A monthly reset leaves each tenant and each key as it was, or sets its use to nothing and its
-- last reset to now, and the latter only where none of its requests holds an amount; it changes no
-- settlement row.
pub reset_expired_quotas-Resets :
    (month : Month) (now : ℕ) (db : Db) → Resets now db (reset_expired_quotas month now db).0
unfolding reset_expired_quotas
reset_expired_quotas-Resets month now db =
    Resets-trans now db _ _ (reset_owners-Resets key month now (keys_seen db.keys) db) (
      reset_owners-Resets tenant month now
        (tenants_seen (reset_owners key month now (keys_seen db.keys) db).0.tenants)
        (reset_owners key month now (keys_seen db.keys) db).0)
