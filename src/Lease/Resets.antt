-- ===== src/Lease/Resets.antt =====
-- The monthly reset of quotas: reset_expired_quotas of backend/app/services/quota.py.

use five_api.Base.{
  ℕ, ◌+◌, ◌-◌, ◌*◌, Bool, true, false, not, ◌&&◌, ◌||◌, Option, none, some, List, [], ◌∷◌, ltb, leb,
  min, ◌==◌, if◌then◌else◌, update_where, count_where,
}
use five_api.Models.{Tenant, ApiKey}
use five_api.Redis.{Scope, key, tenant}
use five_api.Settlements.Store.{Db, occupied}

-- What the reset reads of a tenant or a key.
pub record Owner : Type 0 where
  pub id : ℕ
  pub quota_used : ℕ
  pub quota_reset_day : Option ℕ
  pub quota_last_reset_at : Option ℕ

abbrev pub tenant_owner : Tenant → Owner
tenant_owner t = record {
  id = t.id;
  quota_used = t.quota_used;
  quota_reset_day = t.quota_reset_day;
  quota_last_reset_at = t.quota_last_reset_at;
}

abbrev pub key_owner : ApiKey → Owner
key_owner k = record {
  id = k.id;
  quota_used = k.quota_used;
  quota_reset_day = k.quota_reset_day;
  quota_last_reset_at = k.quota_last_reset_at;
}

-- The calendar of the current month: its first second and the number of its days.
pub record Month : Type 0 where
  pub start : ℕ
  pub last_day : ℕ

abbrev pub same_time : Option ℕ → Option ℕ → Bool
same_time none none = true
same_time (some a) (some b) = a == b
same_time _ _ = false

abbrev pub is_since : ℕ → Option ℕ → Bool
is_since target none = false
is_since target (some at) = leb target at

abbrev pub target_of : Month → ℕ → ℕ
target_of month day = month.start + (min day month.last_day - 1) * 86_400

-- The day has come, and there was no reset since.
abbrev pub is_due : Month → ℕ → Option ℕ → Option ℕ → Bool
is_due month now none last = false
is_due month now (some day) last =
    not (ltb now (target_of month day) || is_since (target_of month day) last)

abbrev pub is_unchanged : Owner → Owner → Bool
is_unchanged seen row =
    (row.id == seen.id)
    && same_time row.quota_last_reset_at seen.quota_last_reset_at
    && (row.quota_used == seen.quota_used)

abbrev pub reset_tenant : ℕ → Tenant → Tenant
reset_tenant now t = record t { quota_used = 0; quota_last_reset_at = some now }

abbrev pub reset_key : ℕ → ApiKey → ApiKey
reset_key now k = record k { quota_used = 0; quota_last_reset_at = some now }

-- The conditional update of one owner: the tables, and how many rows it changed.
abbrev pub update_owner : Scope → ℕ → Owner → Db → Db × ℕ
update_owner tenant now seen db = (
  record db {
    tenants = update_where (λ t. is_unchanged seen (tenant_owner t)) (reset_tenant now) db.tenants;
  },
  count_where (λ t. is_unchanged seen (tenant_owner t)) db.tenants,
)
update_owner key now seen db = (
  record db { keys = update_where (λ k. is_unchanged seen (key_owner k)) (reset_key now) db.keys },
  count_where (λ k. is_unchanged seen (key_owner k)) db.keys,
)

unfoldable pub reset_owner : Scope → Month → ℕ → Owner → Db → Db × ℕ
reset_owner scope month now seen db =
    if is_due month now seen.quota_reset_day seen.quota_last_reset_at
      && (occupied scope seen.id db.settlements == 0)
    then update_owner scope now seen db
    else (db, 0)

-- The loop over the owners that were read before it.
unfoldable pub reset_owners : Scope → Month → ℕ → List Owner → Db → Db × ℕ
unfolding reset_owner
reset_owners scope month now [] db = (db, 0)
reset_owners scope month now (seen ∷ rest) db =
    let (db', n) = reset_owner scope month now seen db in
    let (db'', m) = reset_owners scope month now rest db' in (db'', n + m)

abbrev pub tenants_seen : List Tenant → List Owner
tenants_seen [] = []
tenants_seen (t ∷ ts) = tenant_owner t ∷ tenants_seen ts

abbrev pub keys_seen : List ApiKey → List Owner
keys_seen [] = []
keys_seen (k ∷ ks) = key_owner k ∷ keys_seen ks

unfoldable pub reset_expired_quotas : Month → ℕ → Db → Db × ℕ
unfolding reset_owners
reset_expired_quotas month now db =
    let (db', n) = reset_owners key month now (keys_seen db.keys) db in
    let (db'', m) = reset_owners tenant month now (tenants_seen db'.tenants) db' in (db'', n + m)
