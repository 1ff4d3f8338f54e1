-- ===== src/Settlements/Reserve.antt =====
-- Reserving an amount before a request is sent, and what ends a reservation without usage.
use five_api.Base.{
  ℕ, ◌+◌, Bool, true, false, not, ◌&&◌, ◌||◌, Option, none, some, String, [], ◌∷◌, ◌++◌, ◌==◌,
  if◌then◌else◌, Result, ok, err, ◌>>=◌, ◌>>◌, raise_if, update_where, count_where,
}
use five_api.Base.Int.{ℤ, pos, negsuc, ltb_ℤ, leb_ℤ, eqb_ℤ}
use five_api.Models.{Tenant, ApiKey, Settlement, reserved, uncertain, released, Quotes}
use five_api.Redis.{key, tenant}
use five_api.Settlements.Store.{Db, is_reserved, occupied, find_tenant, find_key, find_request}

-- The scopes of `BudgetDenied`.
pub data Denial : Type 0 where
  tenant_disabled key_disabled tenant_quota key_quota duplicate_request : Denial

-- -1 dollar, the total of an owner with no quota.
abbrev pub unlimited : ℤ
unlimited = negsuc 999_999

-- Whether a quota has no room for an amount over what is used and held.
unfoldable pub is_over : ℤ → ℕ → ℕ → ℕ → Bool
is_over quota_total quota_used held amount =
    not (eqb_ℤ quota_total unlimited)
    && (ltb_ℤ quota_total (pos (quota_used + held + amount))
        || leb_ℤ quota_total (pos (quota_used + held)))

abbrev pub enabled_tenant : Option Tenant → Result Denial Tenant
enabled_tenant none = err tenant_disabled
enabled_tenant (some t) = if t.is_enabled then ok t else err tenant_disabled

abbrev pub usable_key : Option ApiKey → Result Denial ApiKey
usable_key none = err key_disabled
usable_key (some k) = if k.is_revoked || not k.is_enabled then err key_disabled else ok k

abbrev pub is_known : Option Settlement → Bool
is_known none = false
is_known (some s) = true

-- The row that `Settlement.create` writes, with its columns' defaults.
abbrev pub new_row : ℕ → ℕ → ℕ → ℕ → ℕ → Quotes → ℕ → ℕ → Settlement
new_row id rid tenant_id key_id amount quotes owner now = record {
  id = id;
  request_id = rid;
  tenant_id = tenant_id;
  api_key_id = key_id;
  state = reserved;
  occupied = amount;
  cost = none;
  payload = none;
  quotes = quotes;
  owner_id = owner;
  dispatched = false;
  attempts = 0;
  next_retry_at = none;
  last_error = "";
  windows_recorded = false;
  created_at = now;
}

-- The transaction locks tenant, key and reservations, so it reads and writes with nothing between.
unfoldable pub reserve : ℕ → ApiKey → ℕ → Quotes → ℕ → ℕ → Db → Result Denial Db
reserve rid api_key amount quotes owner now db = do
  t ← enabled_tenant (find_tenant api_key.tenant_id db)
  k ← usable_key (find_key api_key.id db)
  raise_if (is_over t.quota_total t.quota_used (occupied tenant t.id db.settlements) amount)
      tenant_quota
  raise_if (is_over k.quota_total k.quota_used (occupied key k.id db.settlements) amount) key_quota
  raise_if (is_known (find_request rid db)) duplicate_request
  ok (record db {
    settlements = db.settlements ++ new_row db.next_id rid t.id k.id amount quotes owner now ∷ [];
    next_id = db.next_id + 1;
  })

-- The filter on a request's reservation.
abbrev pub is_open : ℕ → Settlement → Bool
is_open rid s = (s.request_id == rid) && is_reserved s.state

abbrev pub to_released : Settlement → Settlement
to_released s = record s { state = released; occupied = 0 }

unfoldable pub release : ℕ → Db → Db
release rid db = record db { settlements = update_where (is_open rid) to_released db.settlements }

abbrev pub to_dispatched : Settlement → Settlement
to_dispatched s = record s { dispatched = true }

-- Raises a RuntimeError where no reservation is open.
unfoldable pub mark_dispatched : ℕ → Db → Result String Db
mark_dispatched rid db =
    if count_where (is_open rid) db.settlements == 0
    then err "RuntimeError"
    else ok (record db { settlements = update_where (is_open rid) to_dispatched db.settlements })

abbrev pub to_uncertain : String → Settlement → Settlement
to_uncertain reason s = record s { state = uncertain; last_error = reason }

unfoldable pub abandon : ℕ → Db → Db
abandon rid db = record db {
  settlements =
      update_where (is_open rid)
        (to_uncertain "Upstream result unavailable; reconcile before release") db.settlements;
}
