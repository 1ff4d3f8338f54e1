-- ===== src/Settlements/Store.antt =====
-- The tables that accounting reads and writes. A transaction that raises changes nothing.
use five_api.Base.{ℕ, Bool, true, false, ◌&&◌, Option, List, ◌==◌, find_first, sum_where}
use five_api.Models.{
  Tenant, ApiKey, Settlement, State, reserved, pending, failed, uncertain, released, settled,
  Payload,
}
use five_api.Redis.{Scope, key, tenant}

-- Rows stand in the order of their ids; `next_id` is the next id that the database gives.
pub record Db : Type 0 where
  pub tenants : List Tenant
  pub keys : List ApiKey
  pub settlements : List Settlement
  pub logs : List Payload
  pub next_id : ℕ

-- OCCUPIED_STATES
abbrev pub occupies : State → Bool
occupies reserved = true
occupies pending = true
occupies failed = true
occupies uncertain = true
occupies released = false
occupies settled = false

abbrev pub is_reserved : State → Bool
is_reserved reserved = true
is_reserved _ = false

abbrev pub is_pending : State → Bool
is_pending pending = true
is_pending _ = false

abbrev pub is_settled : State → Bool
is_settled settled = true
is_settled _ = false

abbrev pub owner_of : Scope → Settlement → ℕ
owner_of tenant s = s.tenant_id
owner_of key s = s.api_key_id

-- `settlements.occupied`: what the reservations of an owner still hold.
unfoldable pub occupied : Scope → ℕ → List Settlement → ℕ
occupied scope owner =
    sum_where (λ s. (owner_of scope s == owner) && occupies s.state) (λ s. s.occupied)

abbrev pub find_tenant : ℕ → Db → Option Tenant
find_tenant i db = find_first (λ t. t.id == i) db.tenants

abbrev pub find_key : ℕ → Db → Option ApiKey
find_key i db = find_first (λ k. k.id == i) db.keys

abbrev pub find_request : ℕ → Db → Option Settlement
find_request rid db = find_first (λ s. s.request_id == rid) db.settlements

abbrev pub find_record : ℕ → Db → Option Settlement
find_record i db = find_first (λ s. s.id == i) db.settlements
