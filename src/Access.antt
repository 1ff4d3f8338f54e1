-- ===== src/Access.antt =====
-- Which key may call: authenticate_api_key and check_key_tenant of backend/app/services/auth.py, and
-- backend/app/utils/ip_check.py.
pub mod Granted
mod Examples
use mathlib.Core.Option
use five_api.Base.{
  ℕ, Bool, true, false, not, ◌||◌, Option, none, some, String, List, [], ◌∷◌, str_eq, ltb, ◌==◌,
  if◌then◌else◌, Result, ok, err, find_first,
}
use five_api.Models.{Tenant, ApiKey}
use five_api.Redis.{Redis, key, tenant}
use five_api.Limits.Rate.{check_rpm}

-- The codes of the 401, 403 and 429 answers.
pub data Rejected : Type 0 where
  missing_key invalid_api_key key_disabled key_expired ip_not_allowed tenant_disabled : Rejected
  rpm_limit tenant_rpm_limit : Rejected

-- Python's `ipaddress`: whether an address parses, and whether it is in the network of an entry, `none`
-- being a ValueError.
module _ (is_address : String → Bool) (in_network : String → String → Option Bool) where
  unfoldable pub in_some_network : List String → String → Bool
  in_some_network [] client_ip = false
  in_some_network (entry ∷ entries) client_ip =
      let rest = in_some_network entries client_ip in
      elim (in_network entry client_ip) [ none ↦ rest | some true ↦ true | some false ↦ rest ]

  unfoldable pub check_ip_allowed : List String → String → Bool
  unfolding in_some_network
  check_ip_allowed [] client_ip = true
  check_ip_allowed (entry ∷ entries) client_ip =
      if is_address client_ip then in_some_network (entry ∷ entries) client_ip else false

-- `expires_at` before now.
abbrev pub is_expired : Option ℕ → ℕ → Bool
is_expired none now = false
is_expired (some t) now = ltb t now

abbrev pub find_enabled : ℕ → List Tenant → Option Tenant
find_enabled id tenants = elim (find_first (λ t. t.id == id) tenants) [
  | none ↦ none
  | some t ↦ if t.is_enabled then some t else none
]

-- `cached` is the tenant that was loaded when the key was authenticated.
abbrev pub key_tenant : Option Tenant → List Tenant → ApiKey → Option Tenant
key_tenant none tenants k = find_enabled k.tenant_id tenants
key_tenant (some t) tenants k = some t

module _ (r : Redis) where
  open r use {Store}

  -- The store afterwards, and the tenant or the refusal.
  unfoldable pub check_key_tenant : List Tenant → ApiKey → Store → Store × Result Rejected Tenant
  check_key_tenant tenants k s = elim (find_enabled k.tenant_id tenants) [
    | none ↦ (s, err tenant_disabled)
    | some t ↦
        let by_key = check_rpm r key k.id k.rpm_limit s in
        let by_tenant = check_rpm r tenant t.id t.rpm_limit by_key.0 in
        if by_key.1
        then (by_tenant.0, if by_tenant.1 then ok t else err tenant_rpm_limit)
        else (by_key.0, err rpm_limit)
  ]

  -- `key_of` hashes a raw key and looks its row up; `allowed` is `check_ip_allowed` for the client.
  unfoldable pub authenticate_api_key :
      (String → Option ApiKey)
      → (List String → Bool)
      → List Tenant
      → ℕ
      → String
      → Store
      → Store × Result Rejected (ApiKey × Tenant)
  unfolding check_key_tenant
  authenticate_api_key key_of allowed tenants now raw_key s =
      if str_eq raw_key "" then (s, err missing_key) else elim (key_of raw_key) [
        | none ↦ (s, err invalid_api_key)
        | some k ↦
            if not k.is_enabled || k.is_revoked
            then (s, err key_disabled)
            else if is_expired k.expires_at now
            then (s, err key_expired)
            else if not (allowed k.allowed_ips)
            then (s, err ip_not_allowed)
            else (let (s', answer) = check_key_tenant tenants k s in
                (s', elim answer [ ok t ↦ ok (k, t) | err e ↦ err e ]))
      ]
