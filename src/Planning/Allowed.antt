-- ===== src/Planning/Allowed.antt =====
-- The models that a key may use: backend/app/services/pre_checks.py.

use five_api.Base.{
  ℕ, suc, zero, String, Option, none, some, List, [], ◌∷◌, keep_if, lookup, Result, raise_if, not,
}
use five_api.Models.{ApiKey, Tenant}
use five_api.Access.{key_tenant}
use five_api.Routing.Order.{among}
use five_api.Routing.Fallbacks.{may_fall_back}

-- `models or None`
abbrev pub or_none : List String → Option (List String)
or_none [] = none
or_none (m ∷ ms) = some (m ∷ ms)

-- The models of both lists, where there is a first one.
abbrev pub in_both : Option (List String) → List String → List String
in_both none models = models
in_both (some effective) models = keep_if (λ m. among m models) effective

-- The model groups by their identifiers; an identifier of 0 is none.
abbrev pub by_group :
    List (ℕ × List String) → Option ℕ → Option (List String) → Option (List String)
by_group groups none effective = effective
by_group groups (some zero) effective = effective
by_group groups (some (suc id)) effective = elim (lookup (suc id) groups) [
  | none ↦ some []
  | some models ↦ some (in_both effective models)
]

abbrev pub by_tenant : List String → Option (List String) → Option (List String)
by_tenant [] effective = effective
by_tenant (m ∷ ms) effective = some (in_both effective (m ∷ ms))

abbrev pub of_tenant : Option Tenant → Option (List String) → Option (List String)
of_tenant none effective = some []
of_tenant (some t) effective = by_tenant t.allowed_models effective

-- `none` is no restriction.
unfoldable pub get_effective_allowed_models :
    List (ℕ × List String) → Option Tenant → List Tenant → ApiKey → Option (List String)
get_effective_allowed_models groups cached tenants k =
    of_tenant (key_tenant cached tenants k)
      (by_group groups k.model_group_id (or_none k.allowed_models))

pub data Denied : Type 0 where
  model_not_allowed : Denied

unfoldable pub check_model_access :
    List (ℕ × List String)
    → Option Tenant
    → List Tenant
    → ApiKey
    → String
    → Result Denied (Unit {0})
unfolding get_effective_allowed_models
check_model_access groups cached tenants k model =
    raise_if (not (may_fall_back (get_effective_allowed_models groups cached tenants k) model))
      model_not_allowed
