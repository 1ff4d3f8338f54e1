-- ===== src/Planning/Budgets.antt =====
-- How far the budgets of a key are used, and the switch to a cheaper model:
-- backend/app/services/budget_usage.py and downgrade.py.

use five_api.Base.{
  ℕ, suc, zero, ◌+◌, ◌*◌, String, Bool, true, false, Option, none, some, List, [], ◌∷◌, ◌++◌,
  if◌then◌else◌, ltb, str_eq,
}
use five_api.Base.Int.{ℤ, pos, negsuc, pos_part}
use five_api.Base.Json.{is_empty}
use five_api.Models.{ApiKey, Tenant, WindowLimits}
use five_api.Redis.{Redis, Scope, key, tenant}
use five_api.Limits.Windows.{Window, five_hours, one_day, seven_days, window_spend}
use five_api.Settlements.Store.{Db, occupied, find_tenant}
use five_api.Routing.Fallbacks.{may_fall_back}
use five_api.Settings.{BudgetDowngrade}

-- A budget that is capped: the quota where it has no window. Amounts are in millionths.
pub record BudgetUsage : Type 0 where
  pub scope : Scope
  pub owner_id : ℕ
  pub budget : Option Window
  pub used : ℕ
  pub limit : ℕ

-- A share is compared as an exact fraction, where the source divides floats.
pub record Share : Type 0 where
  pub part : ℕ
  pub whole : ℕ

abbrev pub share : BudgetUsage → Share
share u = elim u.limit [
  | zero ↦ record { part = 1; whole = 1 }
  | suc n ↦ record { part = u.used; whole = suc n }
]

abbrev pub is_below : Share → Share → Bool
is_below a b = ltb (a.part * b.whole) (b.part * a.whole)

-- `max`, which keeps the first of the greatest.
abbrev pub highest : Share → List BudgetUsage → Share
highest a [] = a
highest a (u ∷ us) = highest (if is_below a (share u) then share u else a) us

unfoldable pub pressure_of : List BudgetUsage → Share
pressure_of [] = record { part = 0; whole = 1 }
pressure_of (u ∷ us) = highest (share u) us

-- `downgrade["threshold"]`, in hundredths.
abbrev pub reaches : ℕ → Share → Bool
reaches threshold s = if ltb (100 * s.part) (threshold * s.whole) then false else true

abbrev pub quota_usage : Scope → ℕ → ℤ → ℕ → List BudgetUsage
quota_usage scope id (pos total) used =
    record { scope = scope; owner_id = id; budget = none; used = used; limit = total } ∷ []
quota_usage scope id (negsuc n) used = []

abbrev pub cap_usage : Scope → ℕ → Window → Option ℕ → ℕ → List BudgetUsage
cap_usage scope id w none used = []
cap_usage scope id w (some cap) used =
    record { scope = scope; owner_id = id; budget = some w; used = used; limit = cap } ∷ []

-- `target and target allowed`
abbrev pub rule_for : String → List (String × String) → Option String
rule_for model [] = none
rule_for model (rule ∷ rules) =
    let later = rule_for model rules in if str_eq rule.0 model then some rule.1 else later

-- The rule for the model, if its target is no empty name and the key may use it.
abbrev pub usable : Option (List String) → Option String → Option String
usable allowed none = none
usable allowed (some target) =
    if is_empty target then none else if may_fall_back allowed target then some target else none

abbrev pub under_pressure : Bool → Option String → Option String
under_pressure pressed none = none
under_pressure pressed (some target) = if pressed then some target else none

-- `limits_of` and `team_limits` are `normalize_limits` of a row's JSON.
module _ (r : Redis) (limits_of : ApiKey → WindowLimits) (team_limits : Tenant → WindowLimits) where
  open r use {Store}

  -- What is spent in a window; a sum below 0 counts as 0, which is below any threshold too.
  abbrev pub spent : Scope → ℕ → ℕ → Store → Window → ℕ
  spent scope id now s w = pos_part (window_spend r scope id now w s)

  unfoldable pub owner_usages : Scope → ℕ → ℤ → ℕ → WindowLimits → ℕ → ℕ → Store → List BudgetUsage
  owner_usages scope id total quota_used caps held now s =
      quota_usage scope id total (quota_used + held)
      ++ cap_usage scope id five_hours caps.five_hours (spent scope id now s five_hours + held)
      ++ cap_usage scope id one_day caps.one_day (spent scope id now s one_day + held)
      ++ cap_usage scope id seven_days caps.seven_days (spent scope id now s seven_days + held)

  -- `held` where requests in flight count.
  abbrev pub held_by : Bool → Scope → ℕ → Db → ℕ
  held_by include_in_flight scope id db =
      let held = occupied scope id db.settlements in if include_in_flight then held else 0

  abbrev pub team_of : ℕ → Option Tenant → Db → Option Tenant
  team_of zero cached db = none
  team_of (suc id) none db = find_tenant (suc id) db
  team_of (suc id) (some t) db = some t

  abbrev pub team_usages : Option Tenant → Bool → Db → ℕ → Store → List BudgetUsage
  team_usages none flight db now s = []
  team_usages (some t) flight db now s =
      owner_usages tenant t.id t.quota_total t.quota_used (team_limits t)
        (held_by flight tenant t.id db) now s

  unfoldable pub budget_usages : Option Tenant → ApiKey → Bool → Db → ℕ → Store → List BudgetUsage
  unfolding owner_usages
  budget_usages cached k flight db now s =
      owner_usages key k.id k.quota_total k.quota_used (limits_of k) (held_by flight key k.id db)
        now s
      ++ team_usages (team_of k.tenant_id cached db) flight db now s

  unfoldable pub budget_pressure : Option Tenant → ApiKey → Db → ℕ → Store → Share
  unfolding pressure_of budget_usages
  budget_pressure cached k db now s = pressure_of (budget_usages cached k true db now s)

  unfoldable pub downgrade_target :
      BudgetDowngrade
      → Option Tenant
      → ApiKey
      → String
      → Option (List String)
      → Db
      → ℕ
      → Store
      → Option String
  unfolding budget_pressure
  downgrade_target config cached k model allowed db now s =
      under_pressure (reaches config.threshold (budget_pressure cached k db now s))
        (usable allowed (rule_for model config.rules))
