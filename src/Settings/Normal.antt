-- ===== src/Settings/Normal.antt =====
-- What the settings are normalized to, whatever was stored.

use five_api.Base.{
  ℕ, ◌≤◌, ◌≡◌, refl, String, true, Option, none, some, [], arith, length, Bool-cases, inl, inr,
}
use five_api.Base.Int.{ℤ}
use five_api.Base.Json.{
  Json, null, bool, int, float, str, arr, obj, or_null, find_field, get_field, fields_of,
}
use five_api.Routing.Order.{among}
use five_api.Settings.{
  Parsers, GatewayConfig, Environment, routing_strategies, clamp, clamp_int, default_gateway_config,
  normalize_fallbacks, clamp_threshold, threshold_of, normalize_downgrade, strategy_of,
  normalize_gateway, gateway_config,
}
use five_api.Settings.Shape.{GoodRule, GoodDowngrade, EachOf, Within, Table}
use five_api.Settings.Rules.{fallback_rules-Table, downgrade_rules-Table}

-- What the other modules may rely on.
pub record IsNormal (c : GatewayConfig) : Type 0 where
  pub retention : Within 0 3_650 c.log_retention_days
  pub health : Within 1 100 c.channel_health_threshold
  pub interval : Within 10 86_400 c.channel_health_check_interval
  pub ttl : Within 60 86_400 c.sticky_session_ttl
  pub strategy : among c.routing_strategy routing_strategies ≡ true
  pub fallbacks : EachOf GoodRule c.model_fallbacks
  pub fallbacks_count : length c.model_fallbacks ≤ 200
  pub threshold : Within 10 100 c.budget_downgrade.threshold
  pub downgrades : EachOf GoodDowngrade c.budget_downgrade.rules
  pub downgrades_count : length c.budget_downgrade.rules ≤ 200
  pub health_checks : Within 60 86_400 c.model_checks.health_interval_seconds
  pub capability_checks : Within 3_600 604_800 c.model_checks.capability_interval_seconds

clamp-Within :
    (number : Option ℤ) (default low high : ℕ)
    → Within low high default
    → low ≤ high
    → Within low high (clamp low high number default)
clamp-Within none default low high h k = h
clamp-Within (some z) default low high h k = (omega (arith, k), omega arith)

module _ (p : Parsers) where
  clamp_int-Within :
      (value : Json) (default low high : ℕ)
      → Within low high default
      → low ≤ high
      → Within low high (clamp_int p value default low high)
  unfolding clamp_int
  clamp_int-Within value default low high h k = clamp-Within (p.int_of value) default low high h k

  clamp_threshold-Within : (n : Option ℕ) → Within 10 100 (clamp_threshold n)
  clamp_threshold-Within none = (omega arith, omega arith)
  clamp_threshold-Within (some n) = (omega arith, omega arith)

  threshold_of-Within : (v : Option Json) → Within 10 100 (threshold_of p v)
  threshold_of-Within none = (omega arith, omega arith)
  threshold_of-Within (some v) = clamp_threshold-Within (p.hundredths_of v)

  strategy_of-known :
      (v : Json) (default : String)
      → among default routing_strategies ≡ true
      → among (strategy_of v default) routing_strategies ≡ true
  strategy_of-known (str s) default h = elim (Bool-cases (among s routing_strategies)) [
    | inl known ↦ rw known known
    | inr other ↦ rw other h
  ]
  strategy_of-known null default h = h
  strategy_of-known (bool b) default h = h
  strategy_of-known (int i) default h = h
  strategy_of-known (float s) default h = h
  strategy_of-known (arr xs) default h = h
  strategy_of-known (obj fs) default h = h

  -- A setting that falls back to what the environment sets.
  setting-Within :
      (value : Json) (set : ℤ) (default low high : ℕ)
      → Within low high default
      → low ≤ high
      → Within low high (clamp_int p value (clamp_int p (int set) default low high) low high)
  setting-Within value set default low high h k =
      clamp_int-Within value _ low high (clamp_int-Within (int set) default low high h k) k

  fallbacks-Table : (value : Json) → Table GoodRule 200 (normalize_fallbacks p value)
  unfolding normalize_fallbacks
  fallbacks-Table value = fallback_rules-Table p 200 0 (fields_of value) [] (tt, omega arith)

  downgrades-Table : (value : Json) → Table GoodDowngrade 200 (normalize_downgrade p value).rules
  unfolding normalize_downgrade
  downgrades-Table value =
      downgrade_rules-Table p 200 0 (fields_of (get_field "rules" (fields_of value))) []
        (tt, omega arith)

  downgrade-Within : (value : Json) → Within 10 100 (normalize_downgrade p value).threshold
  unfolding normalize_downgrade
  downgrade-Within value = threshold_of-Within (find_field "threshold" (fields_of value))

  normalize_gateway-IsNormal :
      (env : Environment) (value : Json) → IsNormal (normalize_gateway p env value)
  unfolding normalize_gateway default_gateway_config
  normalize_gateway-IsNormal env value =
      let raw = fields_of value in
      let checks = fields_of (get_field "model_checks" raw) in
      record {
        retention =
            setting-Within (get_field "log_retention_days" raw) env.retention_days 90 0 3_650
              (omega arith, omega arith) (omega arith);
        health =
            setting-Within (get_field "channel_health_threshold" raw) env.health_threshold 3 1 100
              (omega arith, omega arith) (omega arith);
        interval =
            setting-Within (get_field "channel_health_check_interval" raw) env.check_interval 60 10
              86_400 (omega arith, omega arith) (omega arith);
        ttl =
            setting-Within (get_field "sticky_session_ttl" raw) env.sticky_ttl 900 60 86_400
              (omega arith, omega arith) (omega arith);
        strategy = strategy_of-known (get_field "routing_strategy" raw) "weighted" refl;
        fallbacks = (fallbacks-Table (get_field "model_fallbacks" raw)).0;
        fallbacks_count = (fallbacks-Table (get_field "model_fallbacks" raw)).1;
        threshold = downgrade-Within (get_field "budget_downgrade" raw);
        downgrades = (downgrades-Table (get_field "budget_downgrade" raw)).0;
        downgrades_count = (downgrades-Table (get_field "budget_downgrade" raw)).1;
        health_checks =
            clamp_int-Within (get_field "health_interval_seconds" checks) 900 60 86_400
              (omega arith, omega arith) (omega arith);
        capability_checks =
            clamp_int-Within (get_field "capability_interval_seconds" checks) 86_400 3_600 604_800
              (omega arith, omega arith) (omega arith);
      }

  pub gateway_config-IsNormal :
      (env : Environment) (row : Option Json) → IsNormal (gateway_config p env row)
  unfolding gateway_config
  gateway_config-IsNormal env row = normalize_gateway-IsNormal env (or_null row)
