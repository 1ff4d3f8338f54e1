-- ===== src/Settings.antt =====
-- The settings of the gateway: backend/app/services/settings_service.py.
pub mod Shape
mod Rules
mod Normal
mod Targets
mod Examples
use five_api.Base.{
  ℕ, suc, zero, min, max, String, Bool, true, false, not, ◌&&◌, Option, none, some, List, [], ◌∷◌,
  ◌++◌, str_eq, if◌then◌else◌, take,
}
use five_api.Base.Int.{ℤ, pos, pos_part}
use five_api.Base.Json.{
  Json, null, bool, int, str, arr, obj, Items, nil, cons, Fields, end, field, is_empty, truthy,
  find_field, get_field, fields_of, or_null, or_else,
}
use five_api.Failover.Texts.{Texts}
use five_api.Routing.Order.{among}

-- The threshold is in hundredths.
pub record BudgetDowngrade : Type 0 where
  pub threshold : ℕ
  pub rules : List (String × String)

pub record ModelChecks : Type 0 where
  pub health_enabled : Bool
  pub health_interval_seconds : ℕ
  pub capability_enabled : Bool
  pub capability_interval_seconds : ℕ

pub record GatewayConfig : Type 0 where
  pub log_retention_days : ℕ
  pub channel_health_threshold : ℕ
  pub channel_health_check_interval : ℕ
  pub sticky_session_enabled : Bool
  pub sticky_session_ttl : ℕ
  pub routing_strategy : String
  pub model_fallbacks : List (String × List String)
  pub auto_cache_control : Bool
  pub budget_downgrade : BudgetDowngrade
  pub model_checks : ModelChecks

-- What the environment sets, in config.py.
pub record Environment : Type 0 where
  pub retention_days : ℤ
  pub health_threshold : ℤ
  pub check_interval : ℤ
  pub sticky_enabled : Bool
  pub sticky_ttl : ℤ

abbrev pub routing_strategies : List String
routing_strategies = "weighted" ∷ "least_busy" ∷ "latency" ∷ []

abbrev pub take_fields : ℕ → Fields → Fields
take_fields zero fs = end
take_fields (suc n) end = end
take_fields (suc n) (field k v fs) = field k v (take_fields n fs)

-- `rules[name] = value`
abbrev pub put_rule : {V : Type 0} → String → V → List (String × V) → List (String × V)
put_rule name v [] = (name, v) ∷ []
put_rule name v (e ∷ d) =
    let rest = put_rule name v d in if str_eq e.0 name then (name, v) ∷ d else e ∷ rest

-- `raw.get(name, default)` as a truth value.
abbrev pub flag : String → Bool → Fields → Bool
flag name default fs = elim (find_field name fs) [ none ↦ default | some v ↦ truthy v ]

-- The bounds are not negative, so that a negative number is clamped as 0 is.
abbrev pub clamp : ℕ → ℕ → Option ℤ → ℕ → ℕ
clamp low high none default = default
clamp low high (some number) default = min (max (pos_part number) low) high

abbrev pub add_target : String → String → List String → List String
add_target name target chain =
    if not (is_empty target) && (not (str_eq target name) && not (among target chain))
    then chain ++ target ∷ []
    else chain

abbrev pub with_chain :
    String → List String → List (String × List String) → List (String × List String)
with_chain name [] rules = rules
with_chain name (target ∷ targets) rules = put_rule name (take 5 (target ∷ targets)) rules

abbrev pub add_downgrade : String → String → List (String × String) → List (String × String)
add_downgrade name target rules =
    if not (is_empty name) && (not (is_empty target) && not (str_eq name target))
    then put_rule name target rules
    else rules

-- Rounding is monotone and keeps the bounds, so that it may come before the clamping.
abbrev pub clamp_threshold : Option ℕ → ℕ
clamp_threshold none = 80
clamp_threshold (some n) = min (max n 10) 100

abbrev pub strategy_of : Json → String → String
strategy_of (str s) default = if among s routing_strategies then s else default
strategy_of _ default = default

-- Python's functions on texts; `int_of` is `int(value)` and `hundredths_of` the hundredths that
-- `float(value)` is rounded to, what is negative counting as 0; `none` is a TypeError or ValueError.
pub record Parsers : Type 0 where
  pub texts : Texts
  pub int_of : Json → Option ℤ
  pub hundredths_of : Json → Option ℕ

module _ (p : Parsers) where
  unfoldable pub clamp_int : Json → ℕ → ℕ → ℕ → ℕ
  clamp_int value default low high = clamp low high (p.int_of value) default

  unfoldable pub default_gateway_config : Environment → GatewayConfig
  unfolding clamp_int
  default_gateway_config env = record {
    log_retention_days = clamp_int (int env.retention_days) 90 0 3_650;
    channel_health_threshold = clamp_int (int env.health_threshold) 3 1 100;
    channel_health_check_interval = clamp_int (int env.check_interval) 60 10 86_400;
    sticky_session_enabled = env.sticky_enabled;
    sticky_session_ttl = clamp_int (int env.sticky_ttl) 900 60 86_400;
    routing_strategy = "weighted";
    model_fallbacks = [];
    auto_cache_control = false;
    budget_downgrade = record { threshold = 80; rules = [] };
    model_checks = record {
      health_enabled = true;
      health_interval_seconds = 900;
      capability_enabled = true;
      capability_interval_seconds = 86_400;
    };
  }

  unfoldable pub model_name : Json → String
  model_name value =
      p.texts.first_chars (p.texts.join_words (p.texts.show (or_else value (str "")))) 64

  unfoldable pub chain_of : String → Items → List String → List String
  chain_of name nil chain = chain
  chain_of name (cons target targets) chain =
      chain_of name targets (add_target name (model_name target) chain)

  abbrev pub add_fallback :
      String → Json → List (String × List String) → List (String × List String)
  add_fallback name (arr targets) rules =
      if is_empty name then rules else with_chain name (chain_of name targets []) rules
  add_fallback name _ rules = rules

  unfoldable pub fallback_rules : Fields → List (String × List String) → List (String × List String)
  unfolding chain_of
  fallback_rules end rules = rules
  fallback_rules (field source targets rest) rules =
      fallback_rules rest (add_fallback (model_name (str source)) targets rules)

  -- What is no dictionary has no fields, and so no rules.
  unfoldable pub normalize_fallbacks : Json → List (String × List String)
  unfolding fallback_rules
  normalize_fallbacks value = fallback_rules (take_fields 200 (fields_of value)) []

  unfoldable pub downgrade_rules : Fields → List (String × String) → List (String × String)
  downgrade_rules end rules = rules
  downgrade_rules (field source target rest) rules =
      downgrade_rules rest (add_downgrade (model_name (str source)) (model_name target) rules)

  abbrev pub threshold_of : Option Json → ℕ
  threshold_of none = 80
  threshold_of (some v) = clamp_threshold (p.hundredths_of v)

  unfoldable pub normalize_downgrade : Json → BudgetDowngrade
  unfolding downgrade_rules
  normalize_downgrade value =
      let raw = fields_of value in
      record {
        threshold = threshold_of (find_field "threshold" raw);
        rules = downgrade_rules (take_fields 200 (fields_of (get_field "rules" raw))) [];
      }

  unfoldable pub normalize_gateway : Environment → Json → GatewayConfig
  unfolding default_gateway_config clamp_int
  normalize_gateway env value =
      let defaults = default_gateway_config env in
      let raw = fields_of value in
      let checks = fields_of (get_field "model_checks" raw) in
      record {
        log_retention_days =
            clamp_int (get_field "log_retention_days" raw) defaults.log_retention_days 0 3_650;
        channel_health_threshold =
            clamp_int (get_field "channel_health_threshold" raw) defaults.channel_health_threshold 1
              100;
        channel_health_check_interval =
            clamp_int (get_field "channel_health_check_interval" raw)
              defaults.channel_health_check_interval 10 86_400;
        sticky_session_enabled = flag "sticky_session_enabled" defaults.sticky_session_enabled raw;
        sticky_session_ttl =
            clamp_int (get_field "sticky_session_ttl" raw) defaults.sticky_session_ttl 60 86_400;
        routing_strategy = strategy_of (get_field "routing_strategy" raw) defaults.routing_strategy;
        model_fallbacks = normalize_fallbacks (get_field "model_fallbacks" raw);
        auto_cache_control = flag "auto_cache_control" defaults.auto_cache_control raw;
        budget_downgrade = normalize_downgrade (get_field "budget_downgrade" raw);
        model_checks = record {
          health_enabled = flag "health_enabled" true checks;
          health_interval_seconds =
              clamp_int (get_field "health_interval_seconds" checks) 900 60 86_400;
          capability_enabled = flag "capability_enabled" true checks;
          capability_interval_seconds =
              clamp_int (get_field "capability_interval_seconds" checks) 86_400 3_600 604_800;
        };
      }

  -- The row of the table, which may be missing; the two-second cache is taken as a read of it.
  unfoldable pub gateway_config : Environment → Option Json → GatewayConfig
  unfolding normalize_gateway
  gateway_config env row = normalize_gateway env (or_null row)
