-- ===== src/Planning/Examples.antt =====
-- A team that has used nine tenths of its quota is served a cheaper model, and a conversation keeps
-- its channel.
use five_api.Base.{
  ◌≡◌, refl, String, true, false, not, Option, none, some, List, [], ◌∷◌, ok, arith, count_where,
}
use five_api.Base.Json.{Json, str, arr, obj, cons, nil, Fields, field, end}
use five_api.Models.{Tenant, Channel, WindowLimits}
use five_api.Redis.{plain, no_keys}
use five_api.Samples.{calls, acme, robot, west, east, other, last_in_range}
use five_api.Settlements.Store.{Db, occupied}
use five_api.Routing.Order.{
  weighted_shuffle, shuffle_loop, pop_at, reached, promote_sticky, ordered_tier, ordered_tiers,
  half_open, in_order, resolve_candidates,
}
use five_api.Routing.Fallbacks.{found_at, gather, fallback_chain, resolve_with_fallbacks}
use five_api.Settings.{GatewayConfig, BudgetDowngrade}
use five_api.Planning.Allowed.{get_effective_allowed_models, check_model_access}
use five_api.Planning.Budgets.{
  pressure_of, owner_usages, budget_usages, budget_pressure, downgrade_target, rule_for, usable,
  under_pressure,
}
use five_api.Planning.Sessions.{
  SessionTexts, first_user, user_part, fingerprint_from_body, metadata_session, from_headers,
  session_identity, make_session_key, session_log_id, get_sticky_channel, bind_sticky_channel,
}
use five_api.Planning.Route.{RoutePlan, plan_route}
use five_api.Planning.Pressure.{some_reaches, downgrade_target-eq}
use five_api.Planning.Served.{may_be_used, plan_route-allowed}
use five_api.Planning.Steady.{Continues}
use five_api.Planning.Sticky.{primary_at, StartsAt, plan_route-StartsAt}

abbrev team : Tenant
team = record acme { quota_used = 900; allowed_models = "gpt-5.5" ∷ "gpt-4.1" ∷ [] }

abbrev tables : Db
tables = record { tenants = team ∷ []; keys = robot ∷ []; settlements = []; logs = []; next_id = 1 }

abbrev no_caps : WindowLimits
no_caps = record { five_hours = none; one_day = none; seven_days = none }

abbrev cheaper : BudgetDowngrade
cheaper = record { threshold = 80; rules = ("gpt-5.5", "gpt-4.1") ∷ [] }

abbrev config : GatewayConfig
config = record {
  log_retention_days = 90;
  channel_health_threshold = 3;
  channel_health_check_interval = 60;
  sticky_session_enabled = true;
  sticky_session_ttl = 900;
  routing_strategy = "weighted";
  model_fallbacks = [];
  auto_cache_control = false;
  budget_downgrade = cheaper;
  model_checks = record {
    health_enabled = true;
    health_interval_seconds = 900;
    capability_enabled = true;
    capability_interval_seconds = 86_400;
  };
}

abbrev allowed : Option (List String)
allowed = some ("gpt-5.5" ∷ "gpt-4.1" ∷ [])

downgrade_target-eq_example :
    downgrade_target plain
      (λ k. no_caps)
      (λ t. no_caps)
      cheaper
      (some team)
      robot
      "gpt-5.5"
      allowed
      tables
      0
      no_keys
    ≡ under_pressure
        (some_reaches 80 (
          budget_usages plain
            (λ k. no_caps)
            (λ t. no_caps)
            (some team)
            robot
            true
            tables
            0
            no_keys))
        (usable allowed (rule_for "gpt-5.5" cheaper.rules))
downgrade_target-eq_example =
    downgrade_target-eq plain (λ k. no_caps) (λ t. no_caps) cheaper (some team) robot "gpt-5.5"
      allowed tables 0 no_keys (omega arith)

downgraded :
    downgrade_target plain
      (λ k. no_caps)
      (λ t. no_caps)
      cheaper
      (some team)
      robot
      "gpt-5.5"
      allowed
      tables
      0
      no_keys
    ≡ some "gpt-4.1"
unfolding downgrade_target budget_pressure pressure_of budget_usages owner_usages occupied
downgraded = refl

abbrev texts : SessionTexts
texts = record {
  strip = λ s. s;
  dumps_sorted = λ v. "json";
  digest = λ ss. "digest";
  after_session = λ s. none;
  key_text = λ id s. s;
  show_id = λ id. "2";
}

abbrev no_header : String → Option String
no_header h = none

abbrev message : Json
message = obj (field "role" (str "user") (field "content" (str "hello") end))

abbrev asked : Fields
asked = field "messages" (arr (cons message nil)) end

abbrev answered : Fields
answered = field "messages" (arr (cons message (cons message nil))) end

goes_on : Continues asked answered
unfolding first_user
goes_on = record {
  messages = cons message nil;
  later = cons message nil;
  content = str "hello";
  same_metadata = refl;
  same_system = refl;
  before = refl;
  after = refl;
  asked = refl;
}

named : make_session_key texts true 2 no_header (obj asked) ≡ some "digest"
unfolding make_session_key session_identity from_headers metadata_session fingerprint_from_body
    user_part first_user
named = refl

-- The channels of the model in the order of a request without a session, the second one of which the
-- conversation was bound to.
abbrev ordered : List Channel
ordered = east ∷ west ∷ []

abbrev calm : Db
calm = record tables { tenants = acme ∷ [] }

served :
    found_at calls (some "openai") none robot.channel_ids 0 (
      primary_at plain texts
        (λ k. no_caps)
        (λ t. no_caps)
        calls
        config
        []
        (some acme)
        robot
        "gpt-5.5"
        "openai"
        no_header
        calm
        0
        (bind_sticky_channel plain (some "digest") 4 no_keys))
    ≡ ok ordered
unfolding downgrade_target budget_pressure pressure_of budget_usages owner_usages occupied
    get_effective_allowed_models bind_sticky_channel found_at resolve_candidates half_open in_order
    ordered_tiers ordered_tier weighted_shuffle shuffle_loop pop_at reached promote_sticky
served = refl

plan_route-StartsAt_example : StartsAt 4 (
    plan_route plain texts
      (λ k. no_caps)
      (λ t. no_caps)
      calls
      config
      []
      (some acme)
      robot
      "gpt-5.5"
      "openai"
      no_header
      (obj answered)
      calm
      0
      (bind_sticky_channel plain (some "digest") 4 no_keys))
plan_route-StartsAt_example =
    plan_route-StartsAt plain texts (λ k. no_caps) (λ t. no_caps) calls config [] (some acme) robot
      "gpt-5.5" "openai" no_header calm 0 asked answered "digest" 4 no_keys ordered named goes_on
      served (omega arith)

abbrev plan : RoutePlan
plan = record {
  candidates = record { channel = other; serving_model = some "gpt-4.1" } ∷ [];
  session_key = some "digest";
  session_id = "digest";
  downgraded_to = some "gpt-4.1";
}

may_ask : check_model_access [] (some team) tables.tenants robot "gpt-5.5" ≡ ok tt
unfolding check_model_access get_effective_allowed_models
may_ask = refl

made :
    plan_route plain texts
      (λ k. no_caps)
      (λ t. no_caps)
      calls
      config
      []
      (some team)
      robot
      "gpt-5.5"
      "openai"
      no_header
      (obj asked)
      tables
      0
      no_keys
    ≡ ok plan
unfolding plan_route make_session_key session_log_id session_identity from_headers metadata_session
    fingerprint_from_body user_part first_user get_effective_allowed_models downgrade_target
    budget_pressure pressure_of budget_usages owner_usages occupied get_sticky_channel
    resolve_with_fallbacks gather found_at fallback_chain resolve_candidates half_open in_order
    ordered_tiers ordered_tier weighted_shuffle shuffle_loop pop_at reached promote_sticky
made = refl

plan_route-allowed_example :
    count_where
      (λ c. not (
        may_be_used plain texts
          (λ k. no_caps)
          (λ t. no_caps)
          calls
          (λ i. last_in_range)
          (get_effective_allowed_models [] (some team) tables.tenants robot)
          "gpt-5.5"
          (some "openai")
          []
          c))
      plan.candidates
    ≡ 0
plan_route-allowed_example =
    plan_route-allowed plain texts (λ k. no_caps) (λ t. no_caps) calls (λ i. last_in_range) config
      [] (some team) robot "gpt-5.5" "openai" no_header (obj asked) tables 0 no_keys plan may_ask
      made
