-- ===== src/Planning/Served.antt =====
-- A plan serves no model that the key may not use.

use mathlib.Core.Path.{subst}
use five_api.Base.{
  ℕ, ◌<◌, ◌≡◌, refl, sym, ap, ◌∙◌, String, Bool, true, false, ◌&&◌, ◌||◌, not, Option, none, some,
  List, arith, str_eq, eq_iff, length, count_where, Result, ok, err, if◌then◌else◌, Bool-cases, inl,
  inr, raise_if,
}
use five_api.Base.Json.{Json, is_empty}
use five_api.Models.{ApiKey, Tenant, Channel, WindowLimits}
use five_api.Redis.{Redis}
use five_api.Settlements.Store.{Db}
use five_api.Pricing.Quotes.{Candidate, target_model}
use five_api.Routing.Order.{NoChannel, among, may_serve}
use five_api.Routing.Fallbacks.{Calls, primary_model, targets_of, may_fall_back}
use five_api.Routing.Counts.{count_where-weaken}
use five_api.Routing.Planned.{
  may_answer, may_be_served, override_may_be_served, resolve_with_fallbacks-serve,
}
use five_api.Settings.{GatewayConfig}
use five_api.Planning.Allowed.{model_not_allowed, get_effective_allowed_models, check_model_access}
use five_api.Planning.Budgets.{
  budget_pressure, reaches, rule_for, usable, under_pressure, downgrade_target,
}
use five_api.Planning.Sessions.{SessionTexts}
use five_api.Planning.Route.{RoutePlan, with_candidates, plan_route}

primary-either :
    (allowed : Option (List String)) (model target : String) (b : Bool)
    → may_fall_back allowed model ≡ true
    → may_fall_back allowed target ≡ true
    → may_fall_back allowed (elim (if b then none else some target) [ none ↦ model | some s ↦ s ])
      ≡ true
primary-either allowed model target true h k = h
primary-either allowed model target false h k = k

-- What the key is served in place of the model it asked for.
primary-allowed :
    (allowed : Option (List String)) (model : String) (serve_as : Option String)
    → may_fall_back allowed model ≡ true
    → ((target : String) → serve_as ≡ some target → may_fall_back allowed target ≡ true)
    → may_fall_back allowed (primary_model model serve_as) ≡ true
primary-allowed allowed model none h k = h
primary-allowed allowed model (some target) h k =
    primary-either allowed model target (is_empty target) h (k target refl)

last_holds : (a b c d : Bool) → (a || (b && (c && d))) ≡ true → a ≡ false → d ≡ true
last_holds a b c d h k = ground (arith, h, k)

both_hold : (a b : Bool) → not (a && b) ≡ false → (a ≡ true) × (b ≡ true)
both_hold a b h = (ground (arith, h), ground (arith, h))

not-both : (a b : Bool) → a ≡ true → b ≡ true → not (a && b) ≡ false
not-both a b h k = ground (arith, h, k)

served-allowed :
    (rules : List (String × List String)) (model : String) (serve_as : Option String)
    (allowed : Option (List String)) (target : String)
    → may_fall_back allowed (primary_model model serve_as) ≡ true
    → may_be_served rules model serve_as allowed target ≡ true
    → may_fall_back allowed target ≡ true
served-allowed rules model serve_as allowed target h k =
    elim (Bool-cases (str_eq target (primary_model model serve_as))) [
      | inl same ↦
          let is_primary : target ≡ primary_model model serve_as =
            ground (arith, eq_iff target (primary_model model serve_as), same) in
          ap (may_fall_back allowed) is_primary ∙ h
      | inr other ↦
          last_holds (str_eq target (primary_model model serve_as))
            (among target (targets_of (primary_model model serve_as) rules))
            (not (str_eq target model)) (may_fall_back allowed target) k other
    ]

override-allowed :
    (rules : List (String × List String)) (model : String) (serve_as : Option String)
    (allowed : Option (List String)) (ch : Channel) (serving : Option String)
    → may_fall_back allowed model ≡ true
    → may_fall_back allowed (primary_model model serve_as) ≡ true
    → override_may_be_served rules model serve_as allowed serving ≡ true
    → may_fall_back allowed (target_model (record { channel = ch; serving_model = serving }) model)
      ≡ true
override-allowed rules model serve_as allowed ch none h k served = h
override-allowed rules model serve_as allowed ch (some target) h k served =
    served-allowed rules model serve_as allowed target k served

picked :
    (pressed empty may : Bool) (t target : String)
    → under_pressure pressed (if empty then none else if may then some t else none) ≡ some target
    → (t ≡ target) × (may ≡ true)
picked true false true t target h = (cc, refl)
picked true true may t target h = cc
picked true false false t target h = cc
picked false true may t target h = cc
picked false false true t target h = cc
picked false false false t target h = cc

-- The target of a downgrade is one that the key may use.
under_pressure-allowed :
    (allowed : Option (List String)) (pressed : Bool) (rule : Option String) (target : String)
    → under_pressure pressed (usable allowed rule) ≡ some target
    → may_fall_back allowed target ≡ true
under_pressure-allowed allowed pressed none target h = cc
under_pressure-allowed allowed pressed (some t) target h =
    let (same, may) = picked pressed (is_empty t) (may_fall_back allowed t) t target h in
    ap (may_fall_back allowed) (sym same) ∙ may

passed : (b : Bool) → raise_if (not b) model_not_allowed ≡ ok tt → b ≡ true
passed true h = refl
passed false h = cc

check_model_access-allowed :
    (groups : List (ℕ × List String)) (cached : Option Tenant) (tenants : List Tenant) (k : ApiKey)
    (model : String)
    → check_model_access groups cached tenants k model ≡ ok tt
    → may_fall_back (get_effective_allowed_models groups cached tenants k) model ≡ true
unfolding check_model_access
check_model_access-allowed groups cached tenants k model h = passed _ h

with_candidates-lem :
    (P : List Candidate → Type 0) (key : Option String) (id : String) (downgraded : Option String)
    (answer : Result NoChannel (List Candidate)) (plan : RoutePlan)
    → ((found : List Candidate) → answer ≡ ok found → P found)
    → with_candidates key id downgraded answer ≡ ok plan
    → P plan.candidates
with_candidates-lem P key id downgraded (err e) plan h k = cc
with_candidates-lem P key id downgraded (ok found) plan h k =
    let same : record {
      candidates = found;
      session_key = key;
      session_id = id;
      downgraded_to = downgraded;
    }
        ≡ plan =
      cc in
    subst (λ (p : RoutePlan). P p.candidates) same (h found refl)

module _ (r : Redis) (t : SessionTexts) (limits_of : ApiKey → WindowLimits)
    (team_limits : Tenant → WindowLimits) (calls : Calls)
    (in_range : (i : ℕ) (chs : List Channel)
      → 0 < length chs
      → calls.randrange i chs < length chs) where
  open r use {Store}

  -- The key may use the model that the candidate serves, and the channel may serve it.
  abbrev pub may_be_used : Option (List String) → String → Option String → List ℕ → Candidate → Bool
  may_be_used allowed model protocol ids c =
      may_fall_back allowed (target_model c model)
      && may_serve (target_model c model) protocol ids c.channel

  may_answer-may_be_used :
      (rules : List (String × List String)) (model : String) (serve_as : Option String)
      (allowed : Option (List String)) (p : Option String) (ids : List ℕ) (c : Candidate)
      → may_fall_back allowed model ≡ true
      → may_fall_back allowed (primary_model model serve_as) ≡ true
      → not (may_answer calls in_range rules model serve_as allowed p ids c) ≡ false
      → not (may_be_used allowed model p ids c) ≡ false
  may_answer-may_be_used rules model serve_as allowed p ids c h k answers =
      let (serves, may) =
        both_hold (may_serve (target_model c model) p ids c.channel)
          (override_may_be_served rules model serve_as allowed c.serving_model) answers in
      not-both (may_fall_back allowed (target_model c model))
        (may_serve (target_model c model) p ids c.channel)
        (override-allowed rules model serve_as allowed c.channel c.serving_model h k may) serves

  -- Where the key may use the requested model, every candidate of the plan of a request serves a
  -- model that the key, its group and its tenant may use, whatever budget downgrade, fallbacks and
  -- sticky channel apply, on a channel that may serve it.
  pub plan_route-allowed :
      (config : GatewayConfig) (groups : List (ℕ × List String)) (cached : Option Tenant)
      (k : ApiKey) (model protocol : String) (headers : String → Option String) (body : Json)
      (db : Db) (now : ℕ) (s : Store) (plan : RoutePlan)
      → check_model_access groups cached db.tenants k model ≡ ok tt
      → plan_route r t limits_of team_limits calls config groups cached k model protocol headers
          body db now s
        ≡ ok plan
      → count_where
          (λ c. not (
            may_be_used
              (get_effective_allowed_models groups cached db.tenants k)
              model
              (some protocol)
              k.channel_ids
              c))
          plan.candidates
        ≡ 0
  unfolding plan_route downgrade_target
  plan_route-allowed config groups cached k model protocol headers body db now s plan access h =
      let allowed = get_effective_allowed_models groups cached db.tenants k in
      let downgraded =
        downgrade_target r limits_of team_limits config.budget_downgrade cached k model allowed db
          now s in
      let may = check_model_access-allowed groups cached db.tenants k model access in
      let may_primary = primary-allowed allowed model downgraded may (λ target.
        under_pressure-allowed allowed
          (reaches config.budget_downgrade.threshold
            (budget_pressure r limits_of team_limits cached k db now s))
          (rule_for model config.budget_downgrade.rules) target) in
      with_candidates-lem
        (λ found.
          count_where (λ c. not (may_be_used allowed model (some protocol) k.channel_ids c)) found
          ≡ 0)
        _ _ downgraded _ plan
        (λ found answered.
          count_where-weaken (λ c. not (may_be_used allowed model (some protocol) k.channel_ids c))
            (λ c. not (
              may_answer calls in_range config.model_fallbacks model downgraded allowed
                (some protocol) k.channel_ids c))
            found
            (λ c.
              may_answer-may_be_used config.model_fallbacks model downgraded allowed (some protocol)
                k.channel_ids c may may_primary)
            (resolve_with_fallbacks-serve calls in_range config.model_fallbacks model downgraded
              allowed (some protocol) _ k.channel_ids found answered))
        h
