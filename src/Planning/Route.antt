-- ===== src/Planning/Route.antt =====
-- The plan of a request: backend/app/services/routing.py.

use five_api.Base.{ℕ, String, Option, some, List, Result, ok, err}
use five_api.Base.Json.{Json}
use five_api.Models.{ApiKey, Tenant, WindowLimits}
use five_api.Redis.{Redis}
use five_api.Settlements.Store.{Db}
use five_api.Pricing.Quotes.{Candidate}
use five_api.Routing.Order.{NoChannel}
use five_api.Routing.Fallbacks.{Calls, resolve_with_fallbacks}
use five_api.Settings.{GatewayConfig}
use five_api.Planning.Allowed.{get_effective_allowed_models}
use five_api.Planning.Budgets.{downgrade_target}
use five_api.Planning.Sessions.{SessionTexts, make_session_key, session_log_id, get_sticky_channel}

-- The headers and the mark of a downgrade are those of `downgraded_to`.
pub record RoutePlan : Type 0 where
  pub candidates : List Candidate
  pub session_key : Option String
  pub session_id : String
  pub downgraded_to : Option String

abbrev pub with_candidates :
    Option String
    → String
    → Option String
    → Result NoChannel (List Candidate)
    → Result NoChannel RoutePlan
with_candidates key id downgraded (err e) = err e
with_candidates key id downgraded (ok found) =
    ok (record {
      candidates = found;
      session_key = key;
      session_id = id;
      downgraded_to = downgraded;
    })

module _ (r : Redis) (t : SessionTexts) (limits_of : ApiKey → WindowLimits)
    (team_limits : Tenant → WindowLimits) (calls : Calls) where
  open r use {Store}

  -- `groups` are the model groups, and `cached` the tenant that was loaded with the key.
  unfoldable pub plan_route :
      GatewayConfig
      → List (ℕ × List String)
      → Option Tenant
      → ApiKey
      → String
      → String
      → (String → Option String)
      → Json
      → Db
      → ℕ
      → Store
      → Result NoChannel RoutePlan
  plan_route config groups cached k model protocol headers body db now s =
      let key = make_session_key t config.sticky_session_enabled k.id headers body in
      let allowed = get_effective_allowed_models groups cached db.tenants k in
      let downgraded =
        downgrade_target r limits_of team_limits config.budget_downgrade cached k model allowed db
          now s in
      with_candidates key (session_log_id t k.id headers body) downgraded (
        resolve_with_fallbacks calls config.model_fallbacks model (some protocol)
          (get_sticky_channel r key s) allowed downgraded k.channel_ids)
