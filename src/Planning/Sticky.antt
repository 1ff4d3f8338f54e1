-- ===== src/Planning/Sticky.antt =====
-- A conversation is served first by the channel of its session: _promote_sticky of
-- backend/app/providers/registry.py under plan_route of backend/app/services/routing.py.

use mathlib.Core.Path.{subst}
use five_api.Base.{
  ℕ, suc, zero, ◌<◌, ◌≡◌, refl, sym, ap, String, Option, none, some, List, [], ◌∷◌, ◌++◌, map,
  arith, ◌==◌, count_where, keep_if, Result, ok, err, Option-cases, inl, inr,
}
use five_api.Base.Json.{obj, Fields}
use five_api.Models.{ApiKey, Tenant, Channel, WindowLimits}
use five_api.Redis.{Redis}
use five_api.Settlements.Store.{Db}
use five_api.Pricing.Quotes.{Candidate}
use five_api.Routing.Order.{
  NoChannel, index_of, pop_at, promote_sticky, routed, in_order, half_open, may_serve,
  resolve_candidates,
}
use five_api.Routing.Fallbacks.{
  Calls, given, primary_model, fallback_chain, override_at, served_by, first_of, unless_none,
  found_at, gather, resolve_with_fallbacks,
}
use five_api.Routing.Planned.{after_found-both}
use five_api.Settings.{GatewayConfig}
use five_api.Planning.Allowed.{get_effective_allowed_models}
use five_api.Planning.Budgets.{downgrade_target}
use five_api.Planning.Sessions.{SessionTexts, make_session_key, bind_sticky_channel}
use five_api.Planning.Route.{RoutePlan, with_candidates, plan_route}
use five_api.Planning.Steady.{Continues, make_session_key-Continues}

abbrev has : ℕ → List Channel → ℕ
has id = count_where (λ (c : Channel). c.id == id)

abbrev FirstIs : ℕ → List Channel → Type 0
FirstIs id [] = ⊥
FirstIs id (c ∷ cs) = c.id ≡ id

index_of-none : (id : ℕ) (chs : List Channel) → index_of id chs ≡ none → has id chs ≡ 0
index_of-none id [] h = refl
index_of-none id (c ∷ chs) h = elim (Option-cases (index_of id chs)) [
  | inl missing ↦ ground (arith, index_of-none id chs missing)
  | inr (i, at) ↦ absurd (ground arith)
]

index_of-first : (id : ℕ) (chs : List Channel) → index_of id chs ≡ some 0 → FirstIs id chs
index_of-first id [] h = cc
index_of-first id (c ∷ chs) h = elim (Option-cases (index_of id chs)) [
  | inl missing ↦ ground arith
  | inr (i, at) ↦ ground arith
]

-- What stands at the index of a channel is that channel.
pop_at-index_of :
    (i id : ℕ) (chs : List Channel)
    → index_of id chs ≡ some i
    → (e : Channel × List Channel) × (pop_at i chs ≡ some e) × (e.0.id ≡ id)
unfolding pop_at
pop_at-index_of i id [] h = cc
pop_at-index_of zero id (c ∷ chs) h = ((c, chs), refl, index_of-first id (c ∷ chs) h)
pop_at-index_of (suc i) id (c ∷ chs) h =
    let (e, found, same) = pop_at-index_of i id chs (index_of-later h) in
    ((e.0, c ∷ e.1), rw found refl, same)
  where
    index_of-later : index_of id (c ∷ chs) ≡ some (suc i) → index_of id chs ≡ some i
    index_of-later h = elim (Option-cases (index_of id chs)) [
      | inl missing ↦ absurd (ground arith)
      | inr (j, at) ↦ ground arith
    ]

promote_sticky-FirstIs :
    (id : ℕ) (chs : List Channel) → 0 < has id chs → FirstIs id (promote_sticky chs id)
unfolding promote_sticky
promote_sticky-FirstIs id chs h = elim (Option-cases (index_of id chs)) [
  | inl missing ↦ absurd (omega (arith, h, index_of-none id chs missing))
  | inr (zero, first) ↦
      let kept : promote_sticky chs id ≡ chs = rw (promote_sticky, first) refl in
      subst (FirstIs id) (sym kept) (index_of-first id chs first)
  | inr (suc i, at) ↦
      let (e, found, same) = pop_at-index_of (suc i) id chs at in
      let moved : promote_sticky chs id ≡ e.0 ∷ e.1 = rw (promote_sticky, at, found) refl in
      subst (FirstIs id) (sym moved) same
]

-- The sticky channel only reorders what is found without it.
routed-some :
    (id : ℕ) (chs found : List Channel)
    → routed none chs ≡ ok found
    → routed (some id) chs ≡ ok (promote_sticky found id)
routed-some id [] found h = cc
routed-some id (c ∷ chs) found h =
    let same : c ∷ chs ≡ found = cc in ap (λ cs. ok (promote_sticky cs id)) same

module _ (randrange uniform : List Channel → ℕ) where
  in_order-some :
      (scores : Option (ℕ → ℕ)) (id : ℕ) (chs found : List Channel)
      → in_order randrange uniform scores none chs ≡ ok found
      → in_order randrange uniform scores (some id) chs ≡ ok (promote_sticky found id)
  unfolding in_order
  in_order-some scores id [] found h = cc
  in_order-some scores id (c ∷ chs) found h = routed-some id _ found h

-- The plan is made, and its first candidate is on the channel.
abbrev Leads : ℕ → Result NoChannel (List Candidate) → Type 0
Leads id (ok (c ∷ cs)) = c.channel.id ≡ id
Leads id _ = ⊥

module _ (calls : Calls) (protocol : Option String) (sticky : Option ℕ) (ids : List ℕ) where
  unless_none-Leads :
      (id : ℕ) (first : Option NoChannel) (c : Candidate) (cs : List Candidate)
      → c.channel.id ≡ id
      → Leads id (unless_none first (c ∷ cs))
  unless_none-Leads id none c cs h = h
  unless_none-Leads id (some e) c cs h = h

  gather-Leads :
      (serve_as : Option String) (id : ℕ) (targets : List String) (index : ℕ)
      (first : Option NoChannel) (c : Candidate) (cs : List Candidate)
      → c.channel.id ≡ id
      → Leads id (gather calls protocol sticky ids serve_as index targets first (c ∷ cs))
  unfolding gather
  gather-Leads serve_as id [] index first c cs h = unless_none-Leads id first c cs h
  gather-Leads serve_as id (target ∷ rest) index first c cs h =
      after_found-both (Leads id) (found_at calls protocol sticky ids index target) _ _
        (λ e refused. gather-Leads serve_as id rest (suc index) (first_of first e) c cs h)
        (λ chs served.
          gather-Leads serve_as id rest (suc index) first c
            (cs ++ map (served_by (override_at index serve_as target)) chs) h)

  started :
      (serve_as serving : Option String) (id : ℕ) (targets : List String) (chs : List Channel)
      → FirstIs id chs
      → Leads id
          (gather calls protocol sticky ids serve_as 1 targets none (map (served_by serving) chs))
  started serve_as serving id targets [] h = absurd h
  started serve_as serving id targets (c ∷ chs) h =
      gather-Leads serve_as id targets 1 none (served_by serving c) (map (served_by serving) chs) h

module _ (calls : Calls) (protocol : Option String) (ids : List ℕ) where
  found_at-sticky :
      (id : ℕ) (target : String) (found : List Channel)
      → found_at calls protocol none ids 0 target ≡ ok found
      → found_at calls protocol (some id) ids 0 target ≡ ok (promote_sticky found id)
  unfolding found_at resolve_candidates
  found_at-sticky id target found h =
      in_order-some (calls.randrange 0) (calls.uniform 0) (calls.scores 0) id
        (half_open (calls.healthy 0) (keep_if (may_serve target protocol ids) (calls.channels 0)))
        found h

  resolve_with_fallbacks-Leads :
      (rules : List (String × List String)) (model : String) (id : ℕ)
      (allowed : Option (List String)) (serve_as : Option String) (found : List Channel)
      → found_at calls protocol none ids 0 (primary_model model serve_as) ≡ ok found
      → 0 < has id found
      → Leads id (resolve_with_fallbacks calls rules model protocol (some id) allowed serve_as ids)
  unfolding resolve_with_fallbacks gather
  resolve_with_fallbacks-Leads rules model id allowed serve_as found h among =
      let primary = primary_model model serve_as in
      let promoted = found_at-sticky id primary found h in
      after_found-both (Leads id) (found_at calls protocol (some id) ids 0 primary) _ _
        (λ e refused. absurd (cc))
        (λ chs served.
          let same : promote_sticky found id ≡ chs = cc in
          started calls protocol (some id) ids (given serve_as)
            (override_at 0 (given serve_as) primary) id
            (fallback_chain rules model serve_as allowed) chs
            (subst (FirstIs id) same (promote_sticky-FirstIs id found among)))

-- A plan whose first candidate is on the channel, and no refusal.
abbrev pub StartsAt : ℕ → Result NoChannel RoutePlan → Type 0
StartsAt id (err e) = ⊥
StartsAt id (ok plan) = Leads id (ok plan.candidates)

with_candidates-StartsAt :
    (id : ℕ) (key : Option String) (log : String) (downgraded : Option String)
    (answer : Result NoChannel (List Candidate))
    → Leads id answer
    → StartsAt id (with_candidates key log downgraded answer)
with_candidates-StartsAt id key log downgraded (err e) h = h
with_candidates-StartsAt id key log downgraded (ok cs) h = h

module _ (r : Redis) (t : SessionTexts) (limits_of : ApiKey → WindowLimits)
    (team_limits : Tenant → WindowLimits) (calls : Calls) (config : GatewayConfig)
    (groups : List (ℕ × List String)) (cached : Option Tenant) (k : ApiKey)
    (model protocol : String) (headers : String → Option String) (db : Db) (now : ℕ) where
  open r use {Store}

  -- The model that is served in place of the requested one, or that one itself.
  abbrev pub primary_at : Store → String
  primary_at s = primary_model model (
      downgrade_target r limits_of team_limits config.budget_downgrade cached k model
        (get_effective_allowed_models groups cached db.tenants k) db now s)

  -- A later request of a conversation, with the same headers, system prompt and metadata and
  -- further messages after the first one of the user, is planned on the channel that an earlier
  -- request bound its session to, as the first candidate, where that channel is among the
  -- candidates that the model, or what a budget downgrade serves in place of it, has without a
  -- session.
  pub plan_route-StartsAt :
      (body body' : Fields) (name : String) (id : ℕ) (s : Store) (found : List Channel)
      → make_session_key t config.sticky_session_enabled k.id headers (obj body) ≡ some name
      → Continues body body'
      → found_at calls
          (some protocol)
          none
          k.channel_ids
          0
          (primary_at (bind_sticky_channel r (some name) id s))
        ≡ ok found
      → 0 < has id found
      → StartsAt id (
          plan_route r t limits_of team_limits calls config groups cached k model protocol headers
            (obj body')
            db
            now
            (bind_sticky_channel r (some name) id s))
  unfolding plan_route
  plan_route-StartsAt body body' name id s found keyed continues answered among =
      let bound = bind_sticky_channel r (some name) id s in
      let allowed = get_effective_allowed_models groups cached db.tenants k in
      let downgraded =
        downgrade_target r limits_of team_limits config.budget_downgrade cached k model allowed db
          now bound in
      let kept =
        make_session_key-Continues t r config.sticky_session_enabled k.id id headers body body' name
          s keyed continues in
      with_candidates-StartsAt id _ _ downgraded _ (
        subst
          (λ (sticky : Option ℕ). Leads id (
            resolve_with_fallbacks calls config.model_fallbacks model (some protocol) sticky allowed
              downgraded k.channel_ids))
          (sym kept)
          (resolve_with_fallbacks-Leads calls (some protocol) k.channel_ids config.model_fallbacks
            model id allowed downgraded found answered among))
