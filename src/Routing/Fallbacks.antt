-- ===== src/Routing/Fallbacks.antt =====
-- The models that a request falls back to: resolve_with_fallbacks of
-- backend/app/providers/registry.py.

use five_api.Base.{
  ℕ, suc, zero, Bool, true, not, Option, none, some, String, List, [], ◌∷◌, ◌++◌, map, str_eq,
  if◌then◌else◌, keep_if, Result, ok, err,
}
use five_api.Base.Json.{is_empty}
use five_api.Models.{Channel}
use five_api.Pricing.Quotes.{Candidate}
use five_api.Routing.Order.{among, NoChannel, resolve_candidates}

-- Python's truth value of an optional text.
abbrev pub given : Option String → Option String
given none = none
given (some s) = if is_empty s then none else some s

-- `serve_as or model`
abbrev pub primary_model : String → Option String → String
primary_model model serve_as = elim (given serve_as) [ none ↦ model | some s ↦ s ]

-- `model_fallbacks.get(primary, [])`
abbrev pub targets_of : String → List (String × List String) → List String
targets_of model [] = []
targets_of model (rule ∷ rules) =
    let later = targets_of model rules in if str_eq rule.0 model then rule.1 else later

abbrev pub may_fall_back : Option (List String) → String → Bool
may_fall_back none target = true
may_fall_back (some models) target = among target models

-- The fallbacks of a request that are neither the requested model nor withheld from the key.
unfoldable pub fallback_chain :
    List (String × List String) → String → Option String → Option (List String) → List String
fallback_chain rules model serve_as allowed = keep_if (may_fall_back allowed) (
    keep_if (λ target. not (str_eq target model)) (targets_of (primary_model model serve_as) rules))

-- The model is served as requested by the first target without a downgrade only.
abbrev pub override_at : ℕ → Option String → String → Option String
override_at zero none target = none
override_at zero (some s) target = some target
override_at (suc i) serve_as target = some target

-- `_serving(provider_cls, target)`
abbrev pub served_by : Option String → Channel → Candidate
served_by serving ch = record { channel = ch; serving_model = serving }

abbrev pub sticky_at : ℕ → Option ℕ → Option ℕ
sticky_at zero sticky = sticky
sticky_at (suc i) sticky = none

-- `first_error or exc`
abbrev pub first_of : Option NoChannel → NoChannel → Option NoChannel
first_of none e = some e
first_of (some first) e = some first

abbrev pub unless_none : Option NoChannel → List Candidate → Result NoChannel (List Candidate)
unless_none (some e) [] = err e
unless_none none [] = ok []
unless_none first (c ∷ cs) = ok (c ∷ cs)

-- The `try` around resolve_candidates.
abbrev pub after_found :
    {A : Type 0} → Result NoChannel (List Channel) → (NoChannel → A) → (List Channel → A) → A
after_found (err e) refused found = refused e
after_found (ok chs) refused found = found chs

-- What the generator draws, which breakers are closed, the scores and the enabled channels, at each
-- call of resolve_candidates, by its number.
pub record Calls : Type 0 where
  pub randrange : ℕ → List Channel → ℕ
  pub uniform : ℕ → List Channel → ℕ
  pub healthy : ℕ → ℕ → Bool
  pub scores : ℕ → Option (ℕ → ℕ)
  pub channels : ℕ → List Channel

module _ (calls : Calls) where
  unfoldable pub found_at :
      Option String → Option ℕ → List ℕ → ℕ → String → Result NoChannel (List Channel)
  found_at protocol sticky ids index target =
      resolve_candidates (calls.randrange index) (calls.uniform index) (calls.healthy index)
        (calls.scores index) (calls.channels index) target protocol (sticky_at index sticky) ids

  -- The loop over the targets, after the first error and the result so far.
  unfoldable pub gather :
      Option String
      → Option ℕ
      → List ℕ
      → Option String
      → ℕ
      → List String
      → Option NoChannel
      → List Candidate
      → Result NoChannel (List Candidate)
  unfolding found_at
  gather protocol sticky ids serve_as index [] first result = unless_none first result
  gather protocol sticky ids serve_as index (target ∷ rest) first result =
      after_found (found_at protocol sticky ids index target)
        (λ e. gather protocol sticky ids serve_as (suc index) rest (first_of first e) result)
        (λ found.
          gather protocol sticky ids serve_as (suc index) rest first
            (result ++ map (served_by (override_at index serve_as target)) found))

  unfoldable pub resolve_with_fallbacks :
      List (String × List String)
      → String
      → Option String
      → Option ℕ
      → Option (List String)
      → Option String
      → List ℕ
      → Result NoChannel (List Candidate)
  unfolding gather fallback_chain
  resolve_with_fallbacks rules model protocol sticky allowed serve_as ids =
      gather protocol sticky ids (given serve_as) 0
        (primary_model model serve_as ∷ fallback_chain rules model serve_as allowed) none []
