-- ===== src/Routing/Examples.antt =====
-- Two channels of one model, and a breaker that opens at the third failure.
use five_api.Base.{◌≡◌, refl, true, false, not, String, none, some, List, [], ◌∷◌, ok, count_where}
use five_api.Samples.{calls, west, east, other, last_one, full_weight, last_in_range}
use five_api.Routing.Order.{
  weighted_shuffle, shuffle_loop, pop_at, reached, promote_sticky, ordered_tier, ordered_tiers,
  half_open, in_order, may_serve, resolve_candidates,
}
use five_api.Routing.Candidates.{resolve_candidates-serve}
use five_api.Routing.Fallbacks.{found_at, gather, fallback_chain, resolve_with_fallbacks}
use five_api.Routing.Refused.{IsPlan, resolve_with_fallbacks-IsPlan}
use five_api.Routing.Planned.{may_answer, resolve_with_fallbacks-serve}
use five_api.Routing.Order.{among}
use five_api.Routing.Listing.{list_available_models}
use five_api.Routing.Listed.{names, list_available_models-once}
use five_api.Settings.Shape.{NoRepeats}
use five_api.Pricing.Quotes.{Candidate}

resolve_two :
    resolve_candidates last_one full_weight
      (λ id. true)
      none
      (west ∷ other ∷ east ∷ [])
      "gpt-5.5"
      (some "openai")
      (some 4)
      []
    ≡ ok (west ∷ east ∷ [])
unfolding resolve_candidates half_open in_order ordered_tiers ordered_tier weighted_shuffle
    shuffle_loop pop_at reached promote_sticky
resolve_two = refl

resolve_candidates-serve_example :
    count_where (λ ch. not (may_serve "gpt-5.5" (some "openai") [] ch)) (west ∷ east ∷ []) ≡ 0
resolve_candidates-serve_example =
    resolve_candidates-serve last_one full_weight last_in_range (λ id. true) none
      (west ∷ other ∷ east ∷ []) "gpt-5.5" (some "openai") (some 4) [] (west ∷ east ∷ [])
      resolve_two

abbrev fallbacks : List (String × List String)
fallbacks = ("gpt-5.5", "gpt-4.1" ∷ "gpt-5.5" ∷ []) ∷ []

abbrev planned : List Candidate
planned =
    record { channel = west; serving_model = none }
    ∷ record { channel = east; serving_model = none }
    ∷ record { channel = other; serving_model = some "gpt-4.1" }
    ∷ []

-- The two channels of the model, and then the one of its fallback.
resolve_fallback :
    resolve_with_fallbacks calls fallbacks "gpt-5.5" (some "openai") (some 4) none none []
    ≡ ok planned
unfolding resolve_with_fallbacks gather found_at fallback_chain resolve_candidates half_open
    in_order ordered_tiers ordered_tier weighted_shuffle shuffle_loop pop_at reached promote_sticky
resolve_fallback = refl

resolve_with_fallbacks-serve_example :
    count_where
      (λ c.
        not (
          may_answer calls (λ i. last_in_range) fallbacks "gpt-5.5" none none (some "openai") [] c))
      planned
    ≡ 0
resolve_with_fallbacks-serve_example =
    resolve_with_fallbacks-serve calls (λ i. last_in_range) fallbacks "gpt-5.5" none none
      (some "openai") (some 4) [] planned resolve_fallback

-- A model that no channel serves, with a fallback that none serves either.
abbrev unserved : List (String × List String)
unserved = ("gpt-5", "gpt-4" ∷ []) ∷ []

resolve_with_fallbacks-IsPlan_example :
    IsPlan calls
      (λ i. last_in_range)
      none
      (some 4)
      []
      "gpt-5"
      (fallback_chain unserved "gpt-5" none none)
      (resolve_with_fallbacks calls unserved "gpt-5" none (some 4) none none [])
resolve_with_fallbacks-IsPlan_example =
    resolve_with_fallbacks-IsPlan calls (λ i. last_in_range) none (some 4) [] unserved "gpt-5" none
      none

list_available_models-once_example :
    NoRepeats (names (list_available_models (4 ∷ 5 ∷ []) (west ∷ other ∷ east ∷ [])))
    × (among "gpt-4.1" (names (list_available_models (4 ∷ 5 ∷ []) (west ∷ other ∷ east ∷ [])))
        ≡ false)
list_available_models-once_example =
    list_available_models-once (4 ∷ 5 ∷ []) (west ∷ other ∷ east ∷ []) "gpt-4.1"
