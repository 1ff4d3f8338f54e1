-- ===== src/Routing/Planned.antt =====
-- What a candidate of resolve_with_fallbacks may serve.

use mathlib.Core.Option
use five_api.Base.{
  ℕ, suc, ◌<◌, ◌≡◌, refl, sym, ap, ◌∙◌, Bool, true, ◌&&◌, ◌||◌, not, Option, none, some, String,
  List, [], ◌∷◌, ◌++◌, map, str_eq, length, count_where, Result, ok, err,
}
use five_api.Models.{Channel}
use five_api.Pricing.Quotes.{Candidate, target_model}
use five_api.Routing.Order.{among, NoChannel, may_serve}
use five_api.Routing.Candidates.{resolve_candidates-serve}
use five_api.Routing.Counts.{
  count-both, count-tail, count-map, count-among, or-true, or-first, not-and, and-true, not-false,
  str_eq-same, keep_if-passes,
}
use five_api.Routing.Fallbacks.{
  Calls, given, primary_model, targets_of, may_fall_back, fallback_chain, override_at, served_by,
  sticky_at, first_of, unless_none, after_found, found_at, gather, resolve_with_fallbacks,
}

-- A model that the key may fall back to from `model`, or the first one.
abbrev pub may_be_served :
    List (String × List String) → String → Option String → Option (List String) → String → Bool
may_be_served rules model serve_as allowed target =
    str_eq target (primary_model model serve_as)
    || (among target (targets_of (primary_model model serve_as) rules)
        && (not (str_eq target model) && may_fall_back allowed target))

abbrev pub override_may_be_served :
    List (String × List String)
    → String
    → Option String
    → Option (List String)
    → Option String
    → Bool
override_may_be_served rules model serve_as allowed none = true
override_may_be_served rules model serve_as allowed (some target) =
    may_be_served rules model serve_as allowed target

fallback_chain-passes :
    (rules : List (String × List String)) (model : String) (serve_as : Option String)
    (allowed : Option (List String))
    → count_where
        (λ target. not (may_be_served rules model serve_as allowed target))
        (fallback_chain rules model serve_as allowed)
      ≡ 0
unfolding fallback_chain
fallback_chain-passes rules model serve_as allowed =
    let primary = primary_model model serve_as in
    let names = targets_of primary rules in
    keep_if-passes (λ target. among target names) (λ target. not (str_eq target model))
      (may_fall_back allowed) (may_be_served rules model serve_as allowed) names
      (λ target named other fits.
        or-true (str_eq target primary)
          (among target names && (not (str_eq target model) && may_fall_back allowed target))
          (and-true (among target names) (not (str_eq target model) && may_fall_back allowed target)
            named (and-true (not (str_eq target model)) (may_fall_back allowed target) other fits)))
      (count-among names)

first-may_be_served :
    (rules : List (String × List String)) (model : String) (serve_as : Option String)
    (allowed : Option (List String)) (downgrade : Option String)
    → override_may_be_served rules model serve_as allowed
        (override_at 0 downgrade (primary_model model serve_as))
      ≡ true
first-may_be_served rules model serve_as allowed none = refl
first-may_be_served rules model serve_as allowed (some s) =
    or-first (str_eq (primary_model model serve_as) (primary_model model serve_as)) _
      (str_eq-same (primary_model model serve_as))

first-target :
    (model : String) (downgrade : Option String)
    → Option.get_or (override_at 0 downgrade (elim downgrade [ none ↦ model | some s ↦ s ])) model
      ≡ elim downgrade [ none ↦ model | some s ↦ s ]
first-target model none = refl
first-target model (some s) = refl

-- What both ways on from a target have, the loop has.
pub after_found-both :
    {A : Type 0} (P : A → Type 0) (r : Result NoChannel (List Channel)) (refused : NoChannel → A)
    (found : List Channel → A)
    → ((e : NoChannel) → r ≡ err e → P (refused e))
    → ((chs : List Channel) → r ≡ ok chs → P (found chs))
    → P (after_found r refused found)
after_found-both P (err e) refused found h k = h e refl
after_found-both P (ok chs) refused found h k = k chs refl

module _ (calls : Calls)
    (in_range : (i : ℕ) (chs : List Channel)
      → 0 < length chs
      → calls.randrange i chs < length chs) where
  -- The channel may serve the model under which the candidate calls it, and the key that model.
  abbrev pub may_answer :
      List (String × List String)
      → String
      → Option String
      → Option (List String)
      → Option String
      → List ℕ
      → Candidate
      → Bool
  may_answer rules model serve_as allowed protocol ids c =
      may_serve (target_model c model) protocol ids c.channel
      && override_may_be_served rules model serve_as allowed c.serving_model

  module _ (rules : List (String × List String)) (model : String) (serve_as : Option String)
      (allowed : Option (List String)) (protocol : Option String) (sticky : Option ℕ)
      (ids : List ℕ) where
    abbrev bad : Candidate → Bool
    bad c = not (may_answer rules model serve_as allowed protocol ids c)

    -- The candidates that one target adds.
    found_at-fits :
        (index : ℕ) (target : String) (serving : Option String) (found : List Channel)
        → found_at calls protocol sticky ids index target ≡ ok found
        → Option.get_or serving model ≡ target
        → override_may_be_served rules model serve_as allowed serving ≡ true
        → count_where bad (map (served_by serving) found) ≡ 0
    unfolding found_at
    found_at-fits index target serving found h same may =
        count-map bad (λ ch. not (may_serve target protocol ids ch)) (served_by serving) found
          (λ ch fits.
            not-and (may_serve (Option.get_or serving model) protocol ids ch)
              (override_may_be_served rules model serve_as allowed serving) (rw same fits) may)
          (resolve_candidates-serve (calls.randrange index) (calls.uniform index) (in_range index)
            (calls.healthy index) (calls.scores index) (calls.channels index) target protocol
            (sticky_at index sticky) ids found h)

    unless_none-fits :
        (first : Option NoChannel) (acc result : List Candidate)
        → count_where bad acc ≡ 0
        → unless_none first acc ≡ ok result
        → count_where bad result ≡ 0
    unless_none-fits none [] result h k =
        let same : [] ≡ result = cc in ap (count_where bad) (sym same)
    unless_none-fits (some e) [] result h k = cc
    unless_none-fits none (c ∷ cs) result h k =
        let same : c ∷ cs ≡ result = cc in ap (count_where bad) (sym same) ∙ h
    unless_none-fits (some e) (c ∷ cs) result h k =
        let same : c ∷ cs ≡ result = cc in ap (count_where bad) (sym same) ∙ h

    abbrev Answered : List Candidate → Result NoChannel (List Candidate) → Type 0
    Answered result answer = answer ≡ ok result → count_where bad result ≡ 0

    -- The candidates of the targets after the first.
    gather-fits :
        (targets : List String) (index : ℕ) (first : Option NoChannel) (acc result : List Candidate)
        → count_where (λ target. not (may_be_served rules model serve_as allowed target)) targets
          ≡ 0
        → count_where bad acc ≡ 0
        → Answered result
            (gather calls protocol sticky ids (given serve_as) (suc index) targets first acc)
    unfolding gather
    gather-fits [] index first acc result may h = unless_none-fits first acc result h
    gather-fits (target ∷ rest) index first acc result may h =
        let (here, later) =
          count-tail (λ t. not (may_be_served rules model serve_as allowed t)) target rest may in
        after_found-both (Answered result) (found_at calls protocol sticky ids (suc index) target) _
          _ (λ e unserved. gather-fits rest (suc index) (first_of first e) acc result later h)
          (λ chs found.
            gather-fits rest (suc index) first (acc ++ map (served_by (some target)) chs) result
              later
              (count-both bad acc (map (served_by (some target)) chs) h (
                found_at-fits (suc index) target (some target) chs found refl
                  (not-false (may_be_served rules model serve_as allowed target) here))))

    -- Where resolve_with_fallbacks returns, every candidate's channel may serve the model under
    -- which it is called, for the protocol and the key's channels, and a model that is served in
    -- place of the requested one is the first target or a configured fallback of it that is not the
    -- requested model and that the key may use.
    pub resolve_with_fallbacks-serve :
        (result : List Candidate)
        → resolve_with_fallbacks calls rules model protocol sticky allowed serve_as ids ≡ ok result
        → count_where (λ c. not (may_answer rules model serve_as allowed protocol ids c)) result ≡ 0
    unfolding resolve_with_fallbacks gather
    resolve_with_fallbacks-serve result =
        let target = primary_model model serve_as in
        let serving = override_at 0 (given serve_as) target in
        let chain = fallback_chain rules model serve_as allowed in
        let may = fallback_chain-passes rules model serve_as allowed in
        after_found-both (Answered result) (found_at calls protocol sticky ids 0 target) _ _
          (λ e unserved. gather-fits chain 0 (first_of none e) [] result may refl)
          (λ chs found. gather-fits chain 0 none (map (served_by serving) chs) result may (
            found_at-fits 0 target serving chs found (first-target model (given serve_as))
              (first-may_be_served rules model serve_as allowed (given serve_as))))
