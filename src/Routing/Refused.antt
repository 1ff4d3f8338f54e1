-- ===== src/Routing/Refused.antt =====
-- When resolve_with_fallbacks refuses a request.

use five_api.Base.{
  ℕ, suc, ◌<◌, ◌≡◌, refl, sym, ap, ◌∙◌, Bool, true, Option, none, some, String, List, [], ◌∷◌, ◌++◌,
  map, arith, length, keep_if, count_where, Result, ok, err,
}
use five_api.Models.{Channel}
use five_api.Pricing.Quotes.{Candidate}
use five_api.Routing.Order.{
  NoChannel, in_order, promote_sticky, routed, half_open, may_serve, resolve_candidates,
}
use five_api.Routing.Shuffles.{promote_sticky-count}
use five_api.Routing.Fallbacks.{
  Calls, given, primary_model, fallback_chain, override_at, served_by, sticky_at, first_of,
  unless_none, found_at, gather, resolve_with_fallbacks,
}
use five_api.Routing.Planned.{after_found-both}

module _ (randrange uniform : List Channel → ℕ)
    (in_range : (chs : List Channel) → 0 < length chs → randrange chs < length chs) where
  routed-some : (sticky : Option ℕ) (chs : List Channel) → ¬ (routed sticky chs ≡ ok [])
  routed-some sticky [] h = cc
  routed-some none (ch ∷ chs) h = cc
  routed-some (some id) (ch ∷ chs) h =
      let same : promote_sticky (ch ∷ chs) id ≡ [] = cc in
      let all : Channel → Bool = λ c. true in
      absurd (
        omega (
          arith,
          promote_sticky-count randrange uniform in_range all (ch ∷ chs) id,
          ap (count_where all) same,
        ))

  in_order-some :
      (scores : Option (ℕ → ℕ)) (sticky : Option ℕ) (found : List Channel)
      → ¬ (in_order randrange uniform scores sticky found ≡ ok [])
  unfolding in_order
  in_order-some scores sticky [] h = cc
  in_order-some scores sticky (ch ∷ chs) h = routed-some sticky _ h

module _ (calls : Calls)
    (in_range : (i : ℕ) (chs : List Channel) → 0 < length chs → calls.randrange i chs < length chs)
    (protocol : Option String) (sticky : Option ℕ) (ids : List ℕ) where
  abbrev found : ℕ → String → Result NoChannel (List Channel)
  found index target = found_at calls protocol sticky ids index target

  found_at-some : (index : ℕ) (target : String) → ¬ (found index target ≡ ok [])
  unfolding found_at resolve_candidates
  found_at-some index target h =
      in_order-some (calls.randrange index) (calls.uniform index) (in_range index)
        (calls.scores index) (sticky_at index sticky)
        (half_open (calls.healthy index)
          (keep_if (may_serve target protocol ids) (calls.channels index)))
        h

  -- Each of the targets, from the number of the first one on, is refused.
  abbrev pub AllRefused : ℕ → List String → Type 0
  AllRefused index [] = Unit {0}
  AllRefused index (target ∷ rest) =
      ((e : NoChannel) × (found index target ≡ err e)) × AllRefused (suc index) rest

  abbrev HasCandidates : Result NoChannel (List Candidate) → Type 0
  HasCandidates (ok (c ∷ cs)) = Unit {0}
  HasCandidates _ = ⊥

  -- The rest of the loop after the refusal of the first target.
  abbrev RefusesAll : NoChannel → ℕ → List String → Result NoChannel (List Candidate) → Type 0
  RefusesAll first index targets (err e) = (e ≡ first) × AllRefused index targets
  RefusesAll first index targets (ok []) = ⊥
  RefusesAll first index targets (ok (c ∷ cs)) = Unit {0}

  has-RefusesAll :
      (first : NoChannel) (index : ℕ) (targets : List String)
      (answer : Result NoChannel (List Candidate))
      → HasCandidates answer
      → RefusesAll first index targets answer
  has-RefusesAll first index targets (ok (c ∷ cs)) h = h
  has-RefusesAll first index targets (ok []) h = h
  has-RefusesAll first index targets (err e) h = absurd h

  RefusesAll-next :
      (first : NoChannel) (index : ℕ) (target : String) (rest : List String) (e : NoChannel)
      (answer : Result NoChannel (List Candidate))
      → found index target ≡ err e
      → RefusesAll first (suc index) rest answer
      → RefusesAll first index (target ∷ rest) answer
  RefusesAll-next first index target rest e (err e1) refused (same, all) =
      (same, ((e, refused), all))
  RefusesAll-next first index target rest e (ok []) refused h = h
  RefusesAll-next first index target rest e (ok (c ∷ cs)) refused h = h

  module _ (serve_as : Option String) where
    abbrev walk_from :
        ℕ → List String → Option NoChannel → List Candidate → Result NoChannel (List Candidate)
    walk_from index targets first acc =
        gather calls protocol sticky ids serve_as index targets first acc

    unless_none-has :
        (first : Option NoChannel) (c : Candidate) (cs : List Candidate)
        → HasCandidates (unless_none first (c ∷ cs))
    unless_none-has none c cs = tt
    unless_none-has (some e) c cs = tt

    -- A candidate that was found is not lost.
    gather-has :
        (targets : List String) (index : ℕ) (first : Option NoChannel) (c : Candidate)
        (cs : List Candidate)
        → HasCandidates (walk_from index targets first (c ∷ cs))
    unfolding gather
    gather-has [] index first c cs = unless_none-has first c cs
    gather-has (target ∷ rest) index first c cs =
        after_found-both HasCandidates (found index target) _ _
          (λ e refused. gather-has rest (suc index) (first_of first e) c cs)
          (λ chs served.
            gather-has rest (suc index) first c
              (cs ++ map (served_by (override_at index serve_as target)) chs))

    -- The candidates of a target that has some are kept.
    found-has :
        (targets : List String) (index : ℕ) (target : String) (first : Option NoChannel)
        (serving : Option String) (chs : List Channel)
        → found index target ≡ ok chs
        → HasCandidates (walk_from (suc index) targets first (map (served_by serving) chs))
    found-has targets index target first serving [] served =
        absurd (found_at-some index target served)
    found-has targets index target first serving (ch ∷ chs) served =
        gather-has targets (suc index) first (served_by serving ch) (map (served_by serving) chs)

    gather-RefusesAll :
        (targets : List String) (index : ℕ) (first : NoChannel)
        → RefusesAll first index targets (walk_from index targets (some first) [])
    unfolding gather
    gather-RefusesAll [] index first = (refl, tt)
    gather-RefusesAll (target ∷ rest) index first =
        after_found-both (RefusesAll first index (target ∷ rest)) (found index target) _ _
          (λ e refused.
            RefusesAll-next first index target rest e (walk_from (suc index) rest (some first) [])
              refused (gather-RefusesAll rest (suc index) first))
          (λ chs served.
            has-RefusesAll first index (target ∷ rest)
              (walk_from (suc index) rest (some first)
                (map (served_by (override_at index serve_as target)) chs))
              (found-has rest index target (some first) (override_at index serve_as target) chs
                served))

  -- What an answer says of the targets: it has candidates, or each target was refused and the first
  -- refusal is raised.
  abbrev pub IsPlan : String → List String → Result NoChannel (List Candidate) → Type 0
  IsPlan primary chain (err e) = (found 0 primary ≡ err e) × AllRefused 1 chain
  IsPlan primary chain (ok []) = ⊥
  IsPlan primary chain (ok (c ∷ cs)) = Unit {0}

  refused-IsPlan :
      (primary : String) (chain : List String) (first : NoChannel)
      (answer : Result NoChannel (List Candidate))
      → found 0 primary ≡ err first
      → RefusesAll first 1 chain answer
      → IsPlan primary chain answer
  refused-IsPlan primary chain first (err e) refused (same, all) =
      (refused ∙ ap err (sym same), all)
  refused-IsPlan primary chain first (ok []) refused h = h
  refused-IsPlan primary chain first (ok (c ∷ cs)) refused h = h

  has-IsPlan :
      (primary : String) (chain : List String) (answer : Result NoChannel (List Candidate))
      → HasCandidates answer
      → IsPlan primary chain answer
  has-IsPlan primary chain (err e) h = absurd h
  has-IsPlan primary chain (ok []) h = h
  has-IsPlan primary chain (ok (c ∷ cs)) h = h

  -- resolve_with_fallbacks answers with at least one candidate, or raises the error of the first
  -- target, and then each fallback was refused too.
  pub resolve_with_fallbacks-IsPlan :
      (rules : List (String × List String)) (model : String) (allowed : Option (List String))
      (serve_as : Option String)
      → IsPlan
          (primary_model model serve_as)
          (fallback_chain rules model serve_as allowed)
          (resolve_with_fallbacks calls rules model protocol sticky allowed serve_as ids)
  unfolding resolve_with_fallbacks gather
  resolve_with_fallbacks-IsPlan rules model allowed serve_as =
      let primary = primary_model model serve_as in
      let chain = fallback_chain rules model serve_as allowed in
      let serving = override_at 0 (given serve_as) primary in
      after_found-both (IsPlan primary chain) (found 0 primary) _ _
        (λ e refused.
          refused-IsPlan primary chain e (walk_from (given serve_as) 1 chain (some e) []) refused
            (gather-RefusesAll (given serve_as) chain 1 e))
        (λ chs served.
          has-IsPlan primary chain
            (walk_from (given serve_as) 1 chain none (map (served_by serving) chs))
            (found-has (given serve_as) chain 0 primary none serving chs served))
