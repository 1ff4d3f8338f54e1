-- ===== src/Settings/Targets.antt =====
-- How many models a request falls back to, under the settings.

use five_api.Base.{
  ◌≤◌, ◌≡◌, refl, sym, ap, ◌∙◌, String, Bool, true, false, not, Option, List, [], ◌∷◌, arith,
  str_eq, eq_iff, length, keep_if, if_both, Bool-cases, inl, inr,
}
use five_api.Base.Json.{Json}
use five_api.Routing.Order.{among}
use five_api.Routing.Fallbacks.{primary_model, targets_of, may_fall_back, fallback_chain}
use five_api.Settings.{Parsers, Environment, gateway_config}
use five_api.Settings.Shape.{NoRepeats, GoodRule, EachOf}
use five_api.Settings.Normal.{gateway_config-IsNormal}

-- A chain that a model may fall back to.
abbrev Chain : String → List String → Type 0
Chain name chain = NoRepeats chain × (among name chain ≡ false) × (length chain ≤ 5)

among-keep_if :
    (p : String → Bool) (name : String) (xs : List String)
    → among name xs ≡ false
    → among name (keep_if p xs) ≡ false
among-keep_if p name [] h = refl
among-keep_if p name (x ∷ xs) h = ground (arith, among-keep_if p name xs, h)

NoRepeats-keep_if : (p : String → Bool) (xs : List String) → NoRepeats xs → NoRepeats (keep_if p xs)
NoRepeats-keep_if p [] h = h
NoRepeats-keep_if p (x ∷ xs) (fresh, later) =
    let once = NoRepeats-keep_if p xs later in
    if_both NoRepeats (p x) (x ∷ keep_if p xs) (keep_if p xs) (among-keep_if p x xs fresh, once)
      once

length-keep_if_le : (p : String → Bool) (xs : List String) → length (keep_if p xs) ≤ length xs
length-keep_if_le p [] = omega arith
length-keep_if_le p (x ∷ xs) = ground (arith, length-keep_if_le p xs)

Chain-keep_if :
    (p : String → Bool) (name : String) (xs : List String)
    → Chain name xs
    → Chain name (keep_if p xs)
Chain-keep_if p name xs (once, other, few) = (
  NoRepeats-keep_if p xs once,
  among-keep_if p name xs other,
  omega (arith, length-keep_if_le p xs, few),
)

targets_of-Chain :
    (name : String) (rules : List (String × List String))
    → EachOf GoodRule rules
    → Chain name (targets_of name rules)
targets_of-Chain name [] h = (tt, refl, omega arith)
targets_of-Chain name ((source, chain) ∷ rules) ((named, (once, other, full), some_left, few), h) =
    let source_is : str_eq source name ≡ true → source ≡ name =
      λ same. ground (arith, eq_iff source name, same) in
    elim (Bool-cases (str_eq source name)) [
      | inl same ↦ rw same (once, ap (λ n. among n chain) (sym (source_is same)) ∙ other, few)
      | inr differs ↦ rw differs (targets_of-Chain name rules h)
    ]

module _ (p : Parsers) where
  -- The models that a request is resolved for.
  abbrev pub targets :
      Environment → Option Json → String → Option String → Option (List String) → List String
  targets env row model serve_as allowed =
      primary_model model serve_as
      ∷ fallback_chain (gateway_config p env row).model_fallbacks model serve_as allowed

  -- Under any stored settings, a request is resolved for at most six models, and for none of them
  -- twice.
  pub targets-once :
      (env : Environment) (row : Option Json) (model : String) (serve_as : Option String)
      (allowed : Option (List String))
      → NoRepeats (targets env row model serve_as allowed)
        × (length (targets env row model serve_as allowed) ≤ 6)
  unfolding fallback_chain
  targets-once env row model serve_as allowed =
      let primary = primary_model model serve_as in
      let rules = (gateway_config p env row).model_fallbacks in
      let good = (gateway_config-IsNormal p env row).fallbacks in
      let (once, apart, few) =
        Chain-keep_if (may_fall_back allowed) primary
          (keep_if (λ target. not (str_eq target model)) (targets_of primary rules))
          (Chain-keep_if (λ target. not (str_eq target model)) primary (targets_of primary rules)
            (targets_of-Chain primary rules good)) in
      ((apart, once), omega (arith, few))
