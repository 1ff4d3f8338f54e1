-- ===== src/Settings/Examples.antt =====
-- Settings as an operator stores them, with a rule that names its own model.
use five_api.Base.{◌≡◌, refl, ◌≤◌, true, Option, none, some, [], ◌∷◌, length}
use five_api.Base.Int.{ℤ, pos}
use five_api.Base.Json.{Json, int, str, arr, obj, cons, nil, field, end}
use five_api.Failover.Texts.{bare}
use five_api.Settings.{
  Parsers, Environment, clamp_int, default_gateway_config, model_name, chain_of, fallback_rules,
  normalize_fallbacks, normalize_gateway, gateway_config,
}
use five_api.Settings.Shape.{NoRepeats}
use five_api.Settings.Targets.{targets, targets-once}

abbrev whole : Json → Option ℤ
whole v = elim v [ int i ↦ some i | _ ↦ none ]

abbrev parsers : Parsers
parsers = record { texts = bare; int_of = whole; hundredths_of = λ v. none }

abbrev environment : Environment
environment = record {
  retention_days = pos 90;
  health_threshold = pos 3;
  check_interval = pos 60;
  sticky_enabled = true;
  sticky_ttl = pos 900;
}

abbrev stored : Json
stored = obj (
    field "sticky_session_ttl" (int (pos 5)) (
      field "model_fallbacks"
        (obj (
          field "gpt-5.5"
            (arr (cons (str "gpt-4.1") (cons (str "gpt-5.5") (cons (str "gpt-4.1") nil)))) end))
        end))

fallbacks_of_stored :
    (gateway_config parsers environment (some stored)).model_fallbacks
    ≡ ("gpt-5.5", "gpt-4.1" ∷ []) ∷ []
unfolding gateway_config normalize_gateway normalize_fallbacks fallback_rules chain_of model_name
fallbacks_of_stored = refl

ttl_of_stored : (gateway_config parsers environment (some stored)).sticky_session_ttl ≡ 60
unfolding gateway_config normalize_gateway clamp_int default_gateway_config
ttl_of_stored = refl

targets-once_example :
    NoRepeats (targets parsers environment (some stored) "gpt-5.5" none none)
    × (length (targets parsers environment (some stored) "gpt-5.5" none none) ≤ 6)
targets-once_example = targets-once parsers environment (some stored) "gpt-5.5" none none
