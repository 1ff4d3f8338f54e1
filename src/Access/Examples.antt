-- ===== src/Access/Examples.antt =====
-- A key that is let in, and one that has expired.
use five_api.Base.{◌≡◌, refl, Bool, true, Option, some, String, List, [], ◌∷◌, ok, err, str_eq}
use five_api.Base.Int.{◌+ℤ◌}
use five_api.Samples.{acme, robot}
use five_api.Models.{ApiKey}
use five_api.Redis.{plain, no_keys, PlainStore}
use five_api.Limits.Rate.{check_rpm, rpm_check_script}
use five_api.Access.{
  key_expired, in_some_network, check_ip_allowed, check_key_tenant, authenticate_api_key,
}
use five_api.Access.Granted.{Granted, authenticate_api_key-Granted}

-- An address that Python parses, and the one network that holds it.
abbrev parses : String → Bool
parses address = true

abbrev in_lan : String → String → Option Bool
in_lan entry address = some (str_eq entry "10.0.0.0/8")

abbrev anywhere : List String → Bool
anywhere ips = check_ip_allowed parses in_lan ips "10.1.2.3"

abbrev at_home : ApiKey
at_home = record robot { allowed_ips = "192.168.0.0/16" ∷ "10.0.0.0/8" ∷ [] }

abbrev knows : String → Option ApiKey
knows raw = some at_home

abbrev after : PlainStore
after = (authenticate_api_key plain knows anywhere (acme ∷ []) 800 "sk" no_keys).0

lets_in :
    authenticate_api_key plain knows anywhere (acme ∷ []) 800 "sk" no_keys
    ≡ (after, ok (at_home, acme))
unfolding authenticate_api_key check_key_tenant check_rpm rpm_check_script check_ip_allowed
    in_some_network ◌+ℤ◌
lets_in = refl

authenticate_api_key-Granted_example :
    Granted plain knows parses in_lan "10.1.2.3" (acme ∷ []) 800 "sk" no_keys at_home acme
authenticate_api_key-Granted_example =
    authenticate_api_key-Granted plain knows parses in_lan "10.1.2.3" (acme ∷ []) 800 "sk" no_keys
      after at_home acme lets_in

abbrev turned_away : PlainStore
turned_away = (authenticate_api_key plain knows anywhere (acme ∷ []) 901 "sk" no_keys).0

expires :
    authenticate_api_key plain knows anywhere (acme ∷ []) 901 "sk" no_keys
    ≡ (turned_away, err key_expired)
unfolding authenticate_api_key
expires = refl
