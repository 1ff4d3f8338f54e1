-- ===== src/Filters/Examples.antt =====
-- A secret that two pieces of a stream share, and a keyword that is not there.
use mathlib.Core.Path.{subst}
use five_api.Base.{◌≡◌, refl, Bool, true, false, ◌||◌, some, List, [], ◌∷◌, arith}
use five_api.Filters.{
  Text, occurs, find_keyword, SecretRule, search_rules, match_secret, secret_tail_length,
  new_scanner, feed, scan,
}
use five_api.Filters.Tails.{IsLocal}
use five_api.Filters.Keywords.{is_hit, keyword_in, keyword_in-IsLocal}
use five_api.Filters.Scanned.{secret_in, scan-to_find}

abbrev secret : Text
secret = 7 ∷ 8 ∷ []

abbrev rules : List SecretRule
rules = (1 ∷ [], occurs secret) ∷ []

as_keyword : (t : Text) → keyword_in (secret ∷ []) t ≡ secret_in rules t
unfolding find_keyword match_secret search_rules
as_keyword [] = refl
as_keyword (c ∷ cs) = ground arith

near_enough : IsLocal (secret_in rules) secret_tail_length
near_enough =
    subst (λ (hit : Text → Bool). IsLocal hit secret_tail_length) (λ i t. as_keyword t i)
      (keyword_in-IsLocal secret_tail_length (secret ∷ []) (omega arith))

abbrev keywords : List Text
keywords = (4 ∷ 5 ∷ []) ∷ []

abbrev pieces : List Text
pieces = (4 ∷ 7 ∷ []) ∷ [] ∷ (8 ∷ 5 ∷ []) ∷ []

finds_secret : scan (λ t. t) rules (new_scanner keywords true) pieces ≡ some (1 ∷ [])
unfolding scan feed new_scanner find_keyword match_secret search_rules
finds_secret = refl

no_empty_keyword : keyword_in keywords [] ≡ false
unfolding find_keyword
no_empty_keyword = refl

scan-to_find_example :
    is_hit (scan (λ t. t) rules (new_scanner keywords true) pieces)
    ≡ (keyword_in keywords (4 ∷ 7 ∷ 8 ∷ 5 ∷ []) || secret_in rules (4 ∷ 7 ∷ 8 ∷ 5 ∷ []))
scan-to_find_example =
    scan-to_find (λ t. t) rules (λ a b. refl) near_enough keywords true pieces no_empty_keyword
