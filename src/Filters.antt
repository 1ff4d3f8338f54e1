-- ===== src/Filters.antt =====
-- The marks on what users and models write: backend/app/services/content_filter.py.
mod Tails
mod Keywords
mod Scanned
mod Examples
use five_api.Base.{
  ℕ, suc, zero, ◌-◌, max, Bool, true, false, ◌&&◌, ◌||◌, Option, none, some, List, [], ◌∷◌, ◌++◌,
  ◌==◌, leb, if◌then◌else◌, length,
}

-- A text is the list of its code points.
abbrev pub Text : Type 0
Text = List ℕ

-- `text[-n:]` for a positive n, and the empty text for 0.
abbrev pub last : ℕ → Text → Text
last n [] = []
last n (c ∷ cs) = let rest = last n cs in if leb (suc (length cs)) n then c ∷ cs else rest

-- `keyword in text`
abbrev pub starts : Text → Text → Bool
starts [] text = true
starts (k ∷ ks) [] = false
starts (k ∷ ks) (c ∷ cs) = (k == c) && starts ks cs

abbrev pub occurs : Text → Text → Bool
occurs keyword [] = starts keyword []
occurs keyword (c ∷ cs) = starts keyword (c ∷ cs) || occurs keyword cs

-- The first keyword of the list that is in the text.
unfoldable pub find_keyword : List Text → Text → Option Text
find_keyword [] text = none
find_keyword (keyword ∷ keywords) text =
    let later = find_keyword keywords text in if occurs keyword text then some keyword else later

-- A label with its regular expression, by what it finds in a text.
abbrev pub SecretRule : Type 0
SecretRule = Text × (Text → Bool)

unfoldable pub search_rules : List SecretRule → Text → Option Text
search_rules [] text = none
search_rules (rule ∷ rules) text =
    let later = search_rules rules text in if rule.1 text then some rule.0 else later

unfoldable pub match_secret : List SecretRule → Text → Option Text
unfolding search_rules
match_secret rules [] = none
match_secret rules (c ∷ cs) = search_rules rules (c ∷ cs)

abbrev pub secret_tail_length : ℕ
secret_tail_length = 180

pub record ResponseScanner : Type 0 where
  pub keywords : List Text
  pub secrets : Bool
  pub tail : Text
  pub keep : ℕ
  pub secret_tail : Text

-- `max(map(len, keywords), default=1)`
abbrev pub longest : List Text → ℕ
longest [] = 0
longest (keyword ∷ keywords) = max (length keyword) (longest keywords)

-- A keyword is no empty text: one would be found before the tail is cut.
unfoldable pub new_scanner : List Text → Bool → ResponseScanner
new_scanner keywords secrets = record {
  keywords = keywords;
  secrets = secrets;
  tail = [];
  keep = longest keywords - 1;
  secret_tail = [];
}

-- `casefold` of a text, and the patterns of `SECRET_RULES`.
module _ (casefold : Text → Text) (rules : List SecretRule) where
  unfoldable pub first_keyword : Text → List Text → Option Text
  first_keyword [] keywords = none
  first_keyword (c ∷ cs) keywords = find_keyword keywords (casefold (c ∷ cs))

  -- The second half of `feed`, with the scanner that the keywords left.
  abbrev pub secret_found : ResponseScanner → Text → Option Text → ResponseScanner × Option Text
  secret_found scanner window (some label) = (scanner, some label)
  secret_found scanner window none =
      (record scanner { secret_tail = last secret_tail_length window }, none)

  abbrev pub feed_secrets : Bool → ResponseScanner → Text → ResponseScanner × Option Text
  feed_secrets false scanner piece = (scanner, none)
  feed_secrets true scanner piece =
      let window = scanner.secret_tail ++ piece in
      secret_found scanner window (match_secret rules window)

  abbrev pub keyword_found :
      ResponseScanner → Text → Text → Option Text → ResponseScanner × Option Text
  keyword_found scanner piece haystack (some keyword) = (scanner, some keyword)
  keyword_found scanner piece haystack none =
      feed_secrets scanner.secrets (record scanner { tail = last scanner.keep haystack }) piece

  abbrev pub feed_keywords : List Text → ResponseScanner → Text → ResponseScanner × Option Text
  feed_keywords [] scanner piece = feed_secrets scanner.secrets scanner piece
  feed_keywords (keyword ∷ keywords) scanner piece =
      let haystack = scanner.tail ++ casefold piece in
      keyword_found scanner piece haystack (find_keyword (keyword ∷ keywords) haystack)

  -- The scanner afterwards, and what was found.
  unfoldable pub feed : ResponseScanner → Text → ResponseScanner × Option Text
  unfolding find_keyword match_secret
  feed scanner [] = (scanner, none)
  feed scanner (c ∷ cs) = feed_keywords scanner.keywords scanner (c ∷ cs)

  -- The pieces of a stream up to the first hit.
  unfoldable pub scan : ResponseScanner → List Text → Option Text
  unfolding feed
  scan scanner [] = none
  scan scanner (piece ∷ pieces) =
      let (next, hit) = feed scanner piece in
      let later = scan next pieces in elim hit [ some label ↦ some label | none ↦ later ]
