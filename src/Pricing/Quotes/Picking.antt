-- ===== src/Pricing/Quotes/Picking.antt =====
-- Which price a model is sold at: the first half of backend/app/services/billing_quotes.py.
use mathlib.Core.Option
use five_api.Base.{
  ℕ, String, Bool, false, not, ◌||◌, Option, none, some, List, [], ◌∷◌, str_eq, if◌then◌else◌,
  Result, ok, err,
}
use five_api.Models.{
  ModelPrice, PriceOverride, Channel, Prices, PriceSource, from_channel, from_global, from_catalog,
  Quote,
}
use five_api.Pricing.Catalog.{CatalogEntry, default_model_prices, catalog_prices}

-- 10^-6 dollars per 10^-16 dollars, and the requests' share of a token price.
abbrev pub usd_step : ℕ
usd_step = 10_000_000_000

abbrev pub million : ℕ
million = 1_000_000

abbrev pub one : ℕ
one = 10_000

-- Both are HTTP 503, `pricing_unavailable`.
pub data Unavailable : Type 0 where
  price_disabled price_missing : Unavailable

-- A dict with text keys.
module _ {ℓ} {V : Type ℓ} where
  unfoldable pub get : String → List (String × V) → Option V
  get k [] = none
  get k ((j, v) ∷ m) = if str_eq j k then some v else get k m

  -- `next((rows[name] for name in names if name in rows), None)`
  unfoldable pub first_present : List String → List (String × V) → Option V
  unfolding get
  first_present [] rows = none
  first_present (n ∷ ns) rows =
      let rest = first_present ns rows in elim (get n rows) [ some v ↦ some v | none ↦ rest ]

-- `[name for name in dict.fromkeys([alias, model]) if name]`
unfoldable pub quote_names : String → String → List String
quote_names model alias =
    if str_eq alias ""
    then (if str_eq model "" then [] else model ∷ [])
    else if str_eq model "" || str_eq model alias
    then alias ∷ []
    else alias ∷ model ∷ []

abbrev pub or_zero : Option ℕ → ℕ
or_zero none = 0
or_zero (some n) = n

abbrev pub override_prices : PriceOverride → Prices
override_prices raw =
    let prompt = or_zero raw.prompt in
    record {
      input = prompt;
      output = or_zero raw.completion;
      cache_read = or_zero raw.cached;
      cache_write = Option.get_or raw.cache_write prompt;
      request = or_zero raw.request;
    }

unfoldable pub channel_override : Option Channel → List String → Option Prices
unfolding first_present
channel_override none names = none
channel_override (some ch) names = elim (first_present names ch.price_overrides) [
  | none ↦ none
  | some raw ↦ some (override_prices raw)
]

abbrev pub row_prices : ModelPrice → Prices
row_prices row = record {
  input = row.prompt_price;
  output = row.completion_price;
  cache_read = row.cached_price;
  cache_write = row.cache_write_price;
  request = row.request_price;
}

abbrev pub channel_multiplier : Option Channel → ℕ
channel_multiplier none = one
channel_multiplier (some ch) = ch.price_multiplier

-- `next((name for name in names if name in DEFAULT_MODEL_PRICES), None)`, with the entry.
unfoldable pub first_listed : List String → List (String × CatalogEntry) → Option Prices
unfolding get catalog_prices
first_listed [] table = none
first_listed (n ∷ ns) table =
    let rest = first_listed ns table in
    elim (get n table) [ some raw ↦ some (catalog_prices n raw) | none ↦ rest ]

-- Whether a row forbids the model.
abbrev pub is_disabled : Option ModelPrice → Bool
is_disabled none = false
is_disabled (some row) = not row.is_active

abbrev pub quote : String → PriceSource → Prices → ℕ → Quote
quote model source prices multiplier = record {
  model = model;
  source = source;
  prices = prices;
  multiplier = some multiplier;
}

-- The price by the model's row, or else by the catalog.
abbrev pub priced :
    String → List String → Option ModelPrice → Option Channel → Result Unavailable Quote
priced model names (some row) ch =
    ok (quote model from_global (row_prices row) (channel_multiplier ch))
priced model names none ch = elim (first_listed names default_model_prices) [
  | none ↦ err price_missing
  | some prices ↦ ok (quote model from_catalog prices (channel_multiplier ch))
]

unfoldable pub pick_quote :
    String → List String → List (String × ModelPrice) → Option Channel → Result Unavailable Quote
pick_quote model names rows ch =
    let row = first_present names rows in
    if is_disabled row then err price_disabled else elim (channel_override ch names) [
      | some prices ↦ ok (quote model from_channel prices one)
      | none ↦ priced model names row ch
    ]

-- `price_rows(names)`: the rows of the asked names; a lookup by one of them sees the same row.
abbrev pub has_name : String → List String → Bool
has_name n [] = false
has_name n (m ∷ ms) = str_eq n m || has_name n ms

unfoldable pub price_rows : List String → List (String × ModelPrice) → List (String × ModelPrice)
price_rows names [] = []
price_rows names ((n, row) ∷ rows) =
    let rest = price_rows names rows in if has_name n names then (n, row) ∷ rest else rest

unfoldable pub selling_quote :
    String → String → Option Channel → List (String × ModelPrice) → Result Unavailable Quote
selling_quote model alias ch table =
    let names = quote_names model alias in pick_quote model names (price_rows names table) ch
