-- ===== src/Pricing/Quotes.antt =====
-- billing_quotes.py. An amount is exact in 10^-16 dollars until it is rounded: a price has six
-- decimals, a multiplier four, and a token price is per million.
mod Picking
unfoldable pub use Picking.*
use mathlib.Core.Option
use five_api.Base.{
  ℕ, ◌+◌, ◌-◌, ◌*◌, max, String, Bool, true, false, not, ◌||◌, ◌&&◌, ◌==◌, Option, none, some, List,
  [], ◌∷◌, str_eq, if◌then◌else◌, Result, ok, err, ◌>>=◌,
}
use five_api.Base.Int.{ℤ, pos, negsuc, pos_part, sub_ℕ}
use five_api.Models.{
  ModelPrice, PriceOverride, Channel, Prices, PriceSource, from_channel, from_global, from_catalog,
  Quote, Quotes, SnapshotKey, default, at_channel,
}
use five_api.Pricing.Rounding.{half_even, ceiling}
use five_api.Pricing.Catalog.{CatalogEntry, default_model_prices, catalog_prices}

-- A candidate: a channel, and the model that a fallback serves in place of the requested one.
pub record Candidate : Type 0 where
  pub channel : Channel
  pub serving_model : Option String

abbrev pub target_model : Candidate → String → String
target_model c model = Option.get_or c.serving_model model

abbrev pub mapped_model : Channel → String → String
mapped_model ch target = Option.get_or (get target ch.model_mapping) target

abbrev pub same_key : SnapshotKey → SnapshotKey → Bool
same_key default default = true
same_key (at_channel c m) (at_channel d n) = (c == d) && str_eq m n
same_key _ _ = false

-- `snapshots[key] = ...`
abbrev pub put_snapshot : SnapshotKey → Quote → Quotes → Quotes
put_snapshot k q [] = (k, q) ∷ []
put_snapshot k q (e ∷ d) = if same_key e.0 k then (k, q) ∷ d else e ∷ put_snapshot k q d

-- The loop of `snapshot_quotes`; its memo of rows by names is a cache of the same reads.
unfoldable pub snapshot_candidates :
    String → List (String × ModelPrice) → Quotes → List Candidate → Result Unavailable Quotes
snapshot_candidates model table acc [] = ok acc
snapshot_candidates model table acc (c ∷ cs) =
    let target = target_model c model in
    let actual = mapped_model c.channel target in
    elim (selling_quote actual target (some c.channel) table) [
      | err e ↦ err e
      | ok q ↦
          snapshot_candidates model table (put_snapshot (at_channel c.channel.id actual) q acc) cs
    ]

unfoldable pub snapshot_quotes :
    String → List (String × ModelPrice) → List Candidate → Result Unavailable Quotes
snapshot_quotes model table [] = do q ← selling_quote model "" none table; ok ((default, q) ∷ [])
snapshot_quotes model table (c ∷ cs) = snapshot_candidates model table [] (c ∷ cs)

abbrev pub factor : Quote → ℕ
factor q = Option.get_or q.multiplier one

-- One quote's share of the estimate, exact.
unfoldable pub estimate_exact : Quote → ℕ → ℕ → ℕ → ℕ
estimate_exact q input_tokens output_tokens request_units =
    let p = q.prices in
    (input_tokens * max p.input (max p.cache_write p.cache_read)
      + output_tokens * p.output
      + request_units * p.request * million)
    * factor q

abbrev pub largest_estimate : Quotes → ℕ → ℕ → ℕ → ℕ
largest_estimate [] i o u = 0
largest_estimate ((k, q) ∷ qs) i o u = max (estimate_exact q i o u) (largest_estimate qs i o u)

unfoldable pub estimate_quotes : Quotes → ℕ → ℕ → ℕ → ℕ
unfolding estimate_exact ceiling
estimate_quotes quotes i o u = ceiling (largest_estimate quotes i o u) usd_step

-- The tokens by price bucket; what the cache accounts for is not fresh input.
pub record Buckets : Type 0 where
  pub fresh : ℕ
  pub output : ℕ
  pub cache_read : ℕ
  pub cache_write : ℕ
  pub request_units : ℕ

-- The line items of one charge, exact.
pub record Lines : Type 0 where
  pub input : ℕ
  pub output : ℕ
  pub cache_read : ℕ
  pub cache_write : ℕ
  pub request : ℕ

unfoldable pub exact_lines : Quote → Buckets → Lines
exact_lines q t =
    let p = q.prices in
    record {
      input = t.fresh * p.input * factor q;
      output = t.output * p.output * factor q;
      cache_read = t.cache_read * p.cache_read * factor q;
      cache_write = t.cache_write * p.cache_write * factor q;
      request = t.request_units * p.request * factor q * million;
    }

pub record Charge : Type 0 where
  pub cost : ℕ
  pub cache_savings : ℤ
  pub tokens : Buckets
  pub lines : Lines

abbrev pub half_even_ℤ : ℤ → ℕ → ℤ
half_even_ℤ (pos n) d = pos (half_even n d)
half_even_ℤ (negsuc n) d = sub_ℕ 0 (half_even (n + 1) d)

abbrev round_lines : Lines → Lines
round_lines l = record {
  input = half_even l.input usd_step;
  output = half_even l.output usd_step;
  cache_read = half_even l.cache_read usd_step;
  cache_write = half_even l.cache_write usd_step;
  request = half_even l.request usd_step;
}

abbrev pub total : Lines → ℕ
total l = l.input + l.output + l.cache_read + l.cache_write + l.request

-- What the cache saved: reads below the input price, less writes above it.
unfoldable pub exact_savings : Quote → ℕ → ℕ → ℤ
exact_savings q read write =
    let p = q.prices in
    sub_ℕ ((read * p.input + write * p.input) * factor q)
      ((read * p.cache_read + write * p.cache_write) * factor q)

abbrev pub is_negative : ℤ → Bool
is_negative (pos n) = false
is_negative (negsuc n) = true

unfoldable pub charge : Quote → Buckets → Charge
unfolding exact_lines exact_savings half_even
charge q t =
    let lines = exact_lines q t in
    record {
      cost = half_even (total lines) usd_step;
      cache_savings = half_even_ℤ (exact_savings q t.cache_read t.cache_write) usd_step;
      tokens = t;
      lines = round_lines lines;
    }

-- `none` is the ValueError on a negative count.
unfoldable pub quote_cost : Quote → ℤ → ℤ → ℤ → ℤ → ℤ → Option Charge
quote_cost q prompt output cache_read cache_write request_units =
    if is_negative prompt
      || is_negative output
      || is_negative cache_read
      || is_negative cache_write
      || is_negative request_units
    then none
    else some (
        charge q (record {
          fresh = pos_part prompt - pos_part cache_read - pos_part cache_write;
          output = pos_part output;
          cache_read = pos_part cache_read;
          cache_write = pos_part cache_write;
          request_units = pos_part request_units;
        }))
