-- ===== src/Pricing/Examples.antt =====
-- A model that is sold under an alias, and a request's charge within its reservation.
use five_api.Base.{
  ◌+◌, ◌*◌, ◌≤◌, ◌≡◌, refl, ◌≢◌, none, some, String, List, [], ◌∷◌, ok, arith, eq_iff, true,
}
use five_api.Base.Int.{pos}
use five_api.Models.{ModelPrice, Channel, Quote, Quotes, at_channel, from_global}
use five_api.Pricing.Quotes.{
  get, quote, row_prices, Candidate, snapshot_quotes, snapshot_candidates, selling_quote,
  pick_quote, price_rows, first_present, quote_names, channel_override, usd_step, exact_lines,
  total, exact_savings, estimate_quotes, quote_cost, Charge, charge,
}
use five_api.Pricing.Bounds.{
  snapshot_at, charge-le-estimate, buckets-add_up, charge_is_nearest, savings-exact,
}
use five_api.Pricing.Snapshots.{candidate_key, snapshot_quotes-covers, selling_quote_alias_wins}

abbrev sold_row : ModelPrice
sold_row = record {
  prompt_price = 2_000_000;
  completion_price = 8_000_000;
  cached_price = 500_000;
  cache_write_price = 2_500_000;
  request_price = 0;
  is_active = true;
}

abbrev upstream_row : ModelPrice
upstream_row = record sold_row { prompt_price = 1_000_000 }

abbrev price_table : List (String × ModelPrice)
price_table = ("upstream", upstream_row) ∷ ("alias", sold_row) ∷ []

abbrev west : Channel
west = record {
  id = 4;
  provider = "openai";
  models = "alias" ∷ [];
  model_mapping = ("alias", "upstream") ∷ [];
  price_multiplier = 12_000;
  price_overrides = [];
  priority = 0;
  weight = 1;
  is_enabled = true;
  max_retries = 1;
}

abbrev by_west : Candidate
by_west = record { channel = west; serving_model = none }

abbrev sold : Quote
sold = quote "upstream" from_global (row_prices sold_row) 12_000

abbrev snapshot : Quotes
snapshot = (at_channel 4 "upstream", sold) ∷ []

snapshot-west : snapshot_quotes "alias" price_table (by_west ∷ []) ≡ ok snapshot
unfolding snapshot_quotes snapshot_candidates selling_quote pick_quote price_rows first_present
    quote_names channel_override get
snapshot-west = refl

snapshot_quotes-covers_example : snapshot_at (candidate_key "alias" by_west) snapshot ≢ none
snapshot_quotes-covers_example =
    snapshot_quotes-covers "alias" price_table (by_west ∷ []) snapshot 0 by_west snapshot-west refl

alias_row : get "alias" price_table ≡ some sold_row
unfolding get
alias_row = refl

no_override : channel_override (some west) (quote_names "upstream" "alias") ≡ none
unfolding channel_override quote_names first_present get
no_override = refl

is_named : ◌≢◌ {A = String} "alias" ""
is_named e = absurd (ground (arith, eq_iff "alias" ""))

selling_quote_alias_wins_example :
    selling_quote "upstream" "alias" (some west) price_table ≡ ok sold
selling_quote_alias_wins_example =
    selling_quote_alias_wins "upstream" "alias" (some west) price_table sold_row is_named alias_row
      refl no_override

snapshot_at-west : snapshot_at (at_channel 4 "upstream") snapshot ≡ some sold
unfolding snapshot_at
snapshot_at-west = refl

-- 700 prompt tokens, 200 of them read from the cache and 100 written, and 50 of output.
charge-le-estimate_example :
    (c : Charge) × (quote_cost sold (pos 700) (pos 50) (pos 200) (pos 100) (pos 1) ≡ some c)
    × (c.cost ≤ estimate_quotes snapshot 1_000 100 1)
charge-le-estimate_example =
    charge-le-estimate (at_channel 4 "upstream") snapshot sold 700 50 200 100 1 1_000 100 1
      snapshot_at-west (omega arith) (omega arith) (omega arith) (omega arith)

abbrev billed_charge : Charge
billed_charge =
    charge sold
      (record { fresh = 400; output = 50; cache_read = 200; cache_write = 100; request_units = 1 })

quote_cost-billed :
    quote_cost sold (pos 700) (pos 50) (pos 200) (pos 100) (pos 1) ≡ some billed_charge
unfolding quote_cost
quote_cost-billed = refl

buckets-add_up_example :
    (billed_charge.tokens.fresh + billed_charge.tokens.cache_read + billed_charge.tokens.cache_write
      ≡ 700)
    × (billed_charge.tokens.output ≡ 50)
    × (billed_charge.tokens.request_units ≡ 1)
buckets-add_up_example = buckets-add_up sold 700 50 200 100 1 billed_charge quote_cost-billed

charge_is_nearest_example :
    (2 * (billed_charge.cost * usd_step)
      ≤ 2 * total (exact_lines sold billed_charge.tokens) + usd_step)
    × (2 * total (exact_lines sold billed_charge.tokens)
        ≤ 2 * (billed_charge.cost * usd_step) + usd_step)
charge_is_nearest_example =
    charge_is_nearest sold (pos 700) (pos 50) (pos 200) (pos 100) (pos 1) billed_charge
      quote_cost-billed

savings-exact_example :
    total (exact_lines sold billed_charge.tokens) + 3_000_000_000_000
    ≡ total (
        exact_lines sold
          (record billed_charge.tokens { fresh = 700; cache_read = 0; cache_write = 0 }))
unfolding exact_savings charge
savings-exact_example = savings-exact sold billed_charge.tokens
