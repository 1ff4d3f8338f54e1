-- ===== src/Pricing/Catalog.antt =====
-- The built-in price catalog: DEFAULT_MODEL_PRICES and catalog_prices of
-- backend/app/services/pricing.py, in millionths of a dollar.
use text.Mathlib.Text.{starts_with}
use five_api.Base.{ℕ, ◌*◌, ◌/◌, String, Option, none, some, List, [], ◌∷◌, if◌then◌else◌}
use five_api.Models.{Prices}
use mathlib.Core.Option

-- An entry of the catalog; a field that is left out has a default.
pub record CatalogEntry : Type 0 where
  pub prompt : ℕ
  pub completion : ℕ
  pub cached : Option ℕ
  pub request : Option ℕ
  pub cache_write : Option ℕ

abbrev listed : String → ℕ → ℕ → ℕ → String × CatalogEntry
listed name prompt completion cached = (
  name,
  record {
    prompt = prompt;
    completion = completion;
    cached = some cached;
    request = none;
    cache_write = none;
  },
)

abbrev video : String → ℕ → String × CatalogEntry
video name request = (
  name,
  record { prompt = 0; completion = 0; cached = none; request = some request; cache_write = none },
)

abbrev pub default_model_prices : List (String × CatalogEntry)
default_model_prices =
    listed "gpt-5.6" 5_000_000 30_000_000 500_000
    ∷ listed "gpt-5.6-sol" 5_000_000 30_000_000 500_000
    ∷ listed "gpt-5.6-terra" 2_500_000 15_000_000 250_000
    ∷ listed "gpt-5.6-luna" 1_000_000 6_000_000 100_000
    ∷ video "sora-2" 100_000
    ∷ video "sora-2-pro" 300_000
    ∷ listed "gpt-5.5" 5_000_000 30_000_000 500_000
    ∷ listed "gpt-5.5-2026-04-23" 5_000_000 30_000_000 500_000
    ∷ listed "gpt-5.5-pro" 30_000_000 180_000_000 3_000_000
    ∷ listed "gpt-5.5-pro-2026-04-23" 30_000_000 180_000_000 3_000_000
    ∷ listed "gpt-5.4" 2_500_000 15_000_000 250_000
    ∷ listed "gpt-5.4-2026-03-05" 2_500_000 15_000_000 250_000
    ∷ listed "gpt-5.4-mini" 750_000 4_500_000 75_000
    ∷ listed "gpt-5.4-mini-2026-03-17" 750_000 4_500_000 75_000
    ∷ listed "gpt-5.4-nano" 200_000 1_250_000 20_000
    ∷ listed "gpt-5.4-nano-2026-03-17" 200_000 1_250_000 20_000
    ∷ listed "gpt-5" 1_250_000 10_000_000 125_000
    ∷ listed "gpt-5-2025-08-07" 1_250_000 10_000_000 125_000
    ∷ listed "gpt-5-pro" 15_000_000 120_000_000 0
    ∷ listed "gpt-5-pro-2025-10-06" 15_000_000 120_000_000 0
    ∷ listed "gpt-5-mini" 250_000 2_000_000 25_000
    ∷ listed "gpt-5-mini-2025-08-07" 250_000 2_000_000 25_000
    ∷ listed "gpt-5-nano" 50_000 400_000 5_000
    ∷ listed "gpt-5-nano-2025-08-07" 50_000 400_000 5_000
    ∷ listed "gpt-4.1" 2_000_000 8_000_000 500_000
    ∷ listed "gpt-4.1-mini" 400_000 1_600_000 100_000
    ∷ listed "gpt-4.1-nano" 100_000 400_000 25_000
    ∷ listed "gpt-4o" 2_500_000 10_000_000 1_250_000
    ∷ listed "gpt-4o-2024-11-20" 2_500_000 10_000_000 1_250_000
    ∷ listed "gpt-4o-mini" 150_000 600_000 75_000
    ∷ listed "gpt-4-turbo" 10_000_000 30_000_000 5_000_000
    ∷ listed "o3" 2_000_000 8_000_000 500_000
    ∷ listed "o3-pro" 20_000_000 80_000_000 10_000_000
    ∷ listed "o4-mini" 1_100_000 4_400_000 275_000
    ∷ listed "o3-mini" 1_100_000 4_400_000 550_000
    ∷ listed "o1" 15_000_000 60_000_000 7_500_000
    ∷ listed "o1-mini" 1_100_000 4_400_000 550_000
    ∷ listed "claude-fable-5" 10_000_000 50_000_000 1_000_000
    ∷ listed "claude-mythos-5" 10_000_000 50_000_000 1_000_000
    ∷ listed "claude-opus-5" 5_000_000 25_000_000 500_000
    ∷ listed "claude-sonnet-5" 3_000_000 15_000_000 300_000
    ∷ listed "claude-opus-4-8" 5_000_000 25_000_000 500_000
    ∷ listed "claude-opus-4-7" 5_000_000 25_000_000 500_000
    ∷ listed "claude-opus-4-6" 5_000_000 25_000_000 500_000
    ∷ listed "claude-opus-4-5-20251101" 5_000_000 25_000_000 500_000
    ∷ listed "claude-sonnet-4-6" 3_000_000 15_000_000 300_000
    ∷ listed "claude-sonnet-4-5-20250929" 3_000_000 15_000_000 300_000
    ∷ listed "claude-haiku-4-5-20251001" 1_000_000 5_000_000 100_000
    ∷ listed "claude-haiku-4-5" 1_000_000 5_000_000 100_000
    ∷ listed "gemini-3.6-flash" 1_500_000 7_500_000 150_000
    ∷ listed "gemini-3.5-flash" 1_500_000 9_000_000 150_000
    ∷ listed "gemini-3.5-flash-lite" 300_000 2_500_000 30_000
    ∷ listed "gemini-3.1-pro-preview" 2_000_000 12_000_000 200_000
    ∷ listed "gemini-3-flash-preview" 500_000 3_000_000 50_000
    ∷ listed "gemini-3.1-flash-lite" 250_000 1_500_000 25_000
    ∷ listed "gemini-2.5-pro" 1_250_000 10_000_000 125_000
    ∷ listed "gemini-2.5-flash" 300_000 2_500_000 30_000
    ∷ listed "gemini-2.5-flash-lite" 100_000 400_000 10_000
    ∷ listed "gemini-2.0-flash" 100_000 400_000 10_000
    ∷ listed "gemini-1.5-pro" 1_250_000 5_000_000 312_500
    ∷ listed "gemini-1.5-flash" 75_000 300_000 18_750
    ∷ listed "qwen3.7-max" 1_650_000 4_951_000 165_000
    ∷ listed "qwen3.7-max-2026-06-08" 1_650_000 4_951_000 165_000
    ∷ listed "qwen3.7-max-2026-05-20" 1_650_000 4_951_000 165_000
    ∷ listed "qwen3.7-plus" 276_000 1_101_000 27_600
    ∷ listed "qwen3.7-plus-2026-05-26" 276_000 1_101_000 27_600
    ∷ listed "qwen3.6-plus" 276_000 1_651_000 27_600
    ∷ listed "qwen3.6-plus-2026-04-02" 276_000 1_651_000 27_600
    ∷ listed "qwen3.6-flash" 165_000 990_000 16_500
    ∷ listed "qwen3.6-flash-2026-04-16" 165_000 990_000 16_500
    ∷ listed "qwen3-max" 359_000 1_434_000 35_900
    ∷ listed "qwen3-max-2026-01-23" 359_000 1_434_000 35_900
    ∷ listed "qwen-max" 1_600_000 6_400_000 160_000
    ∷ listed "qwen-plus" 260_000 780_000 26_000
    ∷ listed "qwen-turbo" 300_000 600_000 30_000
    ∷ listed "qwen-long" 500_000 2_000_000 50_000
    ∷ listed "deepseek-flash" 300_000 1_200_000 6_000
    ∷ listed "deepseek-v4-flash" 300_000 1_200_000 6_000
    ∷ listed "deepseek-v4-pro" 1_320_000 3_960_000 44_000
    ∷ listed "deepseek-r1" 550_000 2_190_000 55_000
    ∷ listed "grok-4.5" 2_000_000 6_000_000 300_000
    ∷ listed "grok-4.3" 1_250_000 2_500_000 200_000
    ∷ listed "grok-4.20" 1_250_000 2_500_000 200_000
    ∷ listed "grok-4.20-0309-reasoning" 1_250_000 2_500_000 200_000
    ∷ listed "grok-4.20-0309-non-reasoning" 1_250_000 2_500_000 200_000
    ∷ listed "grok-4.20-multi-agent-0309" 1_250_000 2_500_000 200_000
    ∷ listed "grok-build-0.1" 1_000_000 2_000_000 200_000
    ∷ listed "mistral-large-2512" 500_000 1_500_000 0
    ∷ []

-- Anthropic sells a cache write at 1.25 times the input price, other vendors as input.
unfoldable pub catalog_prices : String → CatalogEntry → Prices
catalog_prices model raw =
    let other = if starts_with model "claude-" then raw.prompt * 5 / 4 else raw.prompt in
    record {
      input = raw.prompt;
      output = raw.completion;
      cache_read = Option.get_or raw.cached 0;
      cache_write = Option.get_or raw.cache_write other;
      request = Option.get_or raw.request 0;
    }
