-- ===== src/Pricing/Bounds.antt =====
-- What a reservation promises about the charge that settles it.
use five_api.Base.{
  ℕ, ◌+◌, ◌-◌, ◌*◌, max, ◌≤◌, ◌≡◌, refl, true, Option, none, some, [], ◌∷◌, arith, if◌then◌else◌,
  ap, ◌↔◌, ◌⊎◌,
}
use five_api.Base.Int.{ℤ, pos, pos_part, neg_part}
use five_api.Models.{Quote, Quotes, SnapshotKey}
use five_api.Pricing.Rounding.{half_even, ceiling}
use five_api.Pricing.Quotes.{
  usd_step, million, factor, same_key, estimate_exact, largest_estimate, estimate_quotes, Buckets,
  exact_lines, exact_savings, is_negative, total, Charge, charge, quote_cost,
}

-- `quotes.get(key)`
unfoldable pub snapshot_at : SnapshotKey → Quotes → Option Quote
snapshot_at k [] = none
snapshot_at k ((j, q) ∷ qs) = if same_key j k then some q else snapshot_at k qs

half_even-le-ceiling : (n m : ℕ) → n ≤ m → half_even n usd_step ≤ ceiling m usd_step
unfolding half_even ceiling
half_even-le-ceiling n m h = ground arith

estimate-le-largest :
    (k : SnapshotKey) (qs : Quotes) (i o u : ℕ) (q : Quote)
    → snapshot_at k qs ≡ some q
    → estimate_exact q i o u ≤ largest_estimate qs i o u
unfolding snapshot_at
estimate-le-largest k [] i o u q h = cc
estimate-le-largest k ((j, p) ∷ qs) i o u q h = ground (arith, estimate-le-largest k qs i o u q)

mul_mono_left : (a b m : ℕ) → a ≤ b → a * m ≤ b * m
mul_mono_left a b m h = grind arith

mul_mono_right : (f a m : ℕ) → a ≤ m → f * a ≤ f * m
mul_mono_right f a m h = grind arith

-- Three buckets at their own prices cost no more than all of them at the highest.
buckets-le-max :
    (f r w i a b c m : ℕ) → f + r + w ≤ i → a ≤ m → b ≤ m → c ≤ m → f * a + r * b + w * c ≤ i * m
buckets-le-max f r w i a b c m h ha hb hc = omega (
  arith,
  mul_mono_right f a m ha,
  mul_mono_right r b m hb,
  mul_mono_right w c m hc,
  mul_mono_left (f + r + w) i m h,
)

total-le-estimate :
    (q : Quote) (t : Buckets) (i o u : ℕ)
    → t.fresh + t.cache_read + t.cache_write ≤ i
    → t.output ≤ o
    → t.request_units ≤ u
    → total (exact_lines q t) ≤ estimate_exact q i o u
unfolding exact_lines estimate_exact
total-le-estimate q t i o u hi ho hu =
    let p = q.prices in
    let highest = max p.input (max p.cache_write p.cache_read) in
    let tokens =
      buckets-le-max t.fresh t.cache_read t.cache_write i p.input p.cache_read p.cache_write highest
        hi (omega arith) (omega arith) (omega arith) in
    let out = mul_mono_left t.output o p.output ho in
    let units = mul_mono_left t.request_units u p.request hu in
    omega (
      arith,
      mul_mono_left
          (t.fresh * p.input
            + t.cache_read * p.cache_read
            + t.cache_write * p.cache_write
            + t.output * p.output
            + t.request_units * p.request * million)
          (i * highest + o * p.output + u * p.request * million) (factor q) (omega arith),
    )

-- A request that stays within its reservation's tokens, under any of the quotes that were snapshot
-- for it, is charged, and for no more than the reserved amount, rounding included.
pub charge-le-estimate :
    (k : SnapshotKey) (qs : Quotes) (q : Quote) (prompt output read write units i o u : ℕ)
    → snapshot_at k qs ≡ some q
    → read + write ≤ prompt
    → prompt ≤ i
    → output ≤ o
    → units ≤ u
    → (c : Charge) × (quote_cost q (pos prompt) (pos output) (pos read) (pos write) (pos units)
        ≡ some c)
      × (c.cost ≤ estimate_quotes qs i o u)
unfolding quote_cost charge estimate_quotes
charge-le-estimate k qs q prompt output read write units i o u found cache hp ho hu =
    let tokens : Buckets = record {
      fresh = prompt - read - write;
      output = output;
      cache_read = read;
      cache_write = write;
      request_units = units;
    } in
    (
      charge q tokens,
      refl,
      half_even-le-ceiling (total (exact_lines q tokens)) (largest_estimate qs i o u) (
          omega (
            arith,
            total-le-estimate q tokens i o u (omega arith) ho hu,
            estimate-le-largest k qs i o u q found,
          )),
    )

-- Every reported token is billed in exactly one bucket: fresh input and both cache buckets add up
-- to the prompt, or to the cache counts where an upstream reports more cached than prompt tokens.
pub buckets-add_up :
    (q : Quote) (prompt output read write units : ℕ) (c : Charge)
    → quote_cost q (pos prompt) (pos output) (pos read) (pos write) (pos units) ≡ some c
    → (c.tokens.fresh + c.tokens.cache_read + c.tokens.cache_write ≡ max prompt (read + write))
      × (c.tokens.output ≡ output)
      × (c.tokens.request_units ≡ units)
unfolding quote_cost charge
buckets-add_up q prompt output read write units c h = ground arith

tokens-charge : (q : Quote) (t : Buckets) → (charge q t).tokens ≡ t
unfolding charge
tokens-charge q t = refl

half_even_nearest :
    (n : ℕ)
    → (2 * (half_even n usd_step * usd_step) ≤ 2 * n + usd_step)
      × (2 * n ≤ 2 * (half_even n usd_step * usd_step) + usd_step)
unfolding half_even
half_even_nearest n = ground arith

-- What is charged is the charge of the billed buckets.
charge-tokens :
    (q : Quote) (prompt output read write units : ℤ) (c : Charge)
    → quote_cost q prompt output read write units ≡ some c
    → c ≡ charge q c.tokens
unfolding quote_cost
charge-tokens q prompt output read write units c h = grind (arith, tokens-charge)

-- The charge is the exact price of the billed buckets, to the nearest millionth of a dollar.
pub charge_is_nearest :
    (q : Quote) (prompt output read write units : ℤ) (c : Charge)
    → quote_cost q prompt output read write units ≡ some c
    → (2 * (c.cost * usd_step) ≤ 2 * total (exact_lines q c.tokens) + usd_step)
      × (2 * total (exact_lines q c.tokens) ≤ 2 * (c.cost * usd_step) + usd_step)
charge_is_nearest q prompt output read write units c h =
    rw (ap (λ (x : Charge). x.cost) (charge-tokens q prompt output read write units c h))
      (unfold charge in half_even_nearest (total (exact_lines q c.tokens)))

-- A charge is refused exactly when some reported count is negative.
pub quote_cost-eq-none :
    (q : Quote) (prompt output read write units : ℤ)
    → (quote_cost q prompt output read write units ≡ none) ↔ (
        (is_negative prompt ≡ true)
        ⊎ (is_negative output ≡ true)
        ⊎ (is_negative read ≡ true)
        ⊎ (is_negative write ≡ true)
        ⊎ (is_negative units ≡ true))
unfolding quote_cost
quote_cost-eq-none q prompt output read write units = ground arith

-- The reported saving is what the cache made the same tokens cheaper by, before rounding: with no
-- cache every prompt token is fresh input.
pub savings-exact :
    (q : Quote) (t : Buckets)
    → let s = exact_savings q t.cache_read t.cache_write in
      let uncached = record t {
        fresh = t.fresh + t.cache_read + t.cache_write;
        cache_read = 0;
        cache_write = 0;
      } in
      total (exact_lines q t) + pos_part s ≡ total (exact_lines q uncached) + neg_part s
unfolding exact_lines exact_savings
savings-exact q t = ground arith
