-- ===== src/Pricing/Rounding.antt =====
-- `Decimal.quantize`: an exact amount of n parts, d of them to one step, as a number of steps.
use five_api.Base.{ℕ, ◌+◌, ◌-◌, ◌/◌, ◌%◌, ltb, ◌==◌, if◌then◌else◌}

-- The default rounding, ROUND_HALF_EVEN.
unfoldable pub half_even : ℕ → ℕ → ℕ
half_even n d =
    let q = n / d in
    let r = n % d in
    if ltb (r + r) d then q else if ltb d (r + r) then q + 1 else if q % 2 == 0 then q else q + 1

-- ROUND_CEILING
unfoldable pub ceiling : ℕ → ℕ → ℕ
ceiling n d = (n + (d - 1)) / d
