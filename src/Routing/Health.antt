-- ===== src/Routing/Health.antt =====
-- The circuit breaker of a channel: backend/app/services/channel_health.py.
use five_api.Base.{ℕ, suc, zero, Bool, not, ◌||◌, if◌then◌else◌}
use five_api.Base.Int.{pos, leb_ℤ}
use five_api.Redis.{Redis, health_fail, health_disabled, health_cooldown, or_zero, is_present}

module _ (r : Redis) where
  open r use {Store, get, set, incrby, del}

  unfoldable pub record_success : ℕ → Store → Store
  record_success id s = del (health_cooldown id) (del (health_disabled id) (del (health_fail id) s))

  -- `threshold` is the gateway's `channel_health_threshold`.
  unfoldable pub record_failure : ℕ → ℕ → ℕ → Store → Store
  record_failure threshold now id s =
      let counted = incrby (health_fail id) (pos 1) s in
      if leb_ℤ (pos threshold) (or_zero (get (health_fail id) counted))
      then set (health_disabled id) (pos now) counted
      else counted

  unfoldable pub is_channel_healthy : ℕ → Store → Bool
  is_channel_healthy id s =
      not (is_present (get (health_disabled id) s) || is_present (get (health_cooldown id) s))

  unfoldable pub record_rate_limit : ℕ → Store → Store
  record_rate_limit id s = set (health_cooldown id) (pos 1) s

  -- Failures one after another, each at its own time.
  unfoldable pub failures : (ℕ → ℕ) → ℕ → ℕ → ℕ → Store → Store
  failures clock threshold id zero s = s
  failures clock threshold id (suc n) s =
      record_failure threshold (clock n) id (failures clock threshold id n s)
