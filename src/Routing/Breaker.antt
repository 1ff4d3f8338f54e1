-- ===== src/Routing/Breaker.antt =====
-- When the breaker of a channel is open.
use five_api.Base.{ℕ, ◌+◌, ◌≡◌, refl, true, ◌||◌, none, arith, leb, ◌==◌}
use five_api.Base.Int.{ℤ, pos}
use five_api.Redis.{Redis, health_fail, health_disabled, health_cooldown, or_zero, is_present}
use five_api.Routing.Health.{record_success, is_channel_healthy}

self_same : (n : ℕ) → (n == n) ≡ true
self_same n = ground arith

module _ (r : Redis) where
  open r use {Store, get, set, incrby, del, get-set, get-incrby, get-del}

  -- A success closes the breaker of a channel, ends its cooldown and forgets its failures.
  pub record_success-closes :
      (id : ℕ) (s : Store)
      → (is_channel_healthy r id (record_success r id s) ≡ true)
        × (get (health_fail id) (record_success r id s) ≡ none)
  unfolding record_success is_channel_healthy
  record_success-closes id s =
      (simp (get-del, self_same id) refl, simp (get-del, self_same id) refl)

  abbrev fails_at : ℕ → Store → ℤ
  fails_at id s = or_zero (get (health_fail id) s)

  -- What one more failure changes.
  abbrev OneMore : ℕ → ℕ → ℕ → Store → Store → Type 0
  OneMore threshold id n s s' =
      (fails_at id s' ≡ pos (n + 1))
      × (get (health_cooldown id) s' ≡ get (health_cooldown id) s)
      × (is_present (get (health_disabled id) s')
          ≡ (leb threshold (n + 1) || is_present (get (health_disabled id) s)))

  -- After n failures that followed a success.
  abbrev AfterFailures : ℕ → ℕ → ℕ → Store → Type 0
  AfterFailures threshold id n s =
      (fails_at id s ≡ pos n)
      × (get (health_cooldown id) s ≡ none)
      × (is_present (get (health_disabled id) s) ≡ leb threshold n)
