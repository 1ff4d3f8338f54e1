-- ===== src/Limits/Concurrency.antt =====
-- Concurrent calls: backend/app/services/concurrency.py. A lease is a member of a sorted set whose
-- score is the time at which it lapses; the task that keeps a lease alive repeats its refresh.

use five_api.Base.{
  ℕ, ◌+◌, Bool, true, false, Option, none, some, List, ◌==◌, if◌then◌else◌, length, lookup,
}
use five_api.Base.Int.{ℤ, pos, leb_ℤ, eqb_ℤ}
use five_api.Redis.{Redis, RedisKey, Scope, concurrency}
use five_api.Limits.Rate.{no_limit}

abbrev pub lease_ttl : ℕ
lease_ttl = 180

abbrev pub has_lease : ℕ → List (ℕ × ℕ) → Bool
has_lease lease held = elim (lookup lease held) [ none ↦ false | some score ↦ true ]

module _ (r : Redis) where
  open r use {Store, del, zrange, zadd, zrem, zremrangebyscore}

  -- ACQUIRE_SCRIPT
  unfoldable pub acquire_script : RedisKey → ℤ → ℕ → ℕ → Store → Store × Bool
  acquire_script k limit lease now s =
      let live = zremrangebyscore k now s in
      if leb_ℤ limit (pos (length (zrange k live)))
      then (live, false)
      else (zadd k (now + lease_ttl) lease live, true)

  -- REFRESH_SCRIPT
  unfoldable pub refresh_script : RedisKey → ℕ → ℕ → Store → Store × Bool
  refresh_script k lease now s =
      if has_lease lease (zrange k s) then (zadd k (now + lease_ttl) lease s, true) else (s, false)

  -- RELEASE_SCRIPT
  unfoldable pub release_script : RedisKey → ℕ → Store → Store
  release_script k lease s =
      let left = zrem k lease s in if length (zrange k left) == 0 then del k left else left

  -- `lease` is the fresh identifier; `some none` is the empty lease of an owner without a limit, and
  -- `none` is ConcurrencyExceeded.
  unfoldable pub acquire : Scope → ℕ → ℤ → ℕ → ℕ → Store → Store × Option (Option ℕ)
  unfolding acquire_script
  acquire scope id limit lease now s =
      if eqb_ℤ limit no_limit
      then (s, some none)
      else (let (s', granted) = acquire_script (concurrency scope id) limit lease now s in
          (s', if granted then some (some lease) else none))

  unfoldable pub release : Scope → ℕ → Option ℕ → Store → Store
  unfolding release_script
  release scope id none s = s
  release scope id (some lease) s = release_script (concurrency scope id) lease s
