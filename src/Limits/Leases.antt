-- ===== src/Limits/Leases.antt =====
-- What concurrency leases promise.

use five_api.Base.{
  ℕ, ◌+◌, ◌≤◌, ◌≡◌, refl, Bool, true, none, some, List, [], ◌∷◌, arith, if◌then◌else◌, length,
  insert, erase, keep_if, ltb, ap,
}
use five_api.Base.Int.{pos}
use five_api.Redis.{Redis, RedisKey, Scope, key, tenant, concurrency, same_key}
use five_api.Limits.Concurrency.{
  lease_ttl, has_lease, acquire, acquire_script, refresh_script, release, release_script,
}

-- What workers do with the leases of one owner, and the lapse of its key.
pub data Use : Type 0 where
  take_lease renew_lease : ℕ → ℕ → Use
  drop_lease : ℕ → Use
  lapse : Use

length-keep_if : (p : ℕ × ℕ → Bool) (d : List (ℕ × ℕ)) → length (keep_if p d) ≤ length d
length-keep_if p [] = omega arith
length-keep_if p (e ∷ d) = ground (arith, length-keep_if p d)

length-erase : (k : ℕ) (d : List (ℕ × ℕ)) → length (erase k d) ≤ length d
length-erase k [] = omega arith
length-erase k (e ∷ d) = ground (arith, length-erase k d)

length-insert : (k v : ℕ) (d : List (ℕ × ℕ)) → length (insert k v d) ≤ length d + 1
length-insert k v [] = omega arith
length-insert k v (e ∷ d) = ground (arith, length-insert k v d)

length-insert_known :
    (k v : ℕ) (d : List (ℕ × ℕ)) → has_lease k d ≡ true → length (insert k v d) ≡ length d
length-insert_known k v [] h = ground arith
length-insert_known k v (e ∷ d) h = ground (arith, length-insert_known k v d)

module _ (r : Redis) where
  open r use {
    Store, del, zrange, zadd, zrem, zremrangebyscore, zrange-zadd, zrange-zrem,
    zrange-zremrangebyscore, zrange-del,
  }

  module _ (scope : Scope) (id limit : ℕ) where
    abbrev owner_key : RedisKey
    owner_key = concurrency scope id

    unfoldable pub used_by : Use → Store → Store
    used_by (take_lease lease now) s = (acquire r scope id (pos limit) lease now s).0
    used_by (renew_lease lease now) s = (refresh_script r owner_key lease now s).0
    used_by (drop_lease lease) s = release r scope id (some lease) s
    used_by lapse s = del owner_key s

    unfoldable pub used_all : List Use → Store → Store
    used_all [] s = s
    used_all (u ∷ us) s = used_all us (used_by u s)

    abbrev held : Store → ℕ
    held s = length (zrange owner_key s)

    self : same_key owner_key owner_key ≡ true
    self = elim scope as (λ x. same_key (concurrency x id) (concurrency x id) ≡ true) [
      | key ↦ ground arith
      | tenant ↦ ground arith
    ]

    held-zadd :
        (score lease : ℕ) (s : Store)
        → zrange owner_key (zadd owner_key score lease s) ≡ insert lease score (zrange owner_key s)
    held-zadd score lease s = rw (zrange-zadd owner_key owner_key score lease s, self) refl

    held-zrem :
        (lease : ℕ) (s : Store)
        → zrange owner_key (zrem owner_key lease s) ≡ erase lease (zrange owner_key s)
    held-zrem lease s = rw (zrange-zrem owner_key owner_key lease s, self) refl

    held-purge :
        (now : ℕ) (s : Store)
        → zrange owner_key (zremrangebyscore owner_key now s)
          ≡ keep_if (λ e. ltb now e.1) (zrange owner_key s)
    held-purge now s = rw (zrange-zremrangebyscore owner_key owner_key now s, self) refl

    held-del : (s : Store) → zrange owner_key (del owner_key s) ≡ []
    held-del s = rw (zrange-del owner_key owner_key s, self) refl

    take_bound :
        (lease now : ℕ) (s : Store)
        → held s ≤ limit
        → held (used_by (take_lease lease now) s) ≤ limit
    unfolding used_by acquire acquire_script
    take_bound lease now s h =
        let live = zremrangebyscore owner_key now s in
        let fewer : held live ≤ held s =
          rw (held-purge now s) (length-keep_if _ (zrange owner_key s)) in
        let one_more : held (zadd owner_key (now + lease_ttl) lease live) ≤ held live + 1 =
          rw (held-zadd (now + lease_ttl) lease live)
            (length-insert lease (now + lease_ttl) (zrange owner_key live)) in
        ground (arith, fewer, one_more)

    renew_bound :
        (lease now : ℕ) (s : Store)
        → held s ≤ limit
        → held (used_by (renew_lease lease now) s) ≤ limit
    unfolding used_by refresh_script
    renew_bound lease now s h =
        let as_many : has_lease lease (zrange owner_key s) ≡ true
            → held (zadd owner_key (now + lease_ttl) lease s) ≡ held s =
          λ t.
            rw (held-zadd (now + lease_ttl) lease s)
              (length-insert_known lease (now + lease_ttl) (zrange owner_key s) t) in
        ground (arith, as_many)

    drop_bound :
        (lease : ℕ) (s : Store) → held s ≤ limit → held (used_by (drop_lease lease) s) ≤ limit
    unfolding used_by release release_script
    drop_bound lease s h =
        let fewer : held (zrem owner_key lease s) ≤ held s =
          rw (held-zrem lease s) (length-erase lease (zrange owner_key s)) in
        ground (arith, fewer, ap length (held-del (zrem owner_key lease s)))

    used_bound : (u : Use) (s : Store) → held s ≤ limit → held (used_by u s) ≤ limit
    used_bound (take_lease lease now) s h = take_bound lease now s h
    used_bound (renew_lease lease now) s h = renew_bound lease now s h
    used_bound (drop_lease lease) s h = drop_bound lease s h
    used_bound lapse s h = unfold used_by in rw (held-del s) (omega arith)

    -- Whatever calls take, renew and drop their leases in whatever order, an owner within its limit
    -- of concurrent calls never holds more leases than that limit.
    pub used_all-bound : (us : List Use) (s : Store) → held s ≤ limit → held (used_all us s) ≤ limit
    unfolding used_all
    used_all-bound [] s h = h
    used_all-bound (u ∷ us) s h = used_all-bound us (used_by u s) (used_bound u s h)

    -- A call gets a lease exactly when fewer than the limit are live, and lapsed leases are dropped
    -- either way.
    pub acquire-grants :
        (lease now : ℕ) (s : Store)
        → let (s', answer) = acquire r scope id (pos limit) lease now s in
          let live = keep_if (λ e. ltb now e.1) (zrange owner_key s) in
          (answer ≡ (if ltb (length live) limit then some (some lease) else none))
          × (zrange owner_key s'
              ≡ (if ltb (length live) limit then insert lease (now + lease_ttl) live else live))
    unfolding acquire acquire_script
    acquire-grants lease now s =
        let live = zremrangebyscore owner_key now s in
        let purged = held-purge now s in
        let added = held-zadd (now + lease_ttl) lease live in
        ground (arith, purged, added, ap length purged)
