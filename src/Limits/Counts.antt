-- ===== src/Limits/Counts.antt =====
-- What the counters of a window promise.

use five_api.Base.{
  ltb, ◌-◌, ℕ, suc, zero, ◌+◌, min, ◌≤◌, ◌≡◌, refl, true, arith, if◌then◌else◌, Bool-cases, inl,
  inr, ◌∙◌, ap,
}
use five_api.Base.Int.{ℤ, pos, ◌+ℤ◌}
use five_api.Redis.{Redis, RedisKey, Scope, key, tenant, rpm, tpm, is_present, same_key, same_scope}
use five_api.Limits.Rate.{
  neg, check_rpm, rpm_check_script, reserve_tpm, tpm_reserve_script, adjust_tpm, tpm_adjust_script,
  count_at, requests,
}

same_scope_self : (s : Scope) → same_scope s s ≡ true
same_scope_self key = refl
same_scope_self tenant = refl

module _ (r : Redis) where
  open r use {Store, get, incrby, del, get-incrby, get-del}

  count-incrby :
      (k : RedisKey) (d : ℤ) (s : Store)
      → same_key k k ≡ true
      → count_at r k (incrby k d s) ≡ count_at r k s +ℤ d
  count-incrby k d s e = rw (get-incrby k k d s, e) refl

  rpm_self : (scope : Scope) (id : ℕ) → same_key (rpm scope id) (rpm scope id) ≡ true
  rpm_self scope id = ground (arith, same_scope_self scope)

  tpm_self : (scope : Scope) (id : ℕ) → same_key (tpm scope id) (tpm scope id) ≡ true
  tpm_self scope id = ground (arith, same_scope_self scope)

  -- Counting one more, and taking it back.
  counted :
      (k : RedisKey) (n m : ℕ) (s : Store)
      → same_key k k ≡ true
      → count_at r k s ≡ pos n
      → count_at r k (incrby k (pos m) s) ≡ pos (n + m)
  unfolding ◌+ℤ◌
  counted k n m s e h = count-incrby k (pos m) s e ∙ ap (λ c. c +ℤ pos m) h ∙ ground arith

  taken_back :
      (k : RedisKey) (n m : ℕ) (s : Store)
      → same_key k k ≡ true
      → count_at r k s ≡ pos (n + m)
      → count_at r k (incrby k (neg (pos m)) s) ≡ pos n
  unfolding ◌+ℤ◌
  taken_back k n m s e h =
      count-incrby k (neg (pos m)) s e ∙ ap (λ c. c +ℤ neg (pos m)) h ∙ ground arith

  -- A check lets a request through and counts it, or refuses it and leaves the count as it was: it
  -- refuses exactly where the count has reached the limit.
  pub check_rpm-counts :
      (scope : Scope) (id limit n : ℕ) (s : Store)
      → count_at r (rpm scope id) s ≡ pos n
      → let (s', allowed) = check_rpm r scope id (pos limit) s in
        (allowed ≡ ltb n limit)
        × (count_at r (rpm scope id) s' ≡ pos (if ltb n limit then n + 1 else n))
  unfolding check_rpm rpm_check_script
  check_rpm-counts scope id limit n s h =
      let k = rpm scope id in
      let up = counted k n 1 s (rpm_self scope id) h in
      let down = taken_back k n 1 (incrby k (pos 1) s) (rpm_self scope id) up in
      elim (Bool-cases (ltb n limit)) [
        | inl below ↦ ground (arith, up)
        | inr full ↦ ground (arith, up, down)
      ]

  -- Of n requests of one owner within a window, exactly as many are let through as the limit leaves
  -- room for.
  pub requests-count :
      (scope : Scope) (id limit used n : ℕ) (s : Store)
      → count_at r (rpm scope id) s ≡ pos used
      → used ≤ limit
      → (requests r scope id (pos limit) n s).1 ≡ min n (limit - used)
  unfolding requests
  requests-count scope id limit used zero s h le = omega arith
  requests-count scope id limit used (suc n) s h le =
      let (answer, count) = check_rpm-counts scope id limit used s h in
      let rest =
        requests-count scope id limit (if ltb used limit then used + 1 else used) n
          (check_rpm r scope id (pos limit) s).0 count (ground arith) in
      ground (arith, answer, rest)

  is_there :
      (k : RedisKey) (d : ℤ) (s : Store)
      → same_key k k ≡ true
      → is_present (get k (incrby k d s)) ≡ true
  is_there k d s e = rw (get-incrby k k d s, e) refl

  is_gone : (k : RedisKey) (s : Store) → same_key k k ≡ true → count_at r k (del k s) ≡ pos 0
  is_gone k s e = rw (get-del k k s, e) refl

  -- Tokens that were reserved and are given back leave the count as it was.
  pub adjust-reserve :
      (scope : Scope) (id limit used tokens : ℕ) (s : Store)
      → count_at r (tpm scope id) s ≡ pos used
      → (reserve_tpm r scope id (pos limit) (pos tokens) s).1 ≡ true
      → count_at r (tpm scope id) (
          adjust_tpm r scope id
            (pos limit)
            (neg (pos tokens))
            (reserve_tpm r scope id (pos limit) (pos tokens) s).0)
        ≡ pos used
  unfolding reserve_tpm tpm_reserve_script adjust_tpm tpm_adjust_script
  adjust-reserve scope id limit used zero s h ok = ground (arith, h)
  adjust-reserve scope id limit used (suc t) s h ok =
      let k = tpm scope id in
      let held = incrby k (pos (suc t)) s in
      let up = counted k used (suc t) s (tpm_self scope id) h in
      let down = taken_back k used (suc t) held (tpm_self scope id) up in
      let there = is_there k (pos (suc t)) s (tpm_self scope id) in
      let gone = is_gone k (incrby k (neg (pos (suc t))) held) (tpm_self scope id) in
      ground (arith, up, down, there, gone)
