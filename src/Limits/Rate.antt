-- ===== src/Limits/Rate.antt =====
-- Requests and tokens per minute: backend/app/services/rate_limit.py. A counter that expires is a
-- key that is gone; nothing else in a script depends on its expiry.

use five_api.Base.{ℕ, suc, zero, ◌+◌, Bool, true, false, not, ◌||◌, if◌then◌else◌}
use five_api.Base.Int.{ℤ, pos, negsuc, ltb_ℤ, leb_ℤ, eqb_ℤ, pos_part, neg_part, sub_ℕ}
use five_api.Redis.{Redis, RedisKey, Scope, rpm, tpm, or_zero, is_present}

-- A limit of -1 is none.
abbrev pub no_limit : ℤ
no_limit = negsuc 0

abbrev pub neg : ℤ → ℤ
neg d = sub_ℕ (neg_part d) (pos_part d)

module _ (r : Redis) where
  open r use {Store, get, incrby, del, get-incrby, get-del}

  -- RPM_CHECK_SCRIPT: the store afterwards, and whether it answers 1.
  unfoldable pub rpm_check_script : RedisKey → ℤ → Store → Store × Bool
  rpm_check_script k limit s =
      let counted = incrby k (pos 1) s in
      if ltb_ℤ limit (or_zero (get k counted))
      then (incrby k (negsuc 0) counted, false)
      else (counted, true)

  -- `false` is RPMExceeded.
  unfoldable pub check_rpm : Scope → ℕ → ℤ → Store → Store × Bool
  unfolding rpm_check_script
  check_rpm scope id limit s =
      if eqb_ℤ limit no_limit then (s, true) else rpm_check_script (rpm scope id) limit s

  -- TPM_RESERVE_SCRIPT
  unfoldable pub tpm_reserve_script : RedisKey → ℤ → ℤ → Store → Store × Bool
  tpm_reserve_script k limit amount s =
      let counted = incrby k amount s in
      if ltb_ℤ limit (or_zero (get k counted))
      then (incrby k (neg amount) counted, false)
      else (counted, true)

  -- `false` is TPMExceeded.
  unfoldable pub reserve_tpm : Scope → ℕ → ℤ → ℤ → Store → Store × Bool
  unfolding tpm_reserve_script
  reserve_tpm scope id limit tokens s =
      if eqb_ℤ limit no_limit || leb_ℤ tokens (pos 0)
      then (s, true)
      else tpm_reserve_script (tpm scope id) limit tokens s

  -- TPM_ADJUST_SCRIPT
  unfoldable pub tpm_adjust_script : RedisKey → ℤ → Store → Store
  tpm_adjust_script k delta s =
      let changed = incrby k delta s in
      if not (is_present (get k s)) || eqb_ℤ delta (pos 0)
      then s
      else if leb_ℤ (or_zero (get k changed)) (pos 0)
      then del k changed
      else changed

  unfoldable pub adjust_tpm : Scope → ℕ → ℤ → ℤ → Store → Store
  unfolding tpm_adjust_script
  adjust_tpm scope id limit delta s =
      if eqb_ℤ limit no_limit || eqb_ℤ delta (pos 0)
      then s
      else tpm_adjust_script (tpm scope id) delta s

  -- The requests or tokens that a counter stands at.
  abbrev pub count_at : RedisKey → Store → ℤ
  count_at k s = or_zero (get k s)

  -- `n` requests of one owner within a window: the store, and how many were let through.
  unfoldable pub requests : Scope → ℕ → ℤ → ℕ → Store → Store × ℕ
  requests scope id limit zero s = (s, 0)
  requests scope id limit (suc n) s =
      let (s', allowed) = check_rpm scope id limit s in
      let (end, more) = requests scope id limit n s' in (end, (if allowed then 1 else 0) + more)
