-- ===== src/Limits/Examples.antt =====
-- Counters, leases and windows of one owner at work.
use five_api.Base.{◌≤◌, ◌≡◌, refl, true, some, List, [], ◌∷◌, arith, length}
use five_api.Base.Int.{pos, ◌+ℤ◌}
use five_api.Redis.{plain, no_keys, key, tenant, tpm, concurrency}
use five_api.Limits.Rate.{reserve_tpm, tpm_reserve_script, adjust_tpm, requests, count_at, neg}
use five_api.Limits.Counts.{requests-count, adjust-reserve}
use five_api.Limits.Concurrency.{acquire}
use five_api.Limits.Leases.{
  take_lease, renew_lease, drop_lease, Use, used_all, used_all-bound, acquire-grants,
}

requests-count_example : (requests plain key 2 (pos 3) 5 no_keys).1 ≡ 3
requests-count_example = requests-count plain key 2 3 0 5 no_keys refl (omega arith)

reserve-accepted : (reserve_tpm plain tenant 1 (pos 5_000) (pos 1_100) no_keys).1 ≡ true
unfolding reserve_tpm tpm_reserve_script ◌+ℤ◌
reserve-accepted = refl

adjust-reserve_example :
    count_at plain (tpm tenant 1) (
      adjust_tpm plain tenant 1
        (pos 5_000)
        (neg (pos 1_100))
        (reserve_tpm plain tenant 1 (pos 5_000) (pos 1_100) no_keys).0)
    ≡ pos 0
adjust-reserve_example = adjust-reserve plain tenant 1 5_000 0 1_100 no_keys refl reserve-accepted

abbrev uses : List Use
uses =
    take_lease 5 100 ∷ take_lease 6 101 ∷ renew_lease 5 150 ∷ drop_lease 5 ∷ take_lease 7 160 ∷ []

used_all-bound_example :
    length ((used_all plain tenant 1 1 uses no_keys).sets (concurrency tenant 1)) ≤ 1
used_all-bound_example = used_all-bound plain tenant 1 1 uses no_keys (omega arith)

acquire-grants_example :
    let (s', answer) = acquire plain tenant 1 (pos 1) 5 100 no_keys in
    (answer ≡ some (some 5)) × (s'.sets (concurrency tenant 1) ≡ (5, 280) ∷ [])
acquire-grants_example = acquire-grants plain tenant 1 1 5 100 no_keys
