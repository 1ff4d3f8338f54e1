-- ===== src/Settlements/Examples.antt =====
-- A request from its reservation to its charge, by the operations themselves.
use five_api.Base.{
  ◌+◌, ◌≡◌, refl, true, false, none, some, Option, String, [], ◌∷◌, ok, get_elem?, arith, inl,
}
use five_api.Base.Int.{pos, negsuc}
use five_api.Base.Json.{str, obj, end}
use five_api.Models.{Tenant, ApiKey, Settlement, Payload, settled, pending, reserved}
use five_api.Redis.{tenant, plain, no_keys}
use five_api.Settlements.Store.{Db, occupied}
use five_api.Settlements.Reserve.{reserve, mark_dispatched, is_over}
use five_api.Settlements.Usage.{mark_pending}
use five_api.Settlements.Apply.{settle, settle_row}
use five_api.Settlements.Steps.{reserves, dispatches, reports, settles, Reach, here, next, IsSound}
use five_api.Settlements.Soundness.{Step-Moves, Reach-IsSound, Reach-final}
use five_api.Settlements.Moves.{Moves}
use five_api.Settlements.Accounts.{spent, quota_of, charged_total, exposure}
use five_api.Settlements.Ledger.{Reach-balanced}
use five_api.Settlements.Quota.{Frugal, still, go, KeepsQuota, Frugal-KeepsQuota}
use five_api.Settlements.Replays.{settle-once, record_settlement_spend-once}
use five_api.Settlements.Apply.{record_settlement_spend}

abbrev acme : Tenant
acme = record {
  id = 1;
  quota_total = pos 1_000;
  quota_used = 0;
  quota_reset_day = none;
  quota_last_reset_at = none;
  window_limits = obj end;
  is_enabled = true;
  allowed_models = [];
  rpm_limit = negsuc 0;
  tpm_limit = negsuc 0;
  concurrent_limit = negsuc 0;
}

abbrev robot : ApiKey
robot = record {
  id = 2;
  tenant_id = 1;
  quota_total = negsuc 999_999;
  quota_used = 0;
  quota_reset_day = none;
  quota_last_reset_at = none;
  window_limits = obj end;
  is_enabled = true;
  is_revoked = false;
  allowed_models = [];
  allowed_ips = [];
  model_group_id = none;
  channel_ids = [];
  expires_at = none;
  rpm_limit = negsuc 0;
  tpm_limit = negsuc 0;
  concurrent_limit = negsuc 0;
}

abbrev at_start : Db
at_start = record {
  tenants = acme ∷ [];
  keys = robot ∷ [];
  settlements = [];
  logs = [];
  next_id = 1;
}

-- The row of request 7, as it is reserved for 500.
abbrev held_row : Settlement
held_row = record {
  id = 1;
  request_id = 7;
  tenant_id = 1;
  api_key_id = 2;
  state = reserved;
  occupied = 500;
  cost = none;
  payload = none;
  quotes = [];
  owner_id = 9;
  dispatched = false;
  attempts = 0;
  next_retry_at = none;
  last_error = "";
  windows_recorded = false;
  created_at = 60;
}

abbrev usage_log : Payload
usage_log = ("model", str "gpt-5.5") ∷ []

abbrev priced_row : Settlement
priced_row = record held_row {
  dispatched = true;
  state = pending;
  cost = some 300;
  occupied = 300;
  payload = some usage_log;
}

abbrev held_db : Db
held_db = record at_start { settlements = held_row ∷ []; next_id = 2 }

abbrev sent_db : Db
sent_db = record held_db { settlements = record held_row { dispatched = true } ∷ [] }

abbrev priced_db : Db
priced_db = record held_db { settlements = priced_row ∷ [] }

abbrev settled_row : Settlement
settled_row = record priced_row { state = settled; occupied = 0 }

abbrev charged_db : Db
charged_db = record held_db {
  tenants = record acme { quota_used = 300 } ∷ [];
  keys = record robot { quota_used = 300 } ∷ [];
  settlements = settled_row ∷ [];
  logs = usage_log ∷ [];
}

abbrev unchanged_log : Payload → Payload
unchanged_log p = p

abbrev saves : Payload → Option String
saves p = none

reserve-held : reserve 7 robot 500 [] 9 60 at_start ≡ ok held_db
unfolding reserve is_over occupied
reserve-held = refl

dispatch-sent : mark_dispatched 7 held_db ≡ ok sent_db
unfolding mark_dispatched
dispatch-sent = refl

report-priced : mark_pending unchanged_log 7 usage_log (some 300) "" sent_db ≡ ok priced_db
unfolding mark_pending
report-priced = refl

settle-charged : settle saves 7 none priced_db ≡ ok (charged_db, true)
unfolding settle settle_row
settle-charged = refl

start-IsSound : IsSound at_start
start-IsSound = record { distinct = tt; below = tt; holding = tt }

run_to_priced : Reach at_start priced_db
run_to_priced =
    next (next (next here (reserves 7 robot 500 [] 9 60 reserve-held)) (dispatches 7 dispatch-sent))
      (reports unchanged_log 7 usage_log (some 300) "" report-priced)

run : Reach at_start charged_db
run = next run_to_priced (settles saves 7 none true settle-charged)

run-Frugal : Frugal at_start charged_db
run-Frugal =
    go
      (go
        (go (go still (reserves 7 robot 500 [] 9 60 reserve-held) tt) (dispatches 7 dispatch-sent)
          tt)
        (reports unchanged_log 7 usage_log (some 300) "" report-priced) ((λ _. omega arith), tt))
      (settles saves 7 none true settle-charged) tt

start-KeepsQuota : KeepsQuota tenant 1 1_000 at_start
unfolding quota_of exposure spent occupied
start-KeepsQuota = (refl, omega arith)

Reach-balanced_example :
    spent tenant 1 charged_db + charged_total tenant 1 at_start
    ≡ spent tenant 1 at_start + charged_total tenant 1 charged_db
Reach-balanced_example = Reach-balanced tenant 1 at_start charged_db start-IsSound run

Frugal-KeepsQuota_example : IsSound charged_db × KeepsQuota tenant 1 1_000 charged_db
Frugal-KeepsQuota_example =
    Frugal-KeepsQuota tenant 1 1_000 at_start charged_db run-Frugal start-IsSound start-KeepsQuota

Reach-IsSound_example : IsSound charged_db
Reach-IsSound_example = Reach-IsSound at_start charged_db start-IsSound run

priced-IsSound : IsSound priced_db
priced-IsSound = Reach-IsSound at_start priced_db start-IsSound run_to_priced

Step-Moves_example :
    (row' : Settlement) × (get_elem? charged_db.settlements 0 ≡ some row') × Moves priced_row row'
Step-Moves_example =
    Step-Moves priced_db charged_db 0 priced_row priced-IsSound
      (settles saves 7 none true settle-charged) refl

settle-idle : settle saves 7 (some (1, 2)) charged_db ≡ ok (charged_db, false)
unfolding settle settle_row
settle-idle = refl

charged-IsSound : IsSound charged_db
charged-IsSound = Reach-IsSound at_start charged_db start-IsSound run

Reach-final_example :
    (row' : Settlement) × (get_elem? charged_db.settlements 0 ≡ some row')
    × (row'.request_id ≡ 7)
    × (row'.state ≡ settled)
Reach-final_example =
    Reach-final charged_db charged_db 0 settled_row charged-IsSound
      (next here (settles saves 7 (some (1, 2)) false settle-idle)) refl (inl refl)

settle-once_example : settle saves 7 none charged_db ≡ ok (charged_db, false)
settle-once_example = settle-once saves saves 7 none priced_db charged_db settle-charged

record_settlement_spend-once_example :
    let record_it = record_settlement_spend plain 7 2 1 300 7_200 in
    record_it (record_it no_keys) ≡ record_it no_keys
record_settlement_spend-once_example = record_settlement_spend-once plain 7 2 1 300 7_200 no_keys

abbrev recorded_db : Db
recorded_db = record charged_db {
  settlements = record settled_row { windows_recorded = true } ∷ [];
}
