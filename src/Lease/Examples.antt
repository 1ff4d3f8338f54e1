-- ===== src/Lease/Examples.antt =====
-- A request that is refused at the last step: its tenant may make no call at a time.
use five_api.Base.{◌≡◌, refl, true, false, none, some, Option, [], ◌∷◌, err}
use five_api.Base.Int.{ℤ, pos, negsuc, ◌+ℤ◌}
use five_api.Base.Json.{Json, obj, end}
use five_api.Models.{Tenant, ApiKey}
use five_api.Pricing.Quotes.{
  get, first_listed, first_present, quote_names, channel_override, price_rows, pick_quote,
  selling_quote, snapshot_quotes, estimate_quotes,
}
use five_api.Redis.{plain, no_keys, tenant}
use five_api.Settlements.Store.{occupied}
use five_api.Settlements.Reserve.{reserve, is_over}
use five_api.Limits.Rate.{reserve_tpm, tpm_reserve_script}
use five_api.Limits.Concurrency.{acquire, acquire_script}
use five_api.Limits.Windows.{exceeded_window, normalize_limits}
use five_api.Lease.{
  Asked, RequestLease, World, begin_request_budget, take_all, release, finish, new_lease,
  too_many_calls,
}
use five_api.Settlements.Store.{Db}
use five_api.Lease.Resets.{reset_expired_quotas}
use five_api.Lease.Monthly.{Resets, reset_expired_quotas-Resets}
use five_api.Lease.Refusals.{begin-err-occupied}
use five_api.Lease.Closing.{finish-once}

abbrev busy : Tenant
busy = record {
  id = 1;
  quota_total = pos 1_000_000;
  quota_used = 0;
  quota_reset_day = none;
  quota_last_reset_at = none;
  window_limits = obj end;
  is_enabled = true;
  allowed_models = [];
  rpm_limit = negsuc 0;
  tpm_limit = pos 5_000;
  concurrent_limit = pos 0;
}

abbrev robot : ApiKey
robot = record {
  id = 2;
  tenant_id = 1;
  quota_total = negsuc 999_999;
  quota_used = 0;
  quota_reset_day = none;
  quota_last_reset_at = none;
  window_limits = obj end;
  is_enabled = true;
  is_revoked = false;
  allowed_models = [];
  allowed_ips = [];
  model_group_id = none;
  channel_ids = [];
  expires_at = none;
  rpm_limit = negsuc 0;
  tpm_limit = negsuc 0;
  concurrent_limit = negsuc 0;
}

abbrev asked : Asked
asked = record {
  request_id = 7;
  model = "gpt-5.5";
  price_table = [];
  candidates = [];
  input_tokens = 1_000;
  output_tokens = 100;
  request_units = 0;
  lease_id = 3;
  owner_id = 9;
  now = 7_200;
}

abbrev no_amount : Json → Option ℤ
no_amount raw = none

abbrev before : World plain
before = record {
  db = record { tenants = busy ∷ []; keys = robot ∷ []; settlements = []; logs = []; next_id = 1 };
  store = no_keys;
}

abbrev after : World plain
after = (begin_request_budget plain no_amount true true (some busy) robot asked before).0

begin-refused :
    begin_request_budget plain no_amount true true (some busy) robot asked before
    ≡ (after, err (too_many_calls tenant))
unfolding begin_request_budget take_all snapshot_quotes selling_quote pick_quote first_present
    first_listed quote_names channel_override price_rows get exceeded_window normalize_limits
    reserve_tpm tpm_reserve_script reserve is_over occupied acquire acquire_script estimate_quotes
    ◌+ℤ◌
begin-refused = refl

begin-err-occupied_example : occupied tenant 1 after.db.settlements ≡ 0
unfolding occupied
begin-err-occupied_example =
    begin-err-occupied plain no_amount true (some busy) robot asked before after
      (too_many_calls tenant) tenant 1 begin-refused

-- A lease that holds 1,100 tokens of its tenant.
abbrev open_lease : RequestLease
open_lease = record (new_lease robot busy asked) {
  tenant_tpm_reserved = 1_100;
  estimated_tokens = 1_100;
}

finish-once_example :
    let (ended, s) = finish plain true 500 open_lease no_keys in
    let w' : World plain = record before { store = s } in
    (release plain true true ended w' ≡ (ended, w')) × (finish plain true 600 ended s ≡ (ended, s))
finish-once_example = finish-once plain true true true true 500 600 open_lease before

-- A tenant whose day has come, in a month of 30 days.
abbrev due_db : Db
due_db = record before.db {
  tenants = record busy { quota_used = 40; quota_reset_day = some 31 } ∷ [];
}

reset_expired_quotas-Resets_example :
    Resets 2_600_000 due_db
      (reset_expired_quotas (record { start = 0; last_day = 30 }) 2_600_000 due_db).0
reset_expired_quotas-Resets_example =
    reset_expired_quotas-Resets (record { start = 0; last_day = 30 }) 2_600_000 due_db
