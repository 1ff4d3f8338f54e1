-- ===== src/Settlements/Apply.antt =====
-- Settling: the transaction that charges a request, what is observed after it, and failed attempts.
use Prim.Native.Nat.{◌^◌}
use mathlib.Core.Option
use five_api.Base.{
  ℕ, ◌+◌, ◌/◌, min, Bool, true, false, not, ◌&&◌, ◌||◌, Option, none, some, String, [], ◌∷◌, ◌++◌,
  str_eq, leb, ◌==◌, if◌then◌else◌, Result, ok, err, ◌>>=◌, ◌>>◌, raise_if, update_where, keep_if,
}
use five_api.Base.Int.{pos}
use five_api.Models.{Tenant, ApiKey, Settlement, State, pending, failed, settled, Payload}
use five_api.Redis.{Redis, RedisKey, key, tenant, spend, is_present}
use five_api.Settlements.Store.{Db, is_pending, find_tenant, find_key, find_request}

-- What `apply` finds: whether the row is still to be charged, and at what cost and with which log.
pub data Due : Type 0 where
  nothing_due : Due
  charge_due : ℕ → Payload → Due

-- LEGACY_PAYLOAD_FIELDS
abbrev pub without_legacy : Payload → Payload
without_legacy = keep_if (λ field. not (str_eq field.0 "upstream_cost"))

-- An empty payload is as good as none.
abbrev pub due : State → Option Payload → Option ℕ → Due
due pending (some (f ∷ fs)) (some cost) = charge_due cost (without_legacy (f ∷ fs))
due _ _ _ = nothing_due

abbrev pub charge_key : ℕ → ApiKey → ApiKey
charge_key cost k = record k { quota_used = k.quota_used + cost }

abbrev pub charge_tenant : ℕ → Tenant → Tenant
charge_tenant cost t = record t { quota_used = t.quota_used + cost }

abbrev pub to_settled : Settlement → Settlement
to_settled s = record s { state = settled; occupied = 0; last_error = ""; next_retry_at = none }

abbrev pub or_raise : {A : Type 0} → Option A → String → Result String A
or_raise none e = err e
or_raise (some a) e = ok a

-- `owners` is (tenant_id, api_key_id), as the caller knows it or as the row says.
abbrev pub owners_of : Option (ℕ × ℕ) → ℕ → Db → Result String (ℕ × ℕ)
owners_of (some o) rid db = ok o
owners_of none rid db = do
  record_row ← or_raise (find_request rid db) "DoesNotExist"
  ok (record_row.tenant_id, record_row.api_key_id)

-- `save_error` names the exception of `save_request_log` for a payload, if it raises.
module _ (save_error : Payload → Option String) where
  abbrev pub save_request_log : Payload → Db → Result String Db
  save_request_log payload db = elim (save_error payload) [
    | some e ↦ err e
    | none ↦ ok (record db { logs = db.logs ++ payload ∷ [] })
  ]

  -- The writes of one charge.
  abbrev pub charge_owners : ℕ → ℕ → ℕ → ℕ → Payload → Db → Result String Db
  charge_owners key_id tenant_id record_id cost payload db = do
    logged ← save_request_log payload (record db {
      keys = update_where (λ k. k.id == key_id) (charge_key cost) db.keys;
      tenants = update_where (λ t. t.id == tenant_id) (charge_tenant cost) db.tenants;
    })
    ok (record logged {
      settlements = update_where (λ s. s.id == record_id) to_settled logged.settlements;
    })

  -- A row that is due is charged to its owners; any other is left alone.
  unfoldable pub settle_row : Settlement → Db → Result String (Db × Bool)
  settle_row row db = elim (due row.state row.payload row.cost) [
    | nothing_due ↦ ok (db, false)
    | charge_due cost payload ↦ (do
      t ← or_raise (find_tenant row.tenant_id db) "RuntimeError"
      k ← or_raise (find_key row.api_key_id db) "RuntimeError"
      charged ← charge_owners k.id t.id row.id cost payload db
      ok (charged, true))
  ]

  -- The transaction: the new tables, and whether the request was charged.
  unfoldable pub settle : ℕ → Option (ℕ × ℕ) → Db → Result String (Db × Bool)
  settle rid owners db = do
    (tenant_id, key_id) ← owners_of owners rid db
    row ← or_raise (find_request rid db) "DoesNotExist"
    raise_if (not ((row.tenant_id == tenant_id) && (row.api_key_id == key_id))) "RuntimeError"
    settle_row row db

abbrev pub max_attempts : ℕ
max_attempts = 8

abbrev pub state_after : ℕ → State
state_after attempts = if leb max_attempts attempts then failed else pending

abbrev pub to_retried : ℕ → String → ℕ → Settlement → Settlement
to_retried attempts error now s = record s {
  attempts = attempts;
  state = state_after attempts;
  next_retry_at = some (now + min 300 (2 ^ attempts));
  last_error = error;
}

-- A failed attempt is counted; the eighth makes the row failed.
unfoldable pub note_failure : ℕ → String → ℕ → Db → Result String Db
note_failure rid error now db = do
  row ← or_raise (find_request rid db) "DoesNotExist"
  if is_pending row.state
      then ok (record db {
        settlements =
            update_where (λ s. (s.id == row.id) && is_pending s.state)
              (to_retried (row.attempts + 1) error now) db.settlements;
      })
      else ok db

abbrev pub to_recorded : Settlement → Settlement
to_recorded s = record s { windows_recorded = true }

-- Redis and the tables, as the steps after a charge see them.
module _ (r : Redis) where
  open r use {Store, get, set, incrby}

  -- SETTLEMENT_SPEND_SCRIPT: a marker makes it safe to replay.
  unfoldable pub record_settlement_spend : ℕ → ℕ → ℕ → ℕ → ℕ → Store → Store
  record_settlement_spend rid key_id tenant_id cost created_at s =
      let hour = created_at / 3600 in
      if is_present (get (RedisKey.settled rid) s)
      then s
      else incrby (spend tenant tenant_id hour) (pos cost)
          (incrby (spend key key_id hour) (pos cost) (set (RedisKey.settled rid) (pos 1) s))

  -- `record_windows`, where Redis and then the database answer or raise; a caller logs what is raised.
  unfoldable pub record_windows : Bool → Bool → Settlement → Db × Store → Db × Store
  unfolding record_settlement_spend
  record_windows redis_up db_up row (db, s) =
      let s' =
        record_settlement_spend row.request_id row.api_key_id row.tenant_id
          (Option.get_or row.cost 0) row.created_at s in
      if row.windows_recorded || not redis_up
      then (db, s)
      else if db_up
      then (
        record db { settlements = update_where (λ t. t.id == row.id) to_recorded db.settlements },
        s',
      )
      else (db, s')

  -- `apply`: the transaction, then the windows of the row that it read. The metrics between them
  -- raise nothing and are left out.
  unfoldable pub apply :
      (Payload → Option String)
      → Bool
      → Bool
      → ℕ
      → Option (ℕ × ℕ)
      → Db × Store
      → Result String (Bool × Db × Store)
  apply save_error redis_up db_up rid owners (db, s) = do
    row ← or_raise (find_request rid db) "DoesNotExist"
    (db', charged) ← settle save_error rid owners db
    if charged
        then (let (db_end, s_end) = record_windows redis_up db_up row (db', s) in
            ok (true, db_end, s_end))
        else ok (false, db', s)
