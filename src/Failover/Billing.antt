-- ===== src/Failover/Billing.antt =====
-- The end of a request: `_bill_and_log` of backend/app/services/proxy.py.

mod Request
pub use Request.*
use five_api.Base.{
  ℕ, ◌+◌, String, Bool, true, false, not, ◌&&◌, Option, none, some, List, [], ◌∷◌, ◌++◌,
  if◌then◌else◌, Result, ok, err, update_where,
}
use mathlib.Core.Option
use five_api.Base.Int.{ℤ, pos, pos_part, eqb_ℤ, ◌+ℤ◌}
use five_api.Base.Json.{Json, int, str}
use five_api.Base.Json.{bool}
use five_api.Models
use five_api.Models.{
  ApiKey, Channel, ModelPrice, Settlement, Payload, Quote, Quotes, SnapshotKey, default, at_channel,
}
use five_api.Redis.{Redis}
use five_api.Pricing.Quotes.{same_key, selling_quote, quote_cost, Charge}
use five_api.Settlements.Store.{Db, find_request}
use five_api.Settlements.Reserve.{is_open, new_row, is_known}
use five_api.Settlements.Usage.{Unsaved, Worker, persist_usage}
use five_api.Settlements.Apply.{apply, note_failure}
use five_api.Lease.{RequestLease, finish}
use five_api.Failover.Errors.{Kind, Failure}
use five_api.Failover.Details.{Description}

-- What a request in flight has: the tables, Redis, the usage that this worker could not save, its lease,
-- and how often it was sent, the last first.
module _ (r : Redis) where
  open r use {Store}

  pub record Desk : Type 0 where
    pub db : Db
    pub store : Store
    pub unsaved : List (ℕ × Unsaved)
    pub lease : Option RequestLease
    pub sends : List Sent

-- `redact`, and the texts of amounts: `detail_of` is the JSON of a charge with its `cost_detail`.
-- `save_error` is the failure of `save_request_log`, and the database answers or not (`db_up`).
module _ (r : Redis) (redact : Payload → Payload) (detail_of : Charge → String → ℤ → Payload)
    (save_error : Payload → Option String) (redis_up db_up : Bool) where
  open r use {Store}

  abbrev pub finished_lease : Desk r → RequestLease × Store → Desk r
  finished_lease d (lease, s) = record d { lease = some lease; store = s }

  abbrev pub finish_with : Option RequestLease → ℤ → Desk r → Desk r
  finish_with none actual d = d
  finish_with (some lease) actual d =
      finished_lease d (finish r redis_up (pos_part actual) lease d.store)

  abbrev pub detail : Priced → Bill → Payload
  detail (priced c) b = detail_of c b.usage_source b.web_search_requests
  detail (raised e) b = []

  abbrev pub full_log : Call → Bill → Priced → Payload
  full_log call b p =
      redact (append_field "usage_source" (str b.usage_source) (log_of call b)) ++ detail p b

  -- `Settlement.get_or_create` for a caller without a lease.
  abbrev pub get_or_create : Call → ℕ → Db → Db
  get_or_create call amount db =
      if is_known (find_request call.request_id db) then db else record db {
        settlements =
            db.settlements
            ++ new_row db.next_id call.request_id call.api_key.tenant_id call.api_key.id amount []
                call.owner_id call.now
              ∷ [];
        next_id = db.next_id + 1;
      }

  abbrev pub noted : Desk r → Result String Db → Result Failure (Desk r)
  noted d (err e) = err (record { kind = Kind.other; message = e })
  noted d (ok db) = ok (record d { db = db })

  abbrev pub applied : Call → Desk r → Result String (Bool × Db × Store) → Result Failure (Desk r)
  applied call d (ok (done, db, s)) = ok (record d { db = db; store = s })
  applied call d (err e) = noted d (note_failure call.request_id e call.now d.db)

  -- `apply`, or else `note_failure`, whose own failure passes on.
  unfoldable pub settle_usage : Call → Desk r → Result Failure (Desk r)
  settle_usage call d =
      let owners = some (call.api_key.tenant_id, call.api_key.id) in
      if db_up
      then applied call d (apply r save_error redis_up true call.request_id owners (d.db, d.store))
      else err no_database

  abbrev pub persisted : Call → Payload → Priced → Desk r → Desk r
  persisted call payload p d =
      let worker : Worker = record { db = d.db; unsaved = d.unsaved } in
      let saved =
        persist_usage redact db_up call.request_id payload (cost_of p) (error_of p) worker in
      record d { db = saved.db; unsaved = saved.unsaved }

  abbrev pub opened : Option RequestLease → Call → Priced → Desk r → Result Failure (Desk r)
  opened (some lease) call p d = ok d
  opened none call p d =
      if db_up
      then ok (record d { db = get_or_create call (Option.get_or (cost_of p) 0) d.db })
      else err no_database

  -- How a step ended: with the state that it left, also where it raised.
  abbrev pub Ended : Type 0
  Ended = Desk r × Option Failure

  abbrev pub settled_or : Desk r → Result Failure (Desk r) → Ended
  settled_or d (err e) = (d, some e)
  settled_or d (ok d') = (d', none)

  abbrev pub paid : Call → Bill → Priced → Desk r → Result Failure (Desk r) → Ended
  paid call b p d (err e) = (d, some e)
  paid call b p d (ok opened_desk) =
      let saved = persisted call (full_log call b p) p opened_desk in
      settled_or saved (settle_usage call saved)

  abbrev pub billed : Call → Bill → Priced → Desk r → Ended
  billed call b p d = paid call b p d (opened d.lease call p d)

  abbrev pub then_finish : ℤ → Ended → Ended
  then_finish actual (d, e) = (finish_with d.lease actual d, e)

  abbrev pub marked_unknown : Call → Bill → Desk r → Desk r
  marked_unknown call b d =
      let payload : Payload =
        append_field "usage_source" (str "unknown") (redact (log_of call b)) in
      record d {
        db = record d.db {
          settlements =
              update_where (is_open call.request_id) (to_unknown payload) d.db.settlements;
        };
      }

  -- The reservation is marked, and the lease keeps what was estimated.
  abbrev pub mark_uncertain : Call → Bill → RequestLease → Desk r → Ended
  mark_uncertain call b lease d =
      if db_up
      then (finish_with (some lease) (pos lease.estimated_tokens) (marked_unknown call b d), none)
      else (finish_with (some lease) (pos lease.estimated_tokens) d, some no_database)

  abbrev pub logged : Payload → Desk r → Option String → Ended
  logged payload d (some e) = (d, some (record { kind = Kind.other; message = e }))
  logged payload d none = (record d { db = record d.db { logs = d.db.logs ++ payload ∷ [] } }, none)

  abbrev pub log_only : Call → Bill → Desk r → Ended
  log_only call b d =
      let payload = redact (append_field "usage_source" (str b.usage_source) (log_of call b)) in
      if db_up then logged payload d (save_error payload) else (d, some no_database)

  abbrev pub bill_usage : Call → Bill → Desk r → Ended
  bill_usage call b d =
      then_finish (b.tokens.prompt_tokens +ℤ b.tokens.completion_tokens)
        (billed call b (price_bill call d.lease b) d)

  abbrev pub bill_with : Option RequestLease → Call → Bill → Desk r → Ended
  bill_with (some lease) call b d =
      if b.uncertain then mark_uncertain call b lease d else bill_usage call b d
  bill_with none call b d = if has_tokens b.tokens then bill_usage call b d else log_only call b d

  unfoldable pub bill_and_log : Call → Bill → Desk r → Ended
  unfolding settle_usage
  bill_and_log call b d = bill_with d.lease call b d

  -- The caller has no lease.
  unfoldable pub log_rejected_request : Call → ℕ → Description → Desk r → Ended
  unfolding settle_usage
  log_rejected_request call status_code description d =
      bill_with none call
        (record {
          model_actual = call.model_requested;
          tokens = no_tokens;
          channel = none;
          status_code = status_code;
          description = description;
          failed_over = false;
          usage_source = "upstream";
          uncertain = false;
          web_search_requests = pos 0;
        })
        d
