-- ===== src/Lease.antt =====
-- A request's budget from its start to its end: RequestLease and begin_request_budget of
-- backend/app/services/quota.py.

pub mod Closing
mod Undone
mod Steps
pub mod Refusals
pub mod Resets
pub mod Monthly
mod Examples
use mathlib.Core.Option
use five_api.Base.{
  ℕ, suc, zero, ◌+◌, ◌-◌, ◌/◌, Bool, true, false, not, ◌&&◌, ◌||◌, Option, none, some, String, List,
  [], ◌∷◌, if◌then◌else◌, ◌==◌, Result, ok, err, ◌>>=◌,
}
use five_api.Base.Int.{ℤ, pos, negsuc, ◌-ℤ◌, eqb_ℤ}
use five_api.Base.Json.{Json}
use five_api.Models.{Tenant, ApiKey, ModelPrice, Quotes}
use five_api.Redis.{Redis, Scope, key, tenant}
use five_api.Access.{key_tenant}
use five_api.Pricing.Quotes.{Candidate, Unavailable, snapshot_quotes, estimate_quotes}
use five_api.Settlements.Store.{Db, occupied}
use five_api.Settlements.Reserve.{Denial, tenant_disabled, reserve, mark_dispatched, abandon}
use five_api.Settlements.Reserve
use five_api.Limits.Rate.{no_limit, reserve_tpm, adjust_tpm}
use five_api.Limits.Concurrency.{acquire}
use five_api.Limits.Concurrency
use five_api.Limits.Windows.{Window, normalize_limits, exceeded_window}

-- What QuotaExceeded, TPMExceeded, ConcurrencyExceeded and the pricing error say.
pub data Refused : Type 0 where
  denied : Denial → Refused
  window_used_up : Scope → Window → Refused
  unpriced : Unavailable → Refused
  too_many_tokens too_many_calls : Scope → Refused

pub record RequestLease : Type 0 where
  pub api_key_id : ℕ
  pub request_id : ℕ
  pub tpm_limit : ℤ
  pub tenant_id : ℕ
  pub tenant_tpm_limit : ℤ
  pub tpm_reserved : ℕ
  pub tenant_tpm_reserved : ℕ
  pub tenant_lease_id : Option ℕ
  pub quotes : Quotes
  pub reserved : Bool
  pub dispatched : Bool
  pub estimated_tokens : ℕ
  pub closed : Bool

-- What the request carries: its price table and candidates, its token estimate, and fresh names.
pub record Asked : Type 0 where
  pub request_id : ℕ
  pub model : String
  pub price_table : List (String × ModelPrice)
  pub candidates : List Candidate
  pub input_tokens : ℕ
  pub output_tokens : ℕ
  pub request_units : ℕ
  pub lease_id : ℕ
  pub owner_id : ℕ
  pub now : ℕ

abbrev pub new_lease : ApiKey → Tenant → Asked → RequestLease
new_lease k t asked = record {
  api_key_id = k.id;
  request_id = asked.request_id;
  tpm_limit = k.tpm_limit;
  tenant_id = t.id;
  tenant_tpm_limit = t.tpm_limit;
  tpm_reserved = 0;
  tenant_tpm_reserved = 0;
  tenant_lease_id = none;
  quotes = [];
  reserved = false;
  dispatched = false;
  estimated_tokens = 0;
  closed = false;
}

module _ (r : Redis) where
  open r use {Store}

  -- The tables, Redis and the lease of one request.
  pub record World : Type 0 where
    pub db : Db
    pub store : Store

  -- `actual_tokens - amount`, or all of the amount back.
  abbrev pub delta : Option ℕ → ℕ → ℤ
  delta none amount = pos 0 -ℤ pos amount
  delta (some actual) amount = pos actual -ℤ pos amount

  -- One owner's share of `_clear`; nothing is done where nothing was reserved.
  abbrev pub give_back : Scope → ℕ → ℤ → ℕ → Option ℕ → Store → Store
  give_back scope owner limit amount actual s =
      if amount == 0 then s else adjust_tpm r scope owner limit (delta actual amount) s

  -- `_clear` where Redis answers; where it does not, it logs and changes nothing.
  unfoldable pub clear : Bool → RequestLease → Option ℕ → Store → Store
  clear redis_up lease actual s =
      if redis_up
      then Concurrency.release r tenant lease.tenant_id lease.tenant_lease_id (
          give_back tenant lease.tenant_id lease.tenant_tpm_limit lease.tenant_tpm_reserved actual
            (give_back key lease.api_key_id lease.tpm_limit lease.tpm_reserved actual s))
      else s

  unfoldable pub finish : Bool → ℕ → RequestLease → Store → RequestLease × Store
  unfolding clear
  finish redis_up actual lease s =
      if lease.closed
      then (lease, s)
      else (record lease { closed = true }, clear redis_up lease (some actual) s)

  -- The end of a reservation in the tables, where there is one.
  abbrev pub give_up : RequestLease → Db → Db
  give_up lease db =
      if lease.reserved
      then if lease.dispatched
        then abandon lease.request_id db
        else Reserve.release lease.request_id db
      else db

  -- Where the database does not answer (`db_up`), its exception passes on after `_clear`.
  unfoldable pub release : Bool → Bool → RequestLease → World → RequestLease × World
  unfolding clear
  release redis_up db_up lease w = if lease.closed then (lease, w) else (
    record lease { closed = true },
    record {
      db = if db_up then give_up lease w.db else w.db;
      store =
          clear redis_up lease (if lease.dispatched then some lease.estimated_tokens else none)
            w.store;
    },
  )

  -- The error is HTTP 503, `accounting_unavailable`.
  unfoldable pub before_send : RequestLease → Db → Result String (RequestLease × Db)
  before_send lease db =
      if lease.dispatched then ok (lease, db) else elim (mark_dispatched lease.request_id db) [
        | err e ↦ err "accounting_unavailable"
        | ok db' ↦ ok (record lease { dispatched = true }, db')
      ]

  -- How far a budget has come: it stands, or it was refused with the lease as it was then.
  pub data Progress : Type 0 where
    standing : RequestLease → World → Progress
    refused_at : Refused → RequestLease → World → Progress

  abbrev pub and_then : Progress → (RequestLease → World → Progress) → Progress
  and_then (standing lease w) next = next lease w
  and_then (refused_at e lease w) next = refused_at e lease w

  abbrev pub check_window :
      (Json → Option ℤ) → Scope → ℕ → Json → ℕ → RequestLease → World → Progress
  check_window amount_of scope owner limits now lease w =
      elim (exceeded_window r scope owner (normalize_limits amount_of limits)
        (occupied scope owner w.db.settlements) now w.store) [
          | none ↦ standing lease w
          | some window ↦ refused_at (window_used_up scope window) lease w
        ]

  abbrev pub take_snapshot : Asked → RequestLease → World → Progress
  take_snapshot asked lease w =
      elim (snapshot_quotes asked.model asked.price_table asked.candidates) [
        | err e ↦ refused_at (unpriced e) lease w
        | ok quotes ↦
            standing
              (record lease {
                quotes = quotes;
                estimated_tokens = asked.input_tokens + asked.output_tokens;
              })
              w
      ]

  abbrev pub take_key_tokens : RequestLease → World → Progress
  take_key_tokens lease w =
      let tokens = lease.estimated_tokens in
      let (s, granted) = reserve_tpm r key lease.api_key_id lease.tpm_limit (pos tokens) w.store in
      let w' : World = record w { store = s } in
      if granted
      then standing
          (record lease { tpm_reserved = if eqb_ℤ lease.tpm_limit no_limit then 0 else tokens }) w'
      else refused_at (too_many_tokens key) lease w'

  abbrev pub take_tenant_tokens : RequestLease → World → Progress
  take_tenant_tokens lease w =
      let tokens = lease.estimated_tokens in
      let (s, granted) =
        reserve_tpm r tenant lease.tenant_id lease.tenant_tpm_limit (pos tokens) w.store in
      let w' : World = record w { store = s } in
      if granted
      then standing
          (record lease {
            tenant_tpm_reserved = if eqb_ℤ lease.tenant_tpm_limit no_limit then 0 else tokens;
          })
          w'
      else refused_at (too_many_tokens tenant) lease w'

  abbrev pub reserved_as : RequestLease → World → Result Denial Db → Progress
  reserved_as lease w (err e) = refused_at (denied e) lease w
  reserved_as lease w (ok db) = standing (record lease { reserved = true }) (record w { db = db })

  abbrev pub take_reservation : ApiKey → Asked → RequestLease → World → Progress
  take_reservation k asked lease w =
      let estimate =
        estimate_quotes lease.quotes asked.input_tokens asked.output_tokens asked.request_units in
      reserved_as lease w
        (reserve lease.request_id k estimate lease.quotes asked.owner_id asked.now w.db)

  abbrev pub take_call : Tenant → Asked → RequestLease → World → Progress
  take_call t asked lease w =
      let (s, answer) = acquire r tenant t.id t.concurrent_limit asked.lease_id asked.now w.store in
      let w' : World = record w { store = s } in
      elim answer [
        | none ↦ refused_at (too_many_calls tenant) lease w'
        | some id ↦ standing (record lease { tenant_lease_id = id }) w'
      ]

  -- The body of the `try`, in its order.
  unfoldable pub take_all :
      (Json → Option ℤ) → ApiKey → Tenant → Asked → RequestLease → World → Progress
  take_all amount_of k t asked lease w =
      and_then (check_window amount_of key k.id k.window_limits (asked.now / 3600) lease w) λ l1 w1.
        and_then (check_window amount_of tenant t.id t.window_limits (asked.now / 3600) l1 w1)
          λ l2 w2. and_then (take_snapshot asked l2 w2) λ l3 w3.
            and_then (take_key_tokens l3 w3) λ l4 w4.
              and_then (take_tenant_tokens l4 w4)
                λ l5 w5. and_then (take_reservation k asked l5 w5) λ l6 w6. take_call t asked l6 w6

  -- A refusal gives back what was taken.
  abbrev pub answer : Bool → Bool → Progress → World × Result Refused RequestLease
  answer redis_up db_up (standing lease w) = (w, ok lease)
  answer redis_up db_up (refused_at e lease w) = ((release redis_up db_up lease w).1, err e)

  -- `cached` is the tenant that was loaded when the key was authenticated.
  unfoldable pub begin_request_budget :
      (Json → Option ℤ)
      → Bool
      → Bool
      → Option Tenant
      → ApiKey
      → Asked
      → World
      → World × Result Refused RequestLease
  unfolding take_all release
  begin_request_budget amount_of redis_up db_up cached k asked w =
      elim (key_tenant cached w.db.tenants k) [
        | none ↦ (w, err (denied tenant_disabled))
        | some t ↦ answer redis_up db_up (take_all amount_of k t asked (new_lease k t asked) w)
      ]
