-- ===== src/Lease/Steps.antt =====
-- What the steps of begin_request_budget leave behind where one of them refuses.

use mathlib.Core.Path.{subst}
use five_api.Base.{
  ℕ, ◌+◌, ◌≡◌, refl, sym, ◌⊎◌, true, false, Option, none, some, if◌then◌else◌, inl, inr, Result, ok,
  err, Result-cases,
}
use five_api.Base.Int.{ℤ, pos, eqb_ℤ}
use five_api.Base.Json.{Json}
use five_api.Models.{ApiKey, Tenant, Quotes}
use five_api.Redis.{Redis, Scope, key, tenant}
use five_api.Settlements.Store.{Db, occupied}
use five_api.Settlements.Reserve.{Denial, reserve}
use five_api.Limits.Rate.{reserve_tpm, no_limit}
use five_api.Limits.Concurrency.{acquire}
use five_api.Limits.Windows.{exceeded_window, normalize_limits}
use five_api.Pricing.Quotes.{snapshot_quotes, estimate_quotes}
use five_api.Lease.{
  RequestLease, Asked, World, Progress, standing, refused_at, and_then, check_window, take_snapshot,
  take_key_tokens, take_tenant_tokens, take_reservation, reserved_as, answer, take_call, take_all,
  window_used_up, too_many_tokens, too_many_calls, unpriced,
}

module _ (r : Redis) where
  -- Before anything is reserved in the tables.
  abbrev pub Unreserved : Db → ℕ → RequestLease → World r → Type 0
  Unreserved db rid lease w =
      (w.db ≡ db) × (lease.reserved ≡ false) × (lease.closed ≡ false) × (lease.request_id ≡ rid)

  -- How a refusal finds the tables: untouched, or with a reservation of its own that was not sent.
  abbrev pub HowRefused : Db → ℕ → ApiKey → RequestLease → World r → Type 0
  HowRefused db rid k lease w =
      Unreserved db rid lease w
      ⊎ ((amount : ℕ) × (quotes : Quotes) × (owner : ℕ) × (now : ℕ) × (reserve rid k amount quotes
              owner now db
            ≡ ok w.db)
          × (lease.reserved ≡ true)
          × (lease.dispatched ≡ false)
          × (lease.closed ≡ false)
          × (lease.request_id ≡ rid))

  abbrev pub Keeps : Db → ℕ → Progress r → Type 0
  Keeps db rid (standing lease w) = Unreserved db rid lease w × (lease.dispatched ≡ false)
  Keeps db rid (refused_at e lease w) = Unreserved db rid lease w

  abbrev pub Ends : Db → ℕ → ApiKey → Progress r → Type 0
  Ends db rid k (standing lease w) = Unit
  Ends db rid k (refused_at e lease w) = HowRefused db rid k lease w

  and_then-Keeps :
      (db : Db) (rid : ℕ) (p : Progress r) (next : RequestLease → World r → Progress r)
      → Keeps db rid p
      → ((lease : RequestLease) (w : World r)
          → Keeps db rid (standing lease w)
          → Keeps db rid (next lease w))
      → Keeps db rid (and_then r p next)
  and_then-Keeps db rid (standing lease w) next k f = f lease w k
  and_then-Keeps db rid (refused_at e lease w) next k f = k

  and_then-Ends :
      (db : Db) (rid : ℕ) (k : ApiKey) (p : Progress r) (next : RequestLease → World r → Progress r)
      → Keeps db rid p
      → ((lease : RequestLease) (w : World r)
          → Keeps db rid (standing lease w)
          → Ends db rid k (next lease w))
      → Ends db rid k (and_then r p next)
  and_then-Ends db rid k (standing lease w) next h f = f lease w h
  and_then-Ends db rid k (refused_at e lease w) next h f = inl h

  window-Keeps :
      (amount_of : Json → Option ℤ) (scope : Scope) (o : ℕ) (limits : Json) (now : ℕ) (db : Db)
      (rid : ℕ) (lease : RequestLease) (w : World r)
      → Keeps db rid (standing lease w)
      → Keeps db rid (check_window r amount_of scope o limits now lease w)
  window-Keeps amount_of scope o limits now db rid lease w h =
      elim (exceeded_window r scope o (normalize_limits amount_of limits)
          (occupied scope o w.db.settlements) now w.store)
        as (λ x. Keeps db rid (elim x [
          | none ↦ standing lease w
          | some window ↦ refused_at (window_used_up scope window) lease w
        ])) [ none ↦ h | some window ↦ h.0 ]

  snapshot-Keeps :
      (asked : Asked) (db : Db) (rid : ℕ) (lease : RequestLease) (w : World r)
      → Keeps db rid (standing lease w)
      → Keeps db rid (take_snapshot r asked lease w)
  snapshot-Keeps asked db rid lease w h =
      elim (snapshot_quotes asked.model asked.price_table asked.candidates)
        as (λ x. Keeps db rid (elim x [
          | err e ↦ refused_at (unpriced e) lease w
          | ok quotes ↦
              standing
                (record lease {
                  quotes = quotes;
                  estimated_tokens = asked.input_tokens + asked.output_tokens;
                })
                w
        ])) [ err e ↦ h.0 | ok quotes ↦ h ]

  key_tokens-Keeps :
      (db : Db) (rid : ℕ) (lease : RequestLease) (w : World r)
      → Keeps db rid (standing lease w)
      → Keeps db rid (take_key_tokens r lease w)
  key_tokens-Keeps db rid lease w h =
      let (s, granted) =
        reserve_tpm r key lease.api_key_id lease.tpm_limit (pos lease.estimated_tokens) w.store in
      let w' : World r = record w { store = s } in
      elim granted
        as (λ x. Keeps db rid (
          if x
          then standing
              (record lease {
                tpm_reserved = if eqb_ℤ lease.tpm_limit no_limit then 0 else lease.estimated_tokens;
              })
              w'
          else refused_at (too_many_tokens key) lease w')) [ true ↦ h | false ↦ h.0 ]

  tenant_tokens-Keeps :
      (db : Db) (rid : ℕ) (lease : RequestLease) (w : World r)
      → Keeps db rid (standing lease w)
      → Keeps db rid (take_tenant_tokens r lease w)
  tenant_tokens-Keeps db rid lease w h =
      let (s, granted) =
        reserve_tpm r tenant lease.tenant_id lease.tenant_tpm_limit (pos lease.estimated_tokens)
          w.store in
      let w' : World r = record w { store = s } in
      elim granted
        as (λ x. Keeps db rid (
          if x
          then standing
              (record lease {
                tenant_tpm_reserved =
                    if eqb_ℤ lease.tenant_tpm_limit no_limit then 0 else lease.estimated_tokens;
              })
              w'
          else refused_at (too_many_tokens tenant) lease w')) [ true ↦ h | false ↦ h.0 ]

  call-Ends :
      (db : Db) (rid : ℕ) (k : ApiKey) (t : Tenant) (asked : Asked) (lease : RequestLease)
      (w : World r)
      → HowRefused db rid k lease w
      → Ends db rid k (take_call r t asked lease w)
  call-Ends db rid k t asked lease w h =
      let (s, answer) = acquire r tenant t.id t.concurrent_limit asked.lease_id asked.now w.store in
      let w' : World r = record w { store = s } in
      elim answer
        as (λ x. Ends db rid k (elim x [
          | none ↦ refused_at (too_many_calls tenant) lease w'
          | some id ↦ standing (record lease { tenant_lease_id = id }) w'
        ])) [ none ↦ h | some id ↦ tt ]

  reservation-Ends :
      (db : Db) (rid : ℕ) (k : ApiKey) (t : Tenant) (asked : Asked) (lease : RequestLease)
      (w : World r)
      → Keeps db rid (standing lease w)
      → Ends db rid k (and_then r (take_reservation r k asked lease w) (take_call r t asked))
  reservation-Ends db rid k t asked lease w h =
      let estimate =
        estimate_quotes lease.quotes asked.input_tokens asked.output_tokens asked.request_units in
      let attempt =
        reserve lease.request_id k estimate lease.quotes asked.owner_id asked.now w.db in
      let goes_on : Result Denial Db → Type 0 =
        λ x. Ends db rid k (and_then r (reserved_as r lease w x) (take_call r t asked)) in
      elim (Result-cases attempt) [
        | inl (e, raised) ↦ subst goes_on (sym raised) (inl h.0)
        | inr (after, did) ↦ subst goes_on (sym did) (
            call-Ends db rid k t asked (record lease { reserved = true }) (record w { db = after })
              (inr (
                estimate,
                lease.quotes,
                asked.owner_id,
                asked.now,
                same_call after did,
                refl,
                h.1,
                h.0.2,
                h.0.3,
              )))
      ]
    where
      same_call :
          (after : Db)
          → reserve lease.request_id k
              (estimate_quotes lease.quotes asked.input_tokens asked.output_tokens
                asked.request_units)
              lease.quotes
              asked.owner_id
              asked.now
              w.db
            ≡ ok after
          → reserve rid k
              (estimate_quotes lease.quotes asked.input_tokens asked.output_tokens
                asked.request_units)
              lease.quotes
              asked.owner_id
              asked.now
              db
            ≡ ok after
      same_call after did = cc

  pub all-Ends :
      (amount_of : Json → Option ℤ) (k : ApiKey) (t : Tenant) (asked : Asked) (lease : RequestLease)
      (w : World r)
      → Keeps w.db asked.request_id (standing lease w)
      → Ends w.db asked.request_id k (take_all r amount_of k t asked lease w)
  unfolding take_all
  all-Ends amount_of k t asked lease w h =
      let db = w.db in
      let rid = asked.request_id in
      and_then-Ends db rid k _ _
        (window-Keeps amount_of key k.id k.window_limits _ db rid lease w h)
        λ l1 w1 h1.
          and_then-Ends db rid k _ _
            (window-Keeps amount_of tenant t.id t.window_limits _ db rid l1 w1 h1)
            λ l2 w2 h2.
              and_then-Ends db rid k _ _ (snapshot-Keeps asked db rid l2 w2 h2) λ l3 w3 h3.
                and_then-Ends db rid k _ _ (key_tokens-Keeps db rid l3 w3 h3) λ l4 w4 h4.
                  and_then-Ends db rid k _ _ (tenant_tokens-Keeps db rid l4 w4 h4)
                    λ l5 w5 h5. reservation-Ends db rid k t asked l5 w5 h5
