-- ===== src/Settlements/Operator.antt =====
-- An operator's retry and resolution of a settlement: backend/app/routers/settlements.py.

use five_api.Base.{
  ℕ, Bool, true, false, not, ◌&&◌, ◌||◌, Option, none, some, String, ◌∷◌, ◌==◌, Result, ok, err,
  ◌>>=◌, ◌>>◌, raise_if, update_where,
}
use five_api.Models.{Settlement, State, pending, failed, uncertain, released, Payload}
use five_api.Settlements.Store.{Db, find_tenant, find_key, find_record}

-- HTTP 404 and the 409 answers.
pub data Refusal : Type 0 where
  not_found needs_review not_resolvable owner_gone use_retry : Refusal

abbrev pub found : Option Settlement → Result Refusal Settlement
found none = err not_found
found (some s) = ok s

abbrev pub has_payload : Option Payload → Bool
has_payload (some (f ∷ fs)) = true
has_payload _ = false

abbrev pub is_priced : Option ℕ → Bool
is_priced none = false
is_priced (some c) = true

abbrev pub is_retryable : State → Bool
is_retryable failed = true
is_retryable pending = true
is_retryable _ = false

abbrev pub is_resolvable : State → Bool
is_resolvable uncertain = true
is_resolvable failed = true
is_resolvable _ = false

abbrev pub to_rescheduled : Settlement → Settlement
to_rescheduled s = record s { state = pending; attempts = 0; next_retry_at = none }

unfoldable pub retry : ℕ → Db → Result Refusal Db
retry record_id db = do
  row ← found (find_record record_id db)
  raise_if (not (is_retryable row.state && is_priced row.cost && has_payload row.payload))
      needs_review
  ok (record db { settlements = update_where (λ s. s.id == row.id) to_rescheduled db.settlements })

pub data Action : Type 0 where
  release charge_estimate : Action

abbrev pub to_written_off : String → Settlement → Settlement
to_written_off reason s = record s { state = released; occupied = 0; last_error = reason }

abbrev pub to_estimated : ℕ → Payload → Settlement → Settlement
to_estimated amount payload s = record s {
  state = pending;
  cost = some amount;
  payload = some payload;
  attempts = 0;
  next_retry_at = none;
}

abbrev pub is_there {ℓ} : {A : Type ℓ} → Option A → Bool
is_there none = false
is_there (some a) = true

-- `estimated` builds the payload of an estimated charge from the row: its own, or a bare one, with
-- the held amount as its cost.
unfoldable pub resolve : (Settlement → Payload) → ℕ → Action → String → Db → Result Refusal Db
resolve estimated record_id action reason db = do
  row ← found (find_record record_id db)
  raise_if (not (is_resolvable row.state)) not_resolvable
  elim action [
    | release ↦ ok (record db {
      settlements = update_where (λ s. s.id == row.id) (to_written_off reason) db.settlements;
    })
    | charge_estimate ↦ (do
      raise_if
          (not (is_there (find_key row.api_key_id db))
            || not (is_there (find_tenant row.tenant_id db)))
          owner_gone
      raise_if (is_priced row.cost) use_retry
      ok (record db {
        settlements =
            update_where (λ s. s.id == row.id) (to_estimated row.occupied (estimated row))
              db.settlements;
      }))
  ]
