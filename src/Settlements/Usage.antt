-- ===== src/Settlements/Usage.antt =====
-- Recording what a request used, and the usage that a worker could not save.
use five_api.Base.{
  ℕ, Bool, true, false, ◌&&◌, Option, none, some, String, List, [], ◌∷◌, ◌==◌, if◌then◌else◌,
  Result, ok, err, update_where, count_where, insert, erase,
}
use Prim.Native.String.{slice}
use mathlib.Core.Option
use five_api.Models.{Settlement, reserved, pending, failed, uncertain, settled, Payload}
use five_api.Settlements.Store.{Db}

-- Usage that is known to this worker alone: payload, cost and error by request.
pub record Unsaved : Type 0 where
  pub payload : Payload
  pub cost : Option ℕ
  pub error : String

pub record Worker : Type 0 where
  pub db : Db
  pub unsaved : List (ℕ × Unsaved)

-- Open for usage: reserved, or uncertain when a worker that was given up reports late.
abbrev pub awaits_usage : ℕ → Settlement → Bool
awaits_usage rid s =
    (s.request_id == rid) && elim s.state [ reserved ↦ true | uncertain ↦ true | _ ↦ false ]

abbrev pub has_usage : ℕ → Settlement → Bool
has_usage rid s =
    (s.request_id == rid)
    && elim s.state [ pending ↦ true | settled ↦ true | failed ↦ true | _ ↦ false ]

-- A known cost replaces the estimate; an error message is cut at 128 characters.
abbrev pub to_pending : Payload → Option ℕ → String → Settlement → Settlement
to_pending payload cost error s = record s {
  payload = some payload;
  cost = cost;
  state = pending;
  last_error = slice error 0 128;
  next_retry_at = none;
  occupied = Option.get_or cost s.occupied;
}

-- `redact` hides credentials in a payload.
module _ (redact : Payload → Payload) where
  unfoldable pub mark_pending : ℕ → Payload → Option ℕ → String → Db → Result String Db
  mark_pending rid payload cost error db =
      if count_where (awaits_usage rid) db.settlements == 0
        && count_where (has_usage rid) db.settlements == 0
      then err "RuntimeError"
      else ok (record db {
        settlements =
            update_where (awaits_usage rid) (to_pending (redact payload) cost error) db.settlements;
      })

  -- `reachable` says whether the database answers this call.
  unfoldable pub persist_usage : Bool → ℕ → Payload → Option ℕ → String → Worker → Worker
  persist_usage reachable rid payload cost error w =
      let keep : Unsaved = record { payload = redact payload; cost = cost; error = error } in
      let later : Worker = record w { unsaved = insert rid keep w.unsaved } in
      if reachable
      then elim (mark_pending rid payload cost error w.db) [
        | ok db ↦ record { db = db; unsaved = erase rid w.unsaved }
        | err _ ↦ later
      ]
      else later

  -- Retries in order; the first failure ends the round, and what was saved before it stays saved.
  -- `outage` names the exception where the database does not answer for a request.
  unfoldable pub flush : (ℕ → Option String) → List (ℕ × Unsaved) → Worker → Worker × Option String
  flush outage [] w = (w, none)
  flush outage ((rid, u) ∷ rest) w =
      let saved : Result String Db = elim (outage rid) [
        | some e ↦ err e
        | none ↦ mark_pending rid u.payload u.cost u.error w.db
      ] in
      elim saved [
        | err e ↦ (w, some e)
        | ok db ↦ flush outage rest (record { db = db; unsaved = erase rid w.unsaved })
      ]

  unfoldable pub flush_unsaved : (ℕ → Option String) → Worker → Worker × Option String
  unfolding flush
  flush_unsaved outage w = flush outage w.unsaved w
