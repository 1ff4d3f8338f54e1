-- ===== src/Settlements/Recovered.antt =====
-- What a recovery round may do to the tables, and to which rows.

use five_api.Base.{
  ℕ, ◌+◌, ◌<◌, ◌≡◌, Bool, true, ◌&&◌, Option, none, String, List, ok, ◌==◌, if◌then◌else◌,
  update_where, count_where,
}
use five_api.Models.{Settlement, Payload}
use five_api.Redis.{Redis}
use five_api.Settlements.Store.{Db, is_settled}
use five_api.Settlements.Rows.{All}
use five_api.Settlements.Apply.{settle, note_failure, to_recorded}

-- How many rows of an id are settled.
abbrev pub settled_rows : ℕ → List Settlement → ℕ
settled_rows id = count_where (λ s. (s.id == id) && is_settled s.state)

-- A run of a recovery round: charges, which it counts, failed attempts, and recordings of settled
-- rows. Nothing is reserved, released, taken over, retried or resolved.
pub data RecoveryRun (save_error : Payload → Option String) (now : ℕ) (db : Db)
    : ℕ → Db → Type 0 where
  idle : RecoveryRun save_error now db 0 db
  charges :
      {n : ℕ} {mid db' : Db}
      → RecoveryRun save_error now db n mid
      → (rid : ℕ) → settle save_error rid none mid ≡ ok (db', true)
      → RecoveryRun save_error now db (n + 1) db'
  notes :
      {n : ℕ} {mid db' : Db}
      → RecoveryRun save_error now db n mid
      → (rid : ℕ) (error : String) → note_failure rid error now mid ≡ ok db'
      → RecoveryRun save_error now db n db'
  records :
      {n : ℕ} {mid : Db}
      → RecoveryRun save_error now db n mid
      → (id : ℕ) → 0 < settled_rows id mid.settlements
      → RecoveryRun save_error now db n
          (record mid { settlements = update_where (λ s. s.id == id) to_recorded mid.settlements })

-- The rows of an id where a list of rows is settled.
abbrev AreSettled : List Settlement → Db → Type 0
AreSettled rows db = All (λ (x : Settlement). 0 < settled_rows x.id db.settlements) rows

module _ (r : Redis) (redis_up db_up : Bool) (save_error : Payload → Option String) (now : ℕ)
    (start : Db) where
  open r use {Store}

  abbrev Run : ℕ → Db → Type 0
  Run = RecoveryRun save_error now start

  abbrev count_of : Bool → ℕ
  count_of done = if done then 1 else 0
