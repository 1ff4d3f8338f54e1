-- ===== src/Settlements/Steps.antt =====
-- Every operation on the accounting tables as one step, and what a step does to the table of
-- reservations. Workers and operators interleave their operations as sequences of these steps.
use five_api.Base.{ℕ, ◌<◌, ◌≡◌, Bool, Option, String, ◌==◌, ok, update_where}
use five_api.Models.{ApiKey, Settlement, Quotes, Payload}
use five_api.Settlements.Store.{Db}
use five_api.Settlements.Reserve.{reserve, release, mark_dispatched, abandon}
use five_api.Settlements.Usage.{mark_pending}
use five_api.Settlements.Apply.{settle, note_failure, to_recorded}
use five_api.Settlements.Recovery.{recover_orphans}
use five_api.Settlements.Operator.{Action, retry, resolve}
use five_api.Settlements.Rows.{All, Pointwise, AreDistinct}
use five_api.Settlements.Moves.{Holds}

-- The parameters that the source takes from elsewhere differ from step to step.
pub data Step (db db' : Db) : Type 0 where
  reserves :
      (rid : ℕ) (k : ApiKey) (amount : ℕ) (quotes : Quotes) (owner now : ℕ)
      → reserve rid k amount quotes owner now db ≡ ok db'
      → Step db db'
  releases : (rid : ℕ) → db' ≡ release rid db → Step db db'
  dispatches : (rid : ℕ) → mark_dispatched rid db ≡ ok db' → Step db db'
  abandons : (rid : ℕ) → db' ≡ abandon rid db → Step db db'
  reports :
      (redact : Payload → Payload) (rid : ℕ) (payload : Payload) (cost : Option ℕ) (error : String)
      → mark_pending redact rid payload cost error db ≡ ok db'
      → Step db db'
  settles :
      (save_error : Payload → Option String) (rid : ℕ) (owners : Option (ℕ × ℕ)) (done : Bool)
      → settle save_error rid owners db ≡ ok (db', done)
      → Step db db'
  fails :
      (rid : ℕ) (error : String) (now : ℕ) → note_failure rid error now db ≡ ok db' → Step db db'
  takes_over :
      (live : Option (ℕ → Bool)) (me now stale : ℕ)
      → db' ≡ (recover_orphans live me now stale db).0
      → Step db db'
  records :
      (id : ℕ)
      → db' ≡ record db { settlements = update_where (λ s. s.id == id) to_recorded db.settlements }
      → Step db db'
  retries : (id : ℕ) → retry id db ≡ ok db' → Step db db'
  resolves :
      (estimated : Settlement → Payload) (id : ℕ) (action : Action) (reason : String)
      → resolve estimated id action reason db ≡ ok db'
      → Step db db'

pub data Reach (db : Db) : Db → Type 0 where
  here : Reach db db
  next : {mid db' : Db} → Reach db mid → Step mid db' → Reach db db'

-- The ids are distinct and below the next one, and each row holds what its state says.
pub record IsSound (db : Db) : Type 0 where
  pub distinct : AreDistinct (λ (s : Settlement). s.id) db.settlements
  pub below : All (λ (s : Settlement). s.id < db.next_id) db.settlements
  pub holding : All (λ (s : Settlement). Holds s.state s.cost s.occupied) db.settlements

-- The rows afterwards, where no request is charged and none is reserved.
abbrev pub Rewritten : (Settlement → Settlement → Type 0) → Db → Db → Type 0
Rewritten P db db' =
    (db'.tenants ≡ db.tenants)
    × (db'.keys ≡ db.keys)
    × (db'.next_id ≡ db.next_id)
    × Pointwise P db.settlements db'.settlements
