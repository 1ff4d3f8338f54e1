-- ===== src/Settlements/Recovery.antt =====
-- What the recovery loop does: reservations of workers that have exited, and unsettled usage.
use five_api.Base.{
  ℕ, ◌+◌, Bool, true, false, not, ◌&&◌, ◌||◌, Option, none, some, String, List, [], ◌∷◌, map, take,
  ltb, ◌==◌, if◌then◌else◌, Result, ok, err, update_where, count_where, keep_if,
}
use five_api.Models.{Settlement, Payload}
use five_api.Redis.{Redis}
use five_api.Settlements.Store.{Db, is_reserved, is_pending, is_settled}
use five_api.Settlements.Reserve.{to_released, to_uncertain}
use five_api.Settlements.Apply.{apply, note_failure, record_windows}

abbrev pub contains : ℕ → List ℕ → Bool
contains a [] = false
contains a (x ∷ xs) = (x == a) || contains a xs

-- Reserved before the cutoff, `now - stale`.
abbrev pub is_stale : ℕ → ℕ → Settlement → Bool
is_stale now stale s = is_reserved s.state && ltb (s.created_at + stale) now

-- The other workers that own a stale reservation. The list stands for a set.
abbrev pub stale_owners : ℕ → ℕ → ℕ → List Settlement → List ℕ
stale_owners me now stale rows =
    map (λ s. s.owner_id) (keep_if (λ s. is_stale now stale s && not (s.owner_id == me)) rows)

abbrev pub is_orphan : List ℕ → ℕ → ℕ → Bool → Settlement → Bool
is_orphan exited now stale sent s =
    is_stale now stale s
    && contains s.owner_id exited
    && (if sent then s.dispatched else not s.dispatched)

-- Work that was never sent is released, and then work that was sent becomes uncertain.
unfoldable pub take_over : List ℕ → ℕ → ℕ → List Settlement → List Settlement
take_over exited now stale rows =
    update_where (is_orphan exited now stale true)
      (to_uncertain "Process exited before usage was persisted")
      (update_where (is_orphan exited now stale false) to_released rows)

-- `live` says whether an owner's heartbeat is there; `none` is Redis being away. `me` is OWNER_ID,
-- `stale` is PROCESS_STALE_SECONDS. The count is of the rows taken over.
unfoldable pub recover_orphans : Option (ℕ → Bool) → ℕ → ℕ → ℕ → Db → Db × ℕ
recover_orphans none me now stale db = (db, 0)
recover_orphans (some live) me now stale db =
    let exited = keep_if (λ o. not (live o)) (stale_owners me now stale db.settlements) in
    let rows = db.settlements in
    (
      record db { settlements = take_over exited now stale rows },
      count_where (is_orphan exited now stale false) rows
          + count_where (is_orphan exited now stale true) rows,
    )

-- Whether a retry is not due yet.
abbrev pub is_later : Option ℕ → ℕ → Bool
is_later none now = false
is_later (some t) now = ltb now t

module _ (r : Redis) (save_error : Payload → Option String) (redis_up db_up : Bool) (now : ℕ) where
  open r use {Store}

  -- An attempt at one pending row; what it raises is noted.
  unfoldable pub attempt : Settlement → Db × Store → Result String (ℕ × Db × Store)
  attempt row (db, s) =
      let outcome : Result String (Bool × Db × Store) = elim row.cost [
        | none ↦ err "ValueError"
        | some _ ↦ apply r save_error redis_up db_up row.request_id none (db, s)
      ] in
      elim outcome [
        | ok (done, db', s') ↦ ok (if done then 1 else 0, db', s')
        | err e ↦ elim (note_failure row.request_id e now db) [
          | err e' ↦ err e'
          | ok db' ↦ ok (0, db', s)
        ]
      ]

  unfoldable pub attempt_all : List Settlement → ℕ × Db × Store → Result String (ℕ × Db × Store)
  attempt_all [] acc = ok acc
  attempt_all (row ∷ rows) (done, db, s) =
      if is_later row.next_retry_at now
      then attempt_all rows (done, db, s)
      else elim (attempt row (db, s)) [
        | err e ↦ err e
        | ok (n, db', s') ↦ attempt_all rows (done + n, db', s')
      ]

  unfoldable pub record_all : List Settlement → Db × Store → Db × Store
  record_all [] w = w
  record_all (row ∷ rows) w = record_all rows (record_windows r redis_up db_up row w)

  -- `recover_once` after `flush_unsaved`: a hundred pending rows, then a hundred unrecorded windows.
  unfoldable pub recover_once : Db × Store → Result String (ℕ × Db × Store)
  unfolding attempt_all record_all
  recover_once (db, s) =
      let rows = take 100 (keep_if (λ t. is_pending t.state) db.settlements) in
      elim (attempt_all rows (0, db, s)) [
        | err e ↦ err e
        | ok (done, db', s') ↦
            let missed =
              take 100
                (keep_if (λ t. is_settled t.state && not t.windows_recorded) db'.settlements) in
            let (db_end, s_end) = record_all missed (db', s') in ok (done, db_end, s_end)
      ]
