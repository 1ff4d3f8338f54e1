-- ===== src/Settlements/Runs.antt =====
-- The composed operations as sequences of steps: what a recovery round does is some run of the
-- operations that the invariants are about.

use mathlib.Core.Path.{subst}
use five_api.Base.{
  ℕ, ◌+◌, ◌≡◌, refl, sym, Bool, true, false, ◌&&◌, ◌||◌, not, Option, none, some, String, List, [],
  ◌∷◌, arith, ok, inl, inr, Bool-cases, Option-cases, Result-cases, take, keep_if, erase,
}
use five_api.Models.{Settlement, Payload}
use five_api.Redis.{Redis}
use five_api.Settlements.Store.{Db, find_request, is_pending, is_settled}
use five_api.Settlements.Usage.{Worker, Unsaved, mark_pending, flush, persist_usage}
use five_api.Settlements.Apply.{apply, settle, record_windows, note_failure}
use five_api.Settlements.Recovery.{attempt, attempt_all, record_all, recover_once, is_later}
use five_api.Settlements.Steps.{reports, settles, fails, records, Reach, here, next}

pub Reach-trans : (a b c : Db) → Reach a b → Reach b c → Reach a c
Reach-trans a b c r here = r
Reach-trans a b c r (next {mid} q s) = next (Reach-trans a b mid r q) s

module _ (redact : Payload → Payload) where
  persist_usage-Reach :
      (reachable : Bool) (rid : ℕ) (payload : Payload) (cost : Option ℕ) (error : String)
      (w : Worker)
      → Reach w.db (persist_usage redact reachable rid payload cost error w).db
  unfolding persist_usage
  persist_usage-Reach false rid payload cost error w = here
  persist_usage-Reach true rid payload cost error w =
      elim (Result-cases (mark_pending redact rid payload cost error w.db)) [
        | inl (e, raised) ↦ rw raised here
        | inr (db, saved) ↦ rw saved (next here (reports redact rid payload cost error saved))
      ]

  flush-Reach :
      (outage : ℕ → Option String) (todo : List (ℕ × Unsaved)) (w : Worker)
      → Reach w.db (flush redact outage todo w).0.db
  unfolding flush
  flush-Reach outage [] w = here
  flush-Reach outage ((rid, u) ∷ rest) w = elim (Option-cases (outage rid)) [
    | inr (e, away) ↦ stops (w, some e) refl (ground arith)
    | inl up ↦ elim (Result-cases (mark_pending redact rid u.payload u.cost u.error w.db)) [
      | inl (e, raised) ↦ stops (w, some e) refl (ground arith)
      | inr (db, saved) ↦
          let goes_on : flush redact outage rest (record { db = db; unsaved = erase rid w.unsaved })
              ≡ flush redact outage ((rid, u) ∷ rest) w =
            ground arith in
          subst (λ (x : Worker × Option String). Reach w.db x.0.db) goes_on
            (Reach-trans w.db db _ (next here (reports redact rid u.payload u.cost u.error saved))
              (flush-Reach outage rest (record { db = db; unsaved = erase rid w.unsaved })))
    ]
  ]
    where
      stops :
          (x : Worker × Option String)
          → x.0.db ≡ w.db
          → x ≡ flush redact outage ((rid, u) ∷ rest) w
          → Reach w.db (flush redact outage ((rid, u) ∷ rest) w).0.db
      stops x same e =
          subst (λ (y : Worker × Option String). Reach w.db y.0.db) e
            (subst (Reach w.db) (sym same) here)

module _ (r : Redis) (redis_up db_up : Bool) where
  open r use {Store}

  record_windows-Reach :
      (row : Settlement) (db : Db) (s : Store)
      → Reach db (record_windows r redis_up db_up row (db, s)).0
  unfolding record_windows
  record_windows-Reach row db s = elim (Bool-cases (row.windows_recorded || not redis_up)) [
    | inl done ↦ rw done here
    | inr todo ↦ elim (Bool-cases db_up) [
      | inl up ↦ rw (todo, up) (next here (records row.id refl))
      | inr away ↦ rw (todo, away) here
    ]
  ]

  module _ (save_error : Payload → Option String) where
    apply-Reach :
        (rid : ℕ) (owners : Option (ℕ × ℕ)) (db db' : Db) (s s' : Store) (done : Bool)
        → apply r save_error redis_up db_up rid owners (db, s) ≡ ok (done, db', s')
        → Reach db db'
    unfolding apply
    apply-Reach rid owners db db' s s' done h = elim (Option-cases (find_request rid db)) [
      | inl missing ↦ absurd (ground arith)
      | inr (row, found) ↦ elim (Result-cases (settle save_error rid owners db)) [
        | inl (e, raised) ↦ absurd (ground arith)
        | inr ((mid, true), charged) ↦ subst (Reach db) (ground arith) (
            Reach-trans db mid _ (next here (settles save_error rid owners true charged))
              (record_windows-Reach row mid s))
        | inr ((mid, false), idle) ↦
            subst (Reach db) (ground arith) (next here (settles save_error rid owners false idle))
      ]
    ]

    module _ (now : ℕ) where
      attempt-Reach :
          (row : Settlement) (db db' : Db) (s s' : Store) (n : ℕ)
          → attempt r save_error redis_up db_up now row (db, s) ≡ ok (n, db', s')
          → Reach db db'
      unfolding attempt
      attempt-Reach row db db' s s' n h = elim (Option-cases row.cost) [
        | inl unpriced ↦ noted "ValueError" (ground arith)
        | inr (c, priced) ↦
            elim (Result-cases (apply r save_error redis_up db_up row.request_id none (db, s))) [
              | inl (e, raised) ↦ noted e (ground arith)
              | inr ((done, mid, t), did) ↦
                  subst (Reach db) (ground arith)
                    (apply-Reach row.request_id none db mid s t done did)
            ]
      ]
        where
          noted : (e : String) → note_failure row.request_id e now db ≡ ok db' → Reach db db'
          noted e k = next here (fails row.request_id e now k)

      attempt_all-Reach :
          (rows : List Settlement) (db db' : Db) (s s' : Store) (n m : ℕ)
          → attempt_all r save_error redis_up db_up now rows (n, db, s) ≡ ok (m, db', s')
          → Reach db db'
      unfolding attempt_all
      attempt_all-Reach [] db db' s s' n m h = subst (Reach db) (ground arith) here
      attempt_all-Reach (row ∷ rows) db db' s s' n m h =
          elim (Bool-cases (is_later row.next_retry_at now)) [
            | inl later ↦ attempt_all-Reach rows db db' s s' n m (ground arith)
            | inr due ↦ elim (Result-cases (attempt r save_error redis_up db_up now row (db, s))) [
              | inl (e, raised) ↦ absurd (ground arith)
              | inr ((k, mid, t), did) ↦
                  Reach-trans db mid db' (attempt-Reach row db mid s t k did)
                    (attempt_all-Reach rows mid db' t s' (n + k) m (ground arith))
            ]
          ]

      record_all-Reach :
          (rows : List Settlement) (db : Db) (s : Store)
          → Reach db (record_all r save_error redis_up db_up now rows (db, s)).0
      unfolding record_all
      record_all-Reach [] db s = here
      record_all-Reach (row ∷ rows) db s =
          let (mid, t) = record_windows r redis_up db_up row (db, s) in
          Reach-trans db mid _ (record_windows-Reach row db s) (record_all-Reach rows mid t)

      -- The invariants of the steps go over to a recovery round that returns.
      pub recover_once-Reach :
          (db db' : Db) (s s' : Store) (n : ℕ)
          → recover_once r save_error redis_up db_up now (db, s) ≡ ok (n, db', s')
          → Reach db db'
      unfolding recover_once
      recover_once-Reach db db' s s' n h =
          let rows = take 100 (keep_if (λ t. is_pending t.state) db.settlements) in
          elim (Result-cases (attempt_all r save_error redis_up db_up now rows (0, db, s))) [
            | inl (e, raised) ↦ absurd (ground arith)
            | inr ((done, mid, t), did) ↦
                let missed =
                  take 100
                    (keep_if (λ x. is_settled x.state && not x.windows_recorded) mid.settlements) in
                subst (Reach db) (ground arith) (
                  Reach-trans db mid _ (attempt_all-Reach rows db mid s t 0 done did)
                    (record_all-Reach missed mid t))
          ]
