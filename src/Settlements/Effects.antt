-- ===== src/Settlements/Effects.antt =====
-- What each operation does to the table of reservations, row by row.
use five_api.Base.{
  ℕ, ◌+◌, ◌≡◌, refl, ap, sym, Bool, true, false, ◌&&◌, Option, none, some, String, List, [], ◌∷◌,
  arith, ◌==◌, if◌then◌else◌, ok, inl, inr, Bool-cases, Option-cases, update_where, find_first,
}
use mathlib.Core.Path.{subst}
use five_api.Models.{Settlement, Payload}
use five_api.Settlements.Store.{Db, is_pending, find_record, find_request}
use five_api.Settlements.Reserve.{
  release, mark_dispatched, abandon, is_open, to_released, to_dispatched, to_uncertain,
}
use five_api.Settlements.Usage.{mark_pending, awaits_usage, to_pending}
use five_api.Settlements.Apply.{note_failure, to_recorded, to_retried}
use five_api.Settlements.Recovery.{recover_orphans, take_over, is_orphan}
use five_api.Settlements.Operator.{
  Action, charge_estimate, retry, resolve, to_rescheduled, to_written_off, to_estimated,
}
use five_api.Settlements.Rows.{
  All, All-every, All-map, Pointwise, Pointwise-update, AreDistinct, only-found,
}
use five_api.Settlements.Moves.{
  Uncharged, Within, Within-refl, free-Within, dispatch-Within, lose-Within, retried-Within,
  recorded-Within, rescheduled-Within, written_off-Within, estimated-Within, pending-Uncharged,
}
use five_api.Settlements.Steps.{Rewritten}

pub rewrite-All :
    (P : Settlement → Settlement → Type 0) (p : Settlement → Bool) (f : Settlement → Settlement)
    (db db' : Db)
    → db' ≡ record db { settlements = update_where p f db.settlements }
    → ((s : Settlement) → P s s)
    → All (λ s. p s ≡ true → P s (f s)) db.settlements
    → Rewritten P db db'
rewrite-All P p f db db' e same h =
    rw e (refl, refl, refl, Pointwise-update P p f db.settlements same h)

rewrite :
    (P : Settlement → Settlement → Type 0) (p : Settlement → Bool) (f : Settlement → Settlement)
    (db db' : Db)
    → db' ≡ record db { settlements = update_where p f db.settlements }
    → ((s : Settlement) → P s s)
    → ((s : Settlement) → p s ≡ true → P s (f s))
    → Rewritten P db db'
rewrite P p f db db' e same h = rewrite-All P p f db db' e same (All-every _ _ h)

-- An update of the rows with the id of a row that was found: only that row matters.
rewrite_found :
    (q : Settlement → Bool) (f : Settlement → Settlement) (row : Settlement) (db db' : Db)
    → AreDistinct (λ (s : Settlement). s.id) db.settlements
    → find_first q db.settlements ≡ some row
    → db' ≡ record db { settlements = update_where (λ s. s.id == row.id) f db.settlements }
    → Within row (f row)
    → Rewritten Within db db'
rewrite_found q f row db db' d found e h = rw e (
  refl,
  refl,
  refl,
  Pointwise-update Within (λ s. s.id == row.id) f db.settlements Within-refl
      (All-map (λ s. s.id ≡ row.id → s ≡ row) (λ s. (s.id == row.id) ≡ true → Within s (f s))
        db.settlements (λ s only t. subst (λ x. Within x (f x)) (sym (only (ground arith))) h)
        (only-found (λ s. s.id) q db.settlements row d found)),
)

pub release-Within : (rid : ℕ) (db : Db) → Rewritten Within db (release rid db)
unfolding release
release-Within rid db =
    rewrite Within (is_open rid) to_released db _ refl Within-refl
      (λ s h. free-Within s (ground arith))

pub abandon-Within : (rid : ℕ) (db : Db) → Rewritten Within db (abandon rid db)
unfolding abandon
abandon-Within rid db =
    rewrite Within (is_open rid) _ db _ refl Within-refl (λ s h. lose-Within s _ (ground arith))

pub mark_dispatched-Within :
    (rid : ℕ) (db db' : Db) → mark_dispatched rid db ≡ ok db' → Rewritten Within db db'
unfolding mark_dispatched
mark_dispatched-Within rid db db' h =
    rewrite Within (is_open rid) to_dispatched db db' (ground arith) Within-refl
      (λ s h. dispatch-Within s)

pub mark_pending-Uncharged :
    (redact : Payload → Payload) (rid : ℕ) (payload : Payload) (cost : Option ℕ) (error : String)
    (db db' : Db)
    → mark_pending redact rid payload cost error db ≡ ok db'
    → Rewritten Uncharged db db'
unfolding mark_pending
mark_pending-Uncharged redact rid payload cost error db db' h =
    rewrite Uncharged (awaits_usage rid) (to_pending (redact payload) cost error) db db'
      (ground arith) (λ s. (Within-refl s).uncharged)
      (λ s h. pending-Uncharged s rid (redact payload) cost error h)

no_update : (rows : List Settlement) → update_where (λ _. false) (λ s. s) rows ≡ rows
no_update [] = refl
no_update (s ∷ rows) = ap (λ rest. s ∷ rest) (no_update rows)

-- Nothing is changed.
pub unchanged : (db db' : Db) → db' ≡ db → Rewritten Within db db'
unchanged db db' e =
    rewrite Within (λ _. false) (λ s. s) db db'
      (rw e (ap (λ rows. record db { settlements = rows }) (sym (no_update db.settlements))))
      Within-refl (λ s h. Within-refl s)

pub note_failure-Within :
    (rid : ℕ) (error : String) (now : ℕ) (db db' : Db)
    → note_failure rid error now db ≡ ok db'
    → Rewritten Within db db'
unfolding note_failure
note_failure-Within rid error now db db' h = elim (Option-cases (find_request rid db)) [
  | inl missing ↦ absurd (ground arith)
  | inr (row, found) ↦ elim (Bool-cases (is_pending row.state)) [
    | inr idle ↦ unchanged db db' (ground arith)
    | inl waits ↦
        rewrite Within (λ s. (s.id == row.id) && is_pending s.state)
          (to_retried (row.attempts + 1) error now) db db' (ground arith) Within-refl
          (λ s t. retried-Within s (row.attempts + 1) error now (ground arith))
  ]
]

orphan-Within :
    (exited : List ℕ) (now stale : ℕ) (reason : String) (s : Settlement)
    → let s' = if is_orphan exited now stale false s then to_released s else s in
      Within s (if is_orphan exited now stale true s' then to_uncertain reason s' else s')
orphan-Within exited now stale reason s = elim (Bool-cases (is_orphan exited now stale false s)) [
  | inl unsent ↦ rw unsent (free-Within s (ground arith))
  | inr other ↦ rw other (elim (Bool-cases (is_orphan exited now stale true s)) [
    | inl sent ↦ rw sent (lose-Within s reason (ground arith))
    | inr kept ↦ rw kept (Within-refl s)
  ])
]

take_over-Within :
    (exited : List ℕ) (now stale : ℕ) (rows : List Settlement)
    → Pointwise Within rows (take_over exited now stale rows)
unfolding take_over
take_over-Within exited now stale [] = tt
take_over-Within exited now stale (s ∷ rows) =
    (orphan-Within exited now stale _ s, take_over-Within exited now stale rows)

pub recover_orphans-Within :
    (live : Option (ℕ → Bool)) (me now stale : ℕ) (db : Db)
    → Rewritten Within db (recover_orphans live me now stale db).0
unfolding recover_orphans
recover_orphans-Within none me now stale db = unchanged db db refl
recover_orphans-Within (some live) me now stale db =
    (refl, refl, refl, take_over-Within _ now stale db.settlements)

pub records-Within :
    (i : ℕ) (db : Db)
    → Rewritten Within db
        (record db { settlements = update_where (λ s. s.id == i) to_recorded db.settlements })
records-Within i db =
    rewrite Within (λ s. s.id == i) to_recorded db _ refl Within-refl (λ s h. recorded-Within s)

pub retry-Within :
    (i : ℕ) (db db' : Db)
    → AreDistinct (λ (s : Settlement). s.id) db.settlements
    → retry i db ≡ ok db'
    → Rewritten Within db db'
unfolding retry
retry-Within i db db' d h = elim (Option-cases (find_record i db)) [
  | inl missing ↦ absurd (ground arith)
  | inr (row, found) ↦
      rewrite_found (λ s. s.id == i) to_rescheduled row db db' d found (ground arith)
        (rescheduled-Within row (ground arith))
]

pub resolve-Within :
    (estimated : Settlement → Payload) (i : ℕ) (action : Action) (reason : String) (db db' : Db)
    → AreDistinct (λ (s : Settlement). s.id) db.settlements
    → resolve estimated i action reason db ≡ ok db'
    → Rewritten Within db db'
unfolding resolve
resolve-Within estimated i Action.release reason db db' d h =
    elim (Option-cases (find_record i db)) [
      | inl missing ↦ absurd (ground arith)
      | inr (row, found) ↦
          rewrite_found (λ s. s.id == i) (to_written_off reason) row db db' d found (ground arith)
            (written_off-Within row reason (ground arith))
    ]
resolve-Within estimated i charge_estimate reason db db' d h =
    elim (Option-cases (find_record i db)) [
      | inl missing ↦ absurd (ground arith)
      | inr (row, found) ↦
          rewrite_found (λ s. s.id == i) (to_estimated row.occupied (estimated row)) row db db' d
            found (ground arith)
            (estimated-Within row (estimated row) (ground arith) (ground arith))
    ]
