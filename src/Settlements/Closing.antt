-- ===== src/Settlements/Closing.antt =====
-- A request that has no open reservation gets none by what follows a call.
use mathlib.Core.Path.{subst}
use five_api.Base.{
  ℕ, ◌≡◌, refl, sym, Bool, true, false, Option, String, List, [], ◌∷◌, arith, ok, inl, inr,
  Bool-cases, Option-cases, Result-cases, if_both, update_where, count_where, ◌==◌, not, ◌||◌,
}
use five_api.Models.{Settlement, State, Payload}
use five_api.Redis.{Redis}
use five_api.Settlements.Store.{Db, find_request, is_reserved}
use five_api.Settlements.Rows.{All, All-Pointwise, All-update}
use five_api.Settlements.Reserve.{is_open, mark_dispatched, abandon, to_uncertain, to_released}
use five_api.Settlements.Reserve
use five_api.Settlements.Usage.{Worker, mark_pending, persist_usage, awaits_usage, to_pending}
use five_api.Settlements.Apply.{apply, settle, record_windows, to_settled, to_recorded}
use five_api.Settlements.Moves.{
  Moves, Within, ◌⟶◌, stay, use_reserved, use_late, free, lose, give_up, charge, reschedule,
  estimate, forgive_unknown, forgive_failed,
}
use five_api.Settlements.Steps.{Rewritten}
use five_api.Settlements.Effects.{records-Within}
use five_api.Settlements.Outcomes.{settle-cases}

-- No row of the request is still reserved.
abbrev pub NoneOpen : ℕ → Db → Type 0
NoneOpen rid db = All (λ (s : Settlement). is_open rid s ≡ false) db.settlements

reserved_again : (a b : State) → a ⟶ b → is_reserved a ≡ false → is_reserved b ≡ false
reserved_again a b stay h = h
reserved_again a b use_reserved h = refl
reserved_again a b use_late h = refl
reserved_again a b free h = refl
reserved_again a b lose h = refl
reserved_again a b give_up h = refl
reserved_again a b charge h = refl
reserved_again a b reschedule h = refl
reserved_again a b estimate h = refl
reserved_again a b forgive_unknown h = refl
reserved_again a b forgive_failed h = refl

Moves-closed :
    (rid : ℕ) (s s' : Settlement) → Moves s s' → is_open rid s ≡ false → is_open rid s' ≡ false
Moves-closed rid s s' m h = ground (arith, m.request_kept, reserved_again s.state s'.state m.path)

pub Within-NoneOpen :
    (rid : ℕ) (db db' : Db) → Rewritten Within db db' → NoneOpen rid db → NoneOpen rid db'
Within-NoneOpen rid db db' w h =
    All-Pointwise Within (λ s. is_open rid s ≡ false) (λ s. is_open rid s ≡ false) db.settlements
      db'.settlements (λ s s' x c. Moves-closed rid s s' x.uncharged.moves c) w.3 h

-- Where every open row is rewritten to one that is not, none is left.
pub update-NoneOpen :
    (rid : ℕ) (p : Settlement → Bool) (f : Settlement → Settlement) (rs : List Settlement)
    → ((s : Settlement) → is_open rid s ≡ true → p s ≡ true)
    → ((s : Settlement) → is_open rid (f s) ≡ false)
    → All (λ (s : Settlement). is_open rid s ≡ false) (update_where p f rs)
update-NoneOpen rid p f [] sub out = tt
update-NoneOpen rid p f (s ∷ rs) sub out = (
  elim (Bool-cases (p s)) [ inl t ↦ rw t (out s) | inr t ↦ rw t (ground (arith, sub s)) ],
  update-NoneOpen rid p f rs sub out,
)

count-NoneOpen :
    (rid : ℕ) (p : Settlement → Bool) (rs : List Settlement)
    → ((s : Settlement) → is_open rid s ≡ true → p s ≡ true)
    → count_where p rs ≡ 0
    → All (λ (s : Settlement). is_open rid s ≡ false) rs
count-NoneOpen rid p [] sub h = tt
count-NoneOpen rid p (s ∷ rs) sub h =
    (ground (arith, sub s), count-NoneOpen rid p rs sub (ground arith))

pub abandon-NoneOpen : (rid : ℕ) (db : Db) → NoneOpen rid (abandon rid db)
unfolding abandon
abandon-NoneOpen rid db =
    update-NoneOpen rid (is_open rid) (to_uncertain _) db.settlements (λ s h. h) (λ s. ground arith)

pub release-NoneOpen : (rid : ℕ) (db : Db) → NoneOpen rid (Reserve.release rid db)
unfolding Reserve.release
release-NoneOpen rid db =
    update-NoneOpen rid (is_open rid) to_released db.settlements (λ s h. h) (λ s. ground arith)

-- Usage that the database could record leaves no row reserved.
pub persist_usage-NoneOpen :
    (redact : Payload → Payload) (rid : ℕ) (payload : Payload) (cost : Option ℕ) (error : String)
    (w : Worker)
    → NoneOpen rid (persist_usage redact true rid payload cost error w).db
unfolding persist_usage
persist_usage-NoneOpen redact rid payload cost error w =
    elim (Result-cases (mark_pending redact rid payload cost error w.db)) [
      | inl (e, raised) ↦ rw raised (
          count-NoneOpen rid (awaits_usage rid) w.db.settlements (λ s h. ground arith)
            (unfold mark_pending in ground arith))
      | inr (db, saved) ↦ rw saved (
          let rows : update_where (awaits_usage rid) (to_pending (redact payload) cost error)
                w.db.settlements
              ≡ db.settlements =
            unfold mark_pending in ground arith in
          subst (All (λ (s : Settlement). is_open rid s ≡ false)) rows (
            update-NoneOpen rid (awaits_usage rid) (to_pending (redact payload) cost error)
              w.db.settlements (λ s h. ground arith) (λ s. ground arith)))
    ]

settle-NoneOpen :
    (save_error : Payload → Option String) (rid rid' : ℕ) (owners : Option (ℕ × ℕ)) (db db' : Db)
    (done : Bool)
    → settle save_error rid owners db ≡ ok (db', done)
    → NoneOpen rid' db
    → NoneOpen rid' db'
settle-NoneOpen save_error rid rid' owners db db' done h n =
    elim (settle-cases save_error rid owners db db' done h) [
      | inl (idle, same) ↦ subst (NoneOpen rid') (sym same) n
      | inr (paid, c) ↦ subst (NoneOpen rid') (sym c.result) (
          All-update (λ s. is_open rid' s ≡ false) (λ s. s.id == c.row.id) to_settled db.settlements
            (λ s t o. ground arith) n)
    ]

record_windows-NoneOpen :
    (r : Redis) (redis_up db_up : Bool) (rid : ℕ) (row : Settlement) (db : Db) (s : r.Store)
    → NoneOpen rid db
    → NoneOpen rid (record_windows r redis_up db_up row (db, s)).0
unfolding record_windows
record_windows-NoneOpen r redis_up db_up rid row db s n =
    let marked : Db = record db {
      settlements = update_where (λ t. t.id == row.id) to_recorded db.settlements;
    } in
    let kept = Within-NoneOpen rid db marked (records-Within row.id db) n in
    if_both (λ (x : Db × r.Store). NoneOpen rid x.0) (row.windows_recorded || not redis_up) (db, s)
      _ n (if_both (λ (x : Db × r.Store). NoneOpen rid x.0) db_up _ _ kept n)

pub apply-NoneOpen :
    (r : Redis) (save_error : Payload → Option String) (redis_up db_up : Bool) (rid : ℕ)
    (owners : Option (ℕ × ℕ)) (db db' : Db) (s s' : r.Store) (done : Bool)
    → apply r save_error redis_up db_up rid owners (db, s) ≡ ok (done, db', s')
    → NoneOpen rid db
    → NoneOpen rid db'
unfolding apply
apply-NoneOpen r save_error redis_up db_up rid owners db db' s s' done h n =
    elim (Option-cases (find_request rid db)) [
      | inl missing ↦ absurd (ground arith)
      | inr (row, found) ↦ elim (Result-cases (settle save_error rid owners db)) [
        | inl (e, raised) ↦ absurd (ground arith)
        | inr ((mid, true), paid) ↦
            let same : (record_windows r redis_up db_up row (mid, s)).0 ≡ db' = ground arith in
            subst (NoneOpen rid) same (
              record_windows-NoneOpen r redis_up db_up rid row mid s
                (settle-NoneOpen save_error rid rid owners db mid true paid n))
        | inr ((mid, false), idle) ↦
            let same : mid ≡ db' = ground arith in
            subst (NoneOpen rid) same
              (settle-NoneOpen save_error rid rid owners db mid false idle n)
      ]
    ]
