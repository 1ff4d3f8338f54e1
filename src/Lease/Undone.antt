-- ===== src/Lease/Undone.antt =====
-- A reservation that is released at once leaves the tables' holdings as they were.

use five_api.Base.{
  ℕ, ◌≡◌, ap, ◌∙◌, Bool, true, none, List, [], ◌∷◌, ◌++◌, arith, ◌==◌, ok, find_first, update_where,
}
use five_api.Models.{Settlement, ApiKey, Quotes}
use five_api.Redis.{Scope}
use five_api.Settlements.Store.{Db, occupied}
use five_api.Settlements.Reserve.{Denial, reserve, is_open, to_released, new_row}
use five_api.Settlements.Reserve
use five_api.Settlements.Rows.{table_weight, weight-append}
use five_api.Settlements.Budget.{held_of, occupied-weight}
use five_api.Settlements.Outcomes.{reserve-Admitted}

-- An update of the rows of a fresh request changes only the row that was added for it.
update-fresh :
    (q p : Settlement → Bool) (f : Settlement → Settlement) (rs : List Settlement) (x : Settlement)
    → ((s : Settlement) → p s ≡ true → q s ≡ true)
    → find_first q rs ≡ none
    → p x ≡ true
    → update_where p f (rs ++ x ∷ []) ≡ rs ++ f x ∷ []
update-fresh q p f [] x sub fresh t = ground arith
update-fresh q p f (s ∷ rs) x sub fresh t = ground (arith, sub s, update-fresh q p f rs x sub)

held_of-released : (scope : Scope) (o : ℕ) (s : Settlement) → held_of scope o (to_released s) ≡ 0
held_of-released scope o s = ground arith

-- Releasing what was just reserved gives it all back.
pub release-reserve :
    (scope : Scope) (o rid : ℕ) (k : ApiKey) (amount : ℕ) (quotes : Quotes) (owner now : ℕ)
    (db db' : Db)
    → reserve rid k amount quotes owner now db ≡ ok db'
    → occupied scope o (Reserve.release rid db').settlements ≡ occupied scope o db.settlements
unfolding Reserve.release
release-reserve scope o rid k amount quotes owner now db db' h =
    let a = reserve-Admitted rid k amount quotes owner now db db' h in
    let row : Settlement =
      new_row db.next_id rid a.tenant_row.id a.key_row.id amount quotes owner now in
    let rows : update_where (is_open rid) to_released db'.settlements
        ≡ db.settlements ++ to_released row ∷ [] =
      ap (λ (d : Db). update_where (is_open rid) to_released d.settlements) a.result
      ∙ update-fresh (λ s. s.request_id == rid) (is_open rid) to_released db.settlements row
          (λ s t. ground arith) a.fresh (ground arith) in
    omega (
      arith,
      occupied-weight scope o (update_where (is_open rid) to_released db'.settlements),
      occupied-weight scope o db.settlements,
      ap (table_weight (held_of scope o)) rows,
      weight-append (held_of scope o) db.settlements (to_released row),
      held_of-released scope o row,
    )
