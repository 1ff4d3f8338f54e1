-- ===== src/Settlements/Soundness.antt =====
-- Sound tables stay sound, and no reservation leaves its diagram.
use five_api.Base.{
  ℕ, ◌+◌, ◌<◌, ◌≡◌, refl, ap, sym, ◌∙◌, true, Option, none, some, [], ◌∷◌, arith, ◌==◌, get_elem?,
  ◌⊎◌,
}
use mathlib.Core.Path.{subst}
use five_api.Models.{
  ApiKey, Settlement, State, settled, released, reserved, pending, failed, uncertain, Quotes,
  Payload,
}
use five_api.Settlements.Store.{Db}
use five_api.Settlements.Apply.{charge_due, due, to_settled}
use five_api.Settlements.Reserve.{new_row}
use five_api.Settlements.Rows.{
  All-map, All-append, All-Pointwise, Pointwise, Pointwise-update, Pointwise-map, Pointwise-get,
  get-append, AreDistinct-Pointwise, AreDistinct-append, only-found,
}
use five_api.Settlements.Moves.{
  ◌⟶◌, stay, use_reserved, use_late, free, lose, give_up, charge, reschedule, estimate,
  forgive_unknown, forgive_failed, Moves, Uncharged, Within, Within-refl, settled-Moves, Holds,
}
use five_api.Settlements.Outcomes.{Admitted, Charged}
use five_api.Settlements.Kinds.{Effect, quiet, usage, admitted, charged, Step-Effect}
use five_api.Settlements.Steps.{Step, Reach, here, next, IsSound, Rewritten}

pub due-pending :
    (s : State) (p : Option Payload) (c : Option ℕ) (cost : ℕ) (log : Payload)
    → due s p c ≡ charge_due cost log
    → (s ≡ pending) × (c ≡ some cost)
due-pending pending (some (f ∷ fs)) (some c) cost log h = ground arith
due-pending pending (some (f ∷ fs)) none cost log h = ground arith
due-pending pending (some []) c cost log h = ground arith
due-pending pending none c cost log h = ground arith
due-pending reserved p c cost log h = ground arith
due-pending failed p c cost log h = ground arith
due-pending uncertain p c cost log h = ground arith
due-pending released p c cost log h = ground arith
due-pending settled p c cost log h = ground arith

-- The rows after a charge.
pub Charged-Moves :
    (rid : ℕ) (db db' : Db)
    → IsSound db
    → Charged rid db db'
    → Pointwise Moves db.settlements db'.settlements
Charged-Moves rid db db' v c =
    let (waits, priced) = due-pending c.row.state c.row.payload c.row.cost c.cost c.log c.is_due in
    subst (Pointwise Moves db.settlements) (sym (ap (λ (d : Db). d.settlements) c.result)) (
      Pointwise-update Moves (λ s. s.id == c.row.id) to_settled db.settlements
        (λ s. (Within-refl s).uncharged.moves)
        (All-map (λ s. s.id ≡ c.row.id → s ≡ c.row)
          (λ s. (s.id == c.row.id) ≡ true → Moves s (to_settled s)) db.settlements
          (λ s only t.
            subst (λ x. Moves x (to_settled x)) (sym (only (ground arith)))
              (settled-Moves c.row waits priced))
          (only-found (λ s. s.id) (λ s. s.request_id == rid) db.settlements c.row v.distinct
            c.row_found)))

-- Rows that moved, under the same next id.
moved-IsSound :
    (db db' : Db)
    → IsSound db
    → db'.next_id ≡ db.next_id
    → Pointwise Moves db.settlements db'.settlements
    → IsSound db'
moved-IsSound db db' v e h = record {
  distinct =
      AreDistinct-Pointwise (λ s. s.id) Moves db.settlements db'.settlements (λ r s m. m.id_kept) h
        v.distinct;
  below =
      All-Pointwise Moves (λ s. s.id < db.next_id) (λ s. s.id < db'.next_id) db.settlements
        db'.settlements (λ r s m b. omega (arith, e, m.id_kept)) h v.below;
  holding =
      All-Pointwise Moves (λ s. Holds s.state s.cost s.occupied)
        (λ s. Holds s.state s.cost s.occupied) db.settlements db'.settlements
        (λ r s m b. m.holding b) h v.holding;
}

Admitted-IsSound :
    (rid : ℕ) (k : ApiKey) (amount : ℕ) (quotes : Quotes) (owner now : ℕ) (db db' : Db)
    → IsSound db
    → Admitted rid k amount quotes owner now db db'
    → IsSound db'
Admitted-IsSound rid k amount quotes owner now db db' v a = rw a.result (record {
  distinct = AreDistinct-append (λ s. s.id) db.settlements row v.distinct v.below;
  below =
      All-append (λ s. s.id < db.next_id + 1) db.settlements row
        (All-map (λ s. s.id < db.next_id) (λ s. s.id < db.next_id + 1) db.settlements
          (λ s b. omega arith) v.below)
        (omega arith);
  holding = All-append (λ s. Holds s.state s.cost s.occupied) db.settlements row v.holding refl;
})
  where
    row : Settlement
    row = new_row db.next_id rid a.tenant_row.id a.key_row.id amount quotes owner now

-- What a step that reserves nothing does to the rows.
pub Within-Moves :
    (db db' : Db) → Rewritten Within db db' → Pointwise Moves db.settlements db'.settlements
Within-Moves db db' h =
    Pointwise-map Within Moves db.settlements db'.settlements (λ r s w. w.uncharged.moves) h.3

pub Uncharged-Moves :
    (db db' : Db) → Rewritten Uncharged db db' → Pointwise Moves db.settlements db'.settlements
Uncharged-Moves db db' h =
    Pointwise-map Uncharged Moves db.settlements db'.settlements (λ r s u. u.moves) h.3

Effect-IsSound : (db db' : Db) → IsSound db → Effect db db' → IsSound db'
Effect-IsSound db db' v (quiet h) = moved-IsSound db db' v h.2 (Within-Moves db db' h)
Effect-IsSound db db' v (usage h) = moved-IsSound db db' v h.2 (Uncharged-Moves db db' h)
Effect-IsSound db db' v (admitted rid k amount quotes owner now a) =
    Admitted-IsSound rid k amount quotes owner now db db' v a
Effect-IsSound db db' v (charged rid c) =
    moved-IsSound db db' v (ap (λ (d : Db). d.next_id) c.result) (Charged-Moves rid db db' v c)

-- Every operation keeps the tables sound: ids stay distinct, and each row holds what its state says.
pub Step-IsSound : (db db' : Db) → IsSound db → Step db db' → IsSound db'
Step-IsSound db db' v s = Effect-IsSound db db' v (Step-Effect db db' v s)

-- Any sequence of operations keeps the tables sound: ids stay distinct and below the next one, and
-- each row holds what its state says.
pub Reach-IsSound : (db db' : Db) → IsSound db → Reach db db' → IsSound db'
Reach-IsSound db db' v here = v
Reach-IsSound db db' v (next {mid} r s) = Step-IsSound mid db' (Reach-IsSound db mid v r) s

Effect-row :
    (db db' : Db) (i : ℕ) (row : Settlement)
    → IsSound db
    → Effect db db'
    → get_elem? db.settlements i ≡ some row
    → (row' : Settlement) × (get_elem? db'.settlements i ≡ some row') × Moves row row'
Effect-row db db' i row v (quiet h) e =
    Pointwise-get Moves db.settlements db'.settlements i row (Within-Moves db db' h) e
Effect-row db db' i row v (usage h) e =
    Pointwise-get Moves db.settlements db'.settlements i row (Uncharged-Moves db db' h) e
Effect-row db db' i row v (admitted rid k amount quotes owner now a) e =
    (row, rw a.result (get-append db.settlements _ i row e), (Within-refl row).uncharged.moves)
Effect-row db db' i row v (charged rid c) e =
    Pointwise-get Moves db.settlements db'.settlements i row (Charged-Moves rid db db' v c) e

-- A row is never deleted or reused: after any operation on a sound state it stands where it stood,
-- for the same request and owners, and its state has moved along the diagram.
pub Step-Moves :
    (db db' : Db) (i : ℕ) (row : Settlement)
    → IsSound db
    → Step db db'
    → get_elem? db.settlements i ≡ some row
    → (row' : Settlement) × (get_elem? db'.settlements i ≡ some row') × Moves row row'
Step-Moves db db' i row v s e = Effect-row db db' i row v (Step-Effect db db' v s) e

abbrev pub IsFinal : State → Type 0
IsFinal s = (s ≡ settled) ⊎ (s ≡ released)

final_stays : (s t : State) → s ⟶ t → IsFinal s → t ≡ s
final_stays _ _ stay f = refl
final_stays _ _ use_reserved f = ground arith
final_stays _ _ use_late f = ground arith
final_stays _ _ free f = ground arith
final_stays _ _ lose f = ground arith
final_stays _ _ give_up f = ground arith
final_stays _ _ charge f = ground arith
final_stays _ _ reschedule f = ground arith
final_stays _ _ estimate f = ground arith
final_stays _ _ forgive_unknown f = ground arith
final_stays _ _ forgive_failed f = ground arith

-- A request that is settled or released stays so, under any sequence of operations from a sound
-- state.
pub Reach-final :
    (db db' : Db) (i : ℕ) (row : Settlement)
    → IsSound db
    → Reach db db'
    → get_elem? db.settlements i ≡ some row
    → IsFinal row.state
    → (row' : Settlement) × (get_elem? db'.settlements i ≡ some row')
      × (row'.request_id ≡ row.request_id)
      × (row'.state ≡ row.state)
Reach-final db db' i row v here e f = (row, e, refl, refl)
Reach-final db db' i row v (next {mid} r s) e f =
    let (a, at, same, final) = Reach-final db mid i row v r e f in
    let (b, bt, m) = Step-Moves mid db' i a (Reach-IsSound db mid v r) s at in
    (
      b,
      bt,
      m.request_kept ∙ same,
      final_stays a.state b.state m.path (subst IsFinal (sym final) f) ∙ final,
    )
