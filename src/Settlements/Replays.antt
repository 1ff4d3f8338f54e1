-- ===== src/Settlements/Replays.antt =====
-- What a second run changes: a settled request is not charged again, and windows are counted once.

use mathlib.Core.Path.{subst}
use five_api.Base.{
  ℕ, ◌/◌, ◌≡◌, refl, ap, sym, Bool, true, false, Option, none, some, String, List, [], ◌∷◌, arith,
  ◌==◌, ok, inl, inr, Bool-cases, find_first, update_where,
}
use five_api.Base.Int.{pos, ◌+ℤ◌}
use five_api.Models.{Payload}
use five_api.Redis.{Redis, RedisKey, key, tenant, spend, or_zero, is_present}
use five_api.Settlements.Store.{Db, find_request}
use five_api.Settlements.Apply.{settle, settle_row, to_settled, record_settlement_spend}
use five_api.Settlements.Outcomes.{Charged, settle-cases}

-- A row that is found and updated is found again.
found-update :
    {R : Type 0} (q p : R → Bool) (f : R → R) (rs : List R) (r : R)
    → ((x : R) → q (f x) ≡ q x)
    → find_first q rs ≡ some r
    → p r ≡ true
    → find_first q (update_where p f rs) ≡ some (f r)
found-update q p f [] r same h t = cc
found-update q p f (x ∷ rs) r same h t = ground (arith, same x, found-update q p f rs r same)

Charged-find :
    (rid : ℕ) (db db' : Db) (c : Charged rid db db')
    → find_request rid db' ≡ some (to_settled c.row)
Charged-find rid db db' c =
    subst (λ rows. find_first (λ s. s.request_id == rid) rows ≡ some (to_settled c.row))
      (sym (ap (λ (d : Db). d.settlements) c.result))
      (found-update (λ s. s.request_id == rid) (λ s. s.id == c.row.id) to_settled db.settlements
        c.row (λ x. refl) c.row_found (ground arith))

settle_again :
    (save_error save_error' : Payload → Option String) (rid : ℕ) (owners : Option (ℕ × ℕ))
    (db db' : Db) (x : Db × Bool) (c : Charged rid db db')
    → settle save_error rid owners db ≡ ok x
    → settle save_error' rid owners db' ≡ ok (db', false)
unfolding settle settle_row
settle_again save_error save_error' rid none db db' x c h =
    ground (arith, Charged-find rid db db' c)
settle_again save_error save_error' rid (some o) db db' x c h =
    ground (arith, Charged-find rid db db' c, c.row_found)

-- A request that was charged is not charged again: a second call, whatever happens to its log,
-- returns the same tables and says that it charged nothing.
pub settle-once :
    (save_error save_error' : Payload → Option String) (rid : ℕ) (owners : Option (ℕ × ℕ))
    (db db' : Db)
    → settle save_error rid owners db ≡ ok (db', true)
    → settle save_error' rid owners db' ≡ ok (db', false)
settle-once save_error save_error' rid owners db db' h =
    elim (settle-cases save_error rid owners db db' true h) [
      | inl (idle, same) ↦ absurd (ground arith)
      | inr (did, c) ↦ settle_again save_error save_error' rid owners db db' (db', true) c h
    ]

self_same : (n : ℕ) → (n == n) ≡ true
self_same n = ground arith

module _ (r : Redis) where
  open r use {Store, get, set, incrby, get-set, get-incrby}

  -- Recording the spend of a settlement twice leaves Redis as recording it once.
  pub record_settlement_spend-once :
      (rid key_id tenant_id cost created_at : ℕ) (s : Store)
      → let record_it = record_settlement_spend r rid key_id tenant_id cost created_at in
        record_it (record_it s) ≡ record_it s
  unfolding record_settlement_spend
  record_settlement_spend-once rid key_id tenant_id cost created_at s =
      elim (Bool-cases (is_present (get (RedisKey.settled rid) s))) [
        | inl before ↦ rw (before, before) refl
        | inr first ↦ simp (first, get-incrby, get-set, self_same rid) refl
      ]

  -- The first recording of a settlement adds its cost to the hourly counters of its key and of its
  -- tenant.
  pub record_settlement_spend-adds :
      (rid key_id tenant_id cost created_at : ℕ) (s : Store)
      → get (RedisKey.settled rid) s ≡ none
      → let s' = record_settlement_spend r rid key_id tenant_id cost created_at s in
        let hour = created_at / 3600 in
        (get (spend key key_id hour) s'
          ≡ some (or_zero (get (spend key key_id hour) s) +ℤ pos cost))
        × (get (spend tenant tenant_id hour) s'
            ≡ some (or_zero (get (spend tenant tenant_id hour) s) +ℤ pos cost))
  unfolding record_settlement_spend
  record_settlement_spend-adds rid key_id tenant_id cost created_at s h = (
    simp (h, get-incrby, get-set, self_same key_id, self_same (created_at / 3600)) refl,
    simp (h, get-incrby, get-set, self_same tenant_id, self_same (created_at / 3600)) refl,
  )
