-- ===== src/Settlements/Outcomes.antt =====
-- What a successful reservation and a successful settlement have found and done.
use five_api.Base.{
  ℕ, ◌+◌, ◌≡◌, refl, Bool, true, false, Option, none, some, String, [], ◌∷◌, ◌++◌, arith, ◌==◌, ◌⊎◌,
  ok, inl, inr, Option-cases, update_where,
}
use five_api.Models.{Tenant, ApiKey, Settlement, Quotes, Payload}
use five_api.Redis.{key, tenant}
use five_api.Settlements.Store.{Db, occupied, find_tenant, find_key, find_request}
use five_api.Settlements.Reserve.{reserve, is_over, new_row}
use five_api.Settlements.Apply.{
  Due, charge_due, nothing_due, due, settle, settle_row, charge_key, charge_tenant, to_settled,
}

pub record Admitted (rid : ℕ) (api_key : ApiKey) (amount : ℕ) (quotes : Quotes) (owner now : ℕ)
    (db db' : Db) : Type 0 where
  pub tenant_row : Tenant
  pub key_row : ApiKey
  pub tenant_found : find_tenant api_key.tenant_id db ≡ some tenant_row
  pub key_found : find_key api_key.id db ≡ some key_row
  pub tenant_enabled : tenant_row.is_enabled ≡ true
  pub key_enabled : key_row.is_enabled ≡ true
  pub key_live : key_row.is_revoked ≡ false
  pub tenant_room :
      is_over tenant_row.quota_total tenant_row.quota_used
        (occupied tenant tenant_row.id db.settlements)
        amount
      ≡ false
  pub key_room :
      is_over key_row.quota_total key_row.quota_used (occupied key key_row.id db.settlements) amount
      ≡ false
  pub fresh : find_request rid db ≡ none
  pub result : db' ≡ record db {
    settlements =
        db.settlements
        ++ new_row db.next_id rid tenant_row.id key_row.id amount quotes owner now ∷ [];
    next_id = db.next_id + 1;
  }

pub reserve-Admitted :
    (rid : ℕ) (api_key : ApiKey) (amount : ℕ) (quotes : Quotes) (owner now : ℕ) (db db' : Db)
    → reserve rid api_key amount quotes owner now db ≡ ok db'
    → Admitted rid api_key amount quotes owner now db db'
reserve-Admitted rid api_key amount quotes owner now db db' h =
    elim (Option-cases (find_tenant api_key.tenant_id db)) [
      | inl no_tenant ↦ absurd (unfold reserve in ground arith)
      | inr (t, tf) ↦ elim (Option-cases (find_key api_key.id db)) [
        | inl no_key ↦ absurd (unfold reserve in ground arith)
        | inr (k, kf) ↦
            unfold reserve in
            record {
              tenant_row = t;
              key_row = k;
              tenant_found = tf;
              key_found = kf;
              tenant_enabled = ground arith;
              key_enabled = ground arith;
              key_live = ground arith;
              tenant_room = ground arith;
              key_room = ground arith;
              fresh = ground arith;
              result = ground arith;
            }
      ]
    ]

-- The row that a settlement charged, its owners, and the tables afterwards.
pub record Charged (rid : ℕ) (db db' : Db) : Type 0 where
  pub row : Settlement
  pub tenant_row : Tenant
  pub key_row : ApiKey
  pub cost : ℕ
  pub log : Payload
  pub row_found : find_request rid db ≡ some row
  pub tenant_found : find_tenant row.tenant_id db ≡ some tenant_row
  pub key_found : find_key row.api_key_id db ≡ some key_row
  pub is_due : due row.state row.payload row.cost ≡ charge_due cost log
  pub result : db' ≡ record db {
    keys = update_where (λ k. k.id == key_row.id) (charge_key cost) db.keys;
    tenants = update_where (λ t. t.id == tenant_row.id) (charge_tenant cost) db.tenants;
    logs = db.logs ++ log ∷ [];
    settlements = update_where (λ s. s.id == row.id) to_settled db.settlements;
  }

Due-cases : (d : Due) → (d ≡ nothing_due) ⊎ ((c : ℕ) × (p : Payload) × (d ≡ charge_due c p))
Due-cases nothing_due = inl refl
Due-cases (charge_due c p) = inr (c, p, refl)

-- A call that does not raise has found its row, and settles it.
settle-row :
    (save_error : Payload → Option String) (rid : ℕ) (owners : Option (ℕ × ℕ)) (db : Db)
    (x : Db × Bool)
    → settle save_error rid owners db ≡ ok x
    → (row : Settlement) × (find_request rid db ≡ some row) × (settle_row save_error row db ≡ ok x)
settle-row save_error rid owners db x h = elim (Option-cases (find_request rid db)) [
  | inl missing ↦ absurd (no_row owners missing h)
  | inr (row, found) ↦ (row, found, with_row owners row found h)
]
  where
    no_row :
        (o : Option (ℕ × ℕ)) → find_request rid db ≡ none → settle save_error rid o db ≡ ok x → ⊥
    no_row none e q = unfold settle in ground arith
    no_row (some o) e q = unfold settle in ground arith

    with_row :
        (o : Option (ℕ × ℕ)) (row : Settlement)
        → find_request rid db ≡ some row
        → settle save_error rid o db ≡ ok x
        → settle_row save_error row db ≡ ok x
    with_row none row e q = unfold settle in ground arith
    with_row (some o) row e q = unfold settle in ground arith

settle_row-cases :
    (save_error : Payload → Option String) (rid : ℕ) (row : Settlement) (db db' : Db) (done : Bool)
    → find_request rid db ≡ some row
    → settle_row save_error row db ≡ ok (db', done)
    → ((done ≡ false) × (db' ≡ db)) ⊎ ((done ≡ true) × Charged rid db db')
unfolding settle_row
settle_row-cases save_error rid row db db' done found h =
    elim (Due-cases (due row.state row.payload row.cost)) [
      | inl idle ↦ inl (ground arith, ground arith)
      | inr (cost, log, d) ↦ elim (Option-cases (find_tenant row.tenant_id db)) [
        | inl gone ↦ absurd (ground arith)
        | inr (t, tf) ↦ elim (Option-cases (find_key row.api_key_id db)) [
          | inl gone ↦ absurd (ground arith)
          | inr (k, kf) ↦ elim (Option-cases (save_error log)) [
            | inr (e, raised) ↦ absurd (ground arith)
            | inl saved ↦ inr (
              ground arith,
              record {
                row = row;
                tenant_row = t;
                key_row = k;
                cost = cost;
                log = log;
                row_found = found;
                tenant_found = tf;
                key_found = kf;
                is_due = d;
                result = ground arith;
              },
            )
          ]
        ]
      ]
    ]

pub settle-cases :
    (save_error : Payload → Option String) (rid : ℕ) (owners : Option (ℕ × ℕ)) (db db' : Db)
    (done : Bool)
    → settle save_error rid owners db ≡ ok (db', done)
    → ((done ≡ false) × (db' ≡ db)) ⊎ ((done ≡ true) × Charged rid db db')
settle-cases save_error rid owners db db' done h =
    let (row, found, e) = settle-row save_error rid owners db (db', done) h in
    settle_row-cases save_error rid row db db' done found e
