-- ===== src/Settlements/Accounts.antt =====
-- An owner's account: what it has spent, what it is charged for, and what it may yet spend.
use mathlib.Core.Option
use mathlib.Core.Path.{subst}
use five_api.Base.{
  sym, ◌∙◌, ℕ, ◌+◌, ◌≡◌, refl, true, false, ◌&&◌, Option, none, some, List, [], ◌∷◌, arith, ◌==◌,
  Bool-cases, inl, inr, find_first, update_where, sum_where, ap,
}
use five_api.Base.Int.{ℤ}
use five_api.Models.{Tenant, ApiKey}
use five_api.Redis.{Scope, key, tenant}
use five_api.Settlements.Store.{Db, is_settled, owner_of, occupied}
use five_api.Settlements.Rows.{weigh}

module _ {R : Type 0} where
  abbrev pub used_at : (R → ℕ) → (R → ℕ) → ℕ → List R → ℕ
  used_at id used o rs = elim (find_first (λ r. id r == o) rs) [ none ↦ 0 | some r ↦ used r ]

  abbrev pub quota_at : (R → ℕ) → (R → ℤ) → ℕ → List R → Option ℤ
  quota_at id quota o rs = elim (find_first (λ r. id r == o) rs) [
    | none ↦ none
    | some r ↦ some (quota r)
  ]

-- The quota that an owner has used, as its row says.
unfoldable pub spent : Scope → ℕ → Db → ℕ
spent tenant o db = used_at (λ (t : Tenant). t.id) (λ t. t.quota_used) o db.tenants
spent key o db = used_at (λ (k : ApiKey). k.id) (λ k. k.quota_used) o db.keys

unfoldable pub quota_of : Scope → ℕ → Db → Option ℤ
quota_of tenant o db = quota_at (λ (t : Tenant). t.id) (λ t. t.quota_total) o db.tenants
quota_of key o db = quota_at (λ (k : ApiKey). k.id) (λ k. k.quota_total) o db.keys

pub spent_same :
    (scope : Scope) (o : ℕ) (db db' : Db)
    → db'.tenants ≡ db.tenants
    → db'.keys ≡ db.keys
    → spent scope o db' ≡ spent scope o db
unfolding spent
spent_same tenant o db db' ts ks = ap (used_at (λ (t : Tenant). t.id) (λ t. t.quota_used) o) ts
spent_same key o db db' ts ks = ap (used_at (λ (k : ApiKey). k.id) (λ k. k.quota_used) o) ks

pub quota_of_same :
    (scope : Scope) (o : ℕ) (db db' : Db)
    → db'.tenants ≡ db.tenants
    → db'.keys ≡ db.keys
    → quota_of scope o db' ≡ quota_of scope o db
unfolding quota_of
quota_of_same tenant o db db' ts ks = ap (quota_at (λ (t : Tenant). t.id) (λ t. t.quota_total) o) ts
quota_of_same key o db db' ts ks = ap (quota_at (λ (k : ApiKey). k.id) (λ k. k.quota_total) o) ks

-- The costs of an owner's settled requests.
unfoldable pub charged_total : Scope → ℕ → Db → ℕ
charged_total scope o db =
    sum_where (λ s. (owner_of scope s == o) && is_settled s.state) (λ s. Option.get_or s.cost 0)
      db.settlements

-- What is spent, and what reservations may still spend.
unfoldable pub exposure : Scope → ℕ → Db → ℕ
exposure scope o db = spent scope o db + occupied scope o db.settlements

module _ {R : Type 0} (id used : R → ℕ) (quota : R → ℤ) (f : R → R) (cost : ℕ)
    (id_kept : (r : R) → id (f r) ≡ id r) (used_more : (r : R) → used (f r) ≡ used r + cost)
    (quota_kept : (r : R) → quota (f r) ≡ quota r) where
  pub quota_at-update :
      (k o : ℕ) (rs : List R)
      → quota_at id quota o (update_where (λ r. id r == k) f rs) ≡ quota_at id quota o rs
  quota_at-update k o [] = refl
  quota_at-update k o (r ∷ rs) = ground (arith, id_kept r, quota_kept r, quota_at-update k o rs)

  used_at-update_other :
      (k o : ℕ) (rs : List R)
      → (k == o) ≡ false
      → used_at id used o (update_where (λ r. id r == k) f rs) ≡ used_at id used o rs
  used_at-update_other k o [] h = refl
  used_at-update_other k o (r ∷ rs) h = ground (arith, id_kept r, used_at-update_other k o rs h)

  -- Charging the row of one id adds to what that id has used, and to nothing else.
  pub used_at-update :
      (k o : ℕ) (rs : List R) (x : R)
      → find_first (λ r. id r == k) rs ≡ some x
      → used_at id used o (update_where (λ r. id r == k) f rs)
        ≡ used_at id used o rs + weigh (k == o) cost
  used_at-update k o [] x h = ground arith
  used_at-update k o (r ∷ rs) x h = elim (Bool-cases (k == o)) [
    | inr other ↦ rw (used_at-update_other k o (r ∷ rs) other, other) (omega arith)
    | inl same ↦ ground (arith, id_kept r, used_more r, used_at-update k o rs x)
  ]

pub found-id :
    {R : Type 0} (id : R → ℕ) (k : ℕ) (rs : List R) (x : R)
    → find_first (λ r. id r == k) rs ≡ some x
    → id x ≡ k
found-id id k [] x h = cc
found-id id k (r ∷ rs) x h = elim (Bool-cases (id r == k)) [
  | inl same ↦ ground (arith, ap id (head_found same))
  | inr other ↦ found-id id k rs x (ground arith)
]
  where
    head_found : (id r == k) ≡ true → r ≡ x
    head_found t = ground arith

-- The account of a row that was found by its id.
pub found_account :
    {R : Type 0} (id used : R → ℕ) (quota : R → ℤ) (j o : ℕ) (rs : List R) (x : R)
    → find_first (λ r. id r == j) rs ≡ some x
    → (id x == o) ≡ true
    → (used_at id used o rs ≡ used x) × (quota_at id quota o rs ≡ some (quota x))
found_account id used quota j o rs x found same =
    let e : j ≡ o = sym (found-id id j rs x found) ∙ ground arith in
    subst (λ i. (used_at id used i rs ≡ used x) × (quota_at id quota i rs ≡ some (quota x))) e
      (rw (used_at, found) refl, rw (quota_at, found) refl)
