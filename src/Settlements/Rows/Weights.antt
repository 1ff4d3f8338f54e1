-- ===== src/Settlements/Rows/Weights.antt =====
-- Sums and predicates over a table, under the updates of the rows that a filter selects.
use mathlib.Core.Path.{subst}
use five_api.Base.{
  ℕ, ◌+◌, ◌≤◌, ◌≡◌, refl, Bool, true, false, some, List, [], ◌∷◌, ◌++◌, arith, if◌then◌else◌,
  Bool-cases, inl, inr, ◌⊎◌, update_where, count_where, sum_where, find_first,
}

abbrev pub weigh : Bool → ℕ → ℕ
weigh true n = n
weigh false n = 0

module _ {ℓ} {R : Type ℓ} where
  abbrev pub All {κ} : (R → Type κ) → List R → Type κ
  All P [] = Unit
  All P (r ∷ rs) = P r × All P rs

  -- The weight of a table is the sum of its rows' weights.
  unfoldable pub table_weight : (R → ℕ) → List R → ℕ
  table_weight w [] = 0
  table_weight w (r ∷ rs) = w r + table_weight w rs

  pub sum_where-weight :
      (p : R → Bool) (g : R → ℕ) (rs : List R)
      → sum_where p g rs ≡ table_weight (λ r. weigh (p r) (g r)) rs
  unfolding table_weight
  sum_where-weight p g [] = refl
  sum_where-weight p g (r ∷ rs) = ground (arith, sum_where-weight p g rs)

  pub weight-append :
      (w : R → ℕ) (rs : List R) (r : R) → table_weight w (rs ++ r ∷ []) ≡ table_weight w rs + w r
  unfolding table_weight
  weight-append w [] r = omega arith
  weight-append w (x ∷ rs) r = omega (arith, weight-append w rs r)

  -- An update that keeps the weight of each row that it changes keeps that of the table.
  pub weight-update_same :
      (w : R → ℕ) (p : R → Bool) (f : R → R) (rs : List R)
      → ((r : R) → p r ≡ true → w (f r) ≡ w r)
      → table_weight w (update_where p f rs) ≡ table_weight w rs
  unfolding table_weight
  weight-update_same w p f [] h = refl
  weight-update_same w p f (r ∷ rs) h = ground (arith, h r, weight-update_same w p f rs h)

  pub weight-update_le :
      (w : R → ℕ) (p : R → Bool) (f : R → R) (rs : List R)
      → ((r : R) → p r ≡ true → w (f r) ≤ w r)
      → table_weight w (update_where p f rs) ≤ table_weight w rs
  unfolding table_weight
  weight-update_le w p f [] h = omega arith
  weight-update_le w p f (r ∷ rs) h = ground (arith, h r, weight-update_le w p f rs h)

  pub weight-update_none :
      (w : R → ℕ) (p : R → Bool) (f : R → R) (rs : List R)
      → count_where p rs ≡ 0
      → table_weight w (update_where p f rs) ≡ table_weight w rs
  unfolding table_weight
  weight-update_none w p f [] h = refl
  weight-update_none w p f (r ∷ rs) h = ground (arith, weight-update_none w p f rs)

  update-row {κ} :
      (P : R → Type κ) (b : Bool) (f : R → R) (r : R)
      → (b ≡ true → P r → P (f r))
      → P r
      → P (if b then f r else r)
  update-row P true f r h a = h refl a
  update-row P false f r h a = a

  pub found-first :
      (q : R → Bool) (x : R) (rs : List R) (r : R)
      → find_first q (x ∷ rs) ≡ some r
      → (x ≡ r) ⊎ (find_first q rs ≡ some r)
  found-first q x rs r h = elim (Bool-cases (q x)) [
    | inl t ↦ inl (ground arith)
    | inr t ↦ inr (ground arith)
  ]

  pub All-update {κ} :
      (P : R → Type κ) (p : R → Bool) (f : R → R) (rs : List R)
      → ((r : R) → p r ≡ true → P r → P (f r))
      → All P rs
      → All P (update_where p f rs)
  All-update P p f [] h a = tt
  All-update P p f (r ∷ rs) h a = (update-row P (p r) f r (h r) a.0, All-update P p f rs h a.1)

  pub All-append {κ} :
      (P : R → Type κ) (rs : List R) (r : R) → All P rs → P r → All P (rs ++ r ∷ [])
  All-append P [] r a h = (h, tt)
  All-append P (x ∷ rs) r a h = (a.0, All-append P rs r a.1 h)

  pub All-find {κ} :
      (P : R → Type κ) (p : R → Bool) (rs : List R) (r : R)
      → All P rs
      → find_first p rs ≡ some r
      → P r
  All-find P p [] r a h = cc
  All-find P p (x ∷ rs) r a h = elim (found-first p x rs r h) [
    | inl e ↦ subst P e a.0
    | inr later ↦ All-find P p rs r a.1 later
  ]

  pub All-map {κ ι} :
      (P : R → Type κ) (Q : R → Type ι) (rs : List R) → ((r : R) → P r → Q r) → All P rs → All Q rs
  All-map P Q [] f a = tt
  All-map P Q (r ∷ rs) f a = (f r a.0, All-map P Q rs f a.1)

  pub All-every {κ} : (P : R → Type κ) (rs : List R) → ((r : R) → P r) → All P rs
  All-every P [] f = tt
  All-every P (r ∷ rs) f = (f r, All-every P rs f)
