-- ===== src/Settlements/Rows/Pairs.antt =====
-- Two states of a table, compared row by row.
use mathlib.Core.Path.{subst}
use five_api.Base.{
  get_elem?, ℕ, zero, suc, ◌≤◌, ◌≡◌, refl, Bool, true, false, some, List, [], ◌∷◌, ◌++◌, arith,
  if◌then◌else◌, update_where,
}
use five_api.Settlements.Rows.Weights.{All, table_weight}

module _ {ℓ} {R : Type ℓ} where
  -- Two tables of one length, row by row.
  abbrev pub Pointwise : (R → R → Type 0) → List R → List R → Type 0
  Pointwise P [] [] = Unit
  Pointwise P [] (s ∷ ss) = ⊥
  Pointwise P (r ∷ rs) [] = ⊥
  Pointwise P (r ∷ rs) (s ∷ ss) = P r s × Pointwise P rs ss

  update-row_rel :
      (P : R → R → Type 0) (b : Bool) (f : R → R) (r : R)
      → P r r
      → (b ≡ true → P r (f r))
      → P r (if b then f r else r)
  update-row_rel P true f r same h = h refl
  update-row_rel P false f r same h = same

  pub Pointwise-update :
      (P : R → R → Type 0) (p : R → Bool) (f : R → R) (rs : List R)
      → ((r : R) → P r r)
      → All (λ r. p r ≡ true → P r (f r)) rs
      → Pointwise P rs (update_where p f rs)
  Pointwise-update P p f [] same h = tt
  Pointwise-update P p f (r ∷ rs) same h =
      (update-row_rel P (p r) f r (same r) h.0, Pointwise-update P p f rs same h.1)

  pub Pointwise-trans :
      (P : R → R → Type 0)
      → ((a b c : R) → P a b → P b c → P a c)
      → (rs ss ts : List R) → Pointwise P rs ss
      → Pointwise P ss ts
      → Pointwise P rs ts
  Pointwise-trans P t [] [] [] h k = tt
  Pointwise-trans P t [] [] (c ∷ ts) h k = elim k [ ]
  Pointwise-trans P t [] (b ∷ ss) ts h k = elim h [ ]
  Pointwise-trans P t (a ∷ rs) [] ts h k = elim h [ ]
  Pointwise-trans P t (a ∷ rs) (b ∷ ss) [] h k = elim k [ ]
  Pointwise-trans P t (a ∷ rs) (b ∷ ss) (c ∷ ts) h k =
      (t a b c h.0 k.0, Pointwise-trans P t rs ss ts h.1 k.1)

  pub weight-Pointwise :
      (P : R → R → Type 0) (w : R → ℕ)
      → ((r s : R) → P r s → w s ≡ w r)
      → (rs ss : List R) → Pointwise P rs ss
      → table_weight w ss ≡ table_weight w rs
  unfolding table_weight
  weight-Pointwise P w e [] [] h = refl
  weight-Pointwise P w e [] (s ∷ ss) h = elim h [ ]
  weight-Pointwise P w e (r ∷ rs) [] h = elim h [ ]
  weight-Pointwise P w e (r ∷ rs) (s ∷ ss) h =
      omega (arith, e r s h.0, weight-Pointwise P w e rs ss h.1)

  pub weight-Pointwise_le :
      (P : R → R → Type 0) (w : R → ℕ)
      → ((r s : R) → P r s → w s ≤ w r)
      → (rs ss : List R) → Pointwise P rs ss
      → table_weight w ss ≤ table_weight w rs
  unfolding table_weight
  weight-Pointwise_le P w e [] [] h = omega arith
  weight-Pointwise_le P w e [] (s ∷ ss) h = elim h [ ]
  weight-Pointwise_le P w e (r ∷ rs) [] h = elim h [ ]
  weight-Pointwise_le P w e (r ∷ rs) (s ∷ ss) h =
      omega (arith, e r s h.0, weight-Pointwise_le P w e rs ss h.1)

  -- A row that was there is there afterwards, related.
  pub Pointwise-get :
      (P : R → R → Type 0) (rs ss : List R) (i : ℕ) (r : R)
      → Pointwise P rs ss
      → get_elem? rs i ≡ some r
      → (s : R) × (get_elem? ss i ≡ some s) × P r s
  Pointwise-get P [] ss i r h e = cc
  Pointwise-get P (a ∷ rs) [] i r h e = elim h [ ]
  Pointwise-get P (a ∷ rs) (b ∷ ss) zero r h e = (b, refl, subst (λ x. P x b) (cc) h.0)
  Pointwise-get P (a ∷ rs) (b ∷ ss) (suc i) r h e = Pointwise-get P rs ss i r h.1 e

  pub get-append :
      (rs : List R) (x : R) (i : ℕ) (r : R)
      → get_elem? rs i ≡ some r
      → get_elem? (rs ++ x ∷ []) i ≡ some r
  get-append [] x i r e = cc
  get-append (a ∷ rs) x zero r e = e
  get-append (a ∷ rs) x (suc i) r e = get-append rs x i r e

  -- A property of the first table's rows, carried over.
  pub All-Pointwise :
      (P : R → R → Type 0) (Q Q' : R → Type 0) (rs ss : List R)
      → ((r s : R) → P r s → Q r → Q' s)
      → Pointwise P rs ss
      → All Q rs
      → All Q' ss
  All-Pointwise P Q Q' [] [] f h a = tt
  All-Pointwise P Q Q' [] (s ∷ ss) f h a = elim h [ ]
  All-Pointwise P Q Q' (r ∷ rs) [] f h a = elim h [ ]
  All-Pointwise P Q Q' (r ∷ rs) (s ∷ ss) f h a =
      (f r s h.0 a.0, All-Pointwise P Q Q' rs ss f h.1 a.1)

  pub Pointwise-map :
      (P Q : R → R → Type 0) (rs ss : List R)
      → ((r s : R) → P r s → Q r s)
      → Pointwise P rs ss
      → Pointwise Q rs ss
  Pointwise-map P Q [] [] f h = tt
  Pointwise-map P Q [] (s ∷ ss) f h = elim h [ ]
  Pointwise-map P Q (r ∷ rs) [] f h = elim h [ ]
  Pointwise-map P Q (r ∷ rs) (s ∷ ss) f h = (f r s h.0, Pointwise-map P Q rs ss f h.1)
