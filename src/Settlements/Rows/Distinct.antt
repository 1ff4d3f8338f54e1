-- ===== src/Settlements/Rows/Distinct.antt =====
-- Tables whose rows have distinct keys.
use mathlib.Core.Path.{subst}
use five_api.Base.{
  ℕ, ◌+◌, ◌<◌, ◌≡◌, refl, ◌≢◌, Bool, some, List, [], ◌∷◌, ◌++◌, arith, ◌==◌, inl, inr, ap, ◌∙◌, sym,
  update_where, count_where, find_first,
}
use five_api.Settlements.Rows.Pairs.{Pointwise}
use five_api.Settlements.Rows.Weights.{
  weigh, All, All-map, table_weight, weight-update_none, found-first,
}

module _ {ℓ} {R : Type ℓ} (key : R → ℕ) where
  -- No two rows have one key.
  abbrev pub AreDistinct : List R → Type 0
  AreDistinct [] = Unit
  AreDistinct (r ∷ rs) = (count_where (λ s. key s == key r) rs ≡ 0) × AreDistinct rs

  find-count :
      (q : R → Bool) (i : ℕ) (rs : List R) (r : R)
      → find_first q rs ≡ some r
      → key r ≡ i
      → count_where (λ s. key s == i) rs ≢ 0
  find-count q i [] r h e = cc
  find-count q i (x ∷ rs) r h e = elim (found-first q x rs r h) [
    | inl same ↦ ground (arith, ap key same)
    | inr later ↦ ground (arith, find-count q i rs r later e)
  ]

  weight-update_head :
      (w : R → ℕ) (f : R → R) (x : R) (rs : List R)
      → count_where (λ s. key s == key x) rs ≡ 0
      → table_weight w (update_where (λ s. key s == key x) f (x ∷ rs)) + w x
        ≡ table_weight w (x ∷ rs) + w (f x)
  unfolding table_weight
  weight-update_head w f x rs h = ground (arith, weight-update_none w (λ s. key s == key x) f rs h)

  -- An update by the key of a row that was found changes that row alone.
  pub weight-update_one :
      (w : R → ℕ) (q : R → Bool) (f : R → R) (rs : List R) (r : R)
      → AreDistinct rs
      → find_first q rs ≡ some r
      → table_weight w (update_where (λ s. key s == key r) f rs) + w r ≡ table_weight w rs + w (f r)
  unfolding table_weight
  weight-update_one w q f [] r d h = cc
  weight-update_one w q f (x ∷ rs) r d h = elim (found-first q x rs r h) [
    | inl same ↦
        subst
          (λ y.
            table_weight w (update_where (λ s. key s == key y) f (x ∷ rs)) + w y
            ≡ table_weight w (x ∷ rs) + w (f y))
          same (weight-update_head w f x rs d.0)
    | inr later ↦
        ground (arith, weight-update_one w q f rs r d.1 later, find-count q (key x) rs r later)
  ]

  -- A key above all others is new.
  count-append :
      (i : ℕ) (rs : List R) (r : R)
      → count_where (λ s. key s == i) (rs ++ r ∷ [])
        ≡ count_where (λ s. key s == i) rs + weigh (key r == i) 1
  count-append i [] r = ground arith
  count-append i (x ∷ rs) r = ground (arith, count-append i rs r)

  pub AreDistinct-append :
      (rs : List R) (r : R)
      → AreDistinct rs
      → All (λ s. key s < key r) rs
      → AreDistinct (rs ++ r ∷ [])
  AreDistinct-append [] r d a = (refl, tt)
  AreDistinct-append (x ∷ rs) r d a =
      (ground (arith, count-append (key x) rs r, d.0), AreDistinct-append rs r d.1 a.1)

  absent-differs :
      (i : ℕ) (rs : List R) → count_where (λ s. key s == i) rs ≡ 0 → All (λ s. key s ≢ i) rs
  absent-differs i [] h = tt
  absent-differs i (x ∷ rs) h = (λ e. ground arith, absent-differs i rs (ground arith))

  -- Where keys are distinct, a row with the key of a row that was found is that row.
  pub only-found :
      (q : R → Bool) (rs : List R) (r : R)
      → AreDistinct rs
      → find_first q rs ≡ some r
      → All (λ s. key s ≡ key r → s ≡ r) rs
  only-found q [] r d h = tt
  only-found q (x ∷ rs) r d h = elim (found-first q x rs r h) [
    | inl same ↦ (
      λ _. same,
      All-map (λ s. key s ≢ key x) (λ s. key s ≡ key r → s ≡ r) rs
          (λ s ne e. absurd (ne (e ∙ ap key (sym same)))) (absent-differs (key x) rs d.0),
    )
    | inr later ↦
        (λ e. absurd (find-count q (key x) rs r later (sym e) d.0), only-found q rs r d.1 later)
  ]

  count-Pointwise :
      (i : ℕ) (P : R → R → Type 0) (rs ss : List R)
      → ((r s : R) → P r s → key s ≡ key r)
      → Pointwise P rs ss
      → count_where (λ s. key s == i) ss ≡ count_where (λ s. key s == i) rs
  count-Pointwise i P [] [] f h = refl
  count-Pointwise i P [] (s ∷ ss) f h = elim h [ ]
  count-Pointwise i P (r ∷ rs) [] f h = elim h [ ]
  count-Pointwise i P (r ∷ rs) (s ∷ ss) f h =
      ground (arith, f r s h.0, count-Pointwise i P rs ss f h.1)

  pub AreDistinct-Pointwise :
      (P : R → R → Type 0) (rs ss : List R)
      → ((r s : R) → P r s → key s ≡ key r)
      → Pointwise P rs ss
      → AreDistinct rs
      → AreDistinct ss
  AreDistinct-Pointwise P [] [] f h d = tt
  AreDistinct-Pointwise P [] (s ∷ ss) f h d = elim h [ ]
  AreDistinct-Pointwise P (r ∷ rs) [] f h d = elim h [ ]
  AreDistinct-Pointwise P (r ∷ rs) (s ∷ ss) f h d = (
    count-Pointwise (key s) P rs ss f h.1
        ∙ ap (λ i. count_where (λ t. key t == i) rs) (f r s h.0)
        ∙ d.0,
    AreDistinct-Pointwise P rs ss f h.1 d.1,
  )
