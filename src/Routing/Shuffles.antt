-- ===== src/Routing/Shuffles.antt =====
-- Ordering the candidates loses none and adds none, and each of them may serve the request.

use five_api.Base.{
  ℕ, suc, zero, ◌+◌, ◌<◌, ◌≡◌, refl, ap, ◌∙◌, Bool, Option, none, some, List, [], ◌∷◌, arith,
  length, count_where, Option-cases, inl, inr, ◌⊎◌,
}
use five_api.Models.{Channel}
use five_api.Routing.Order.{
  ordered_tier, pop_at, reached, pick, shuffle_loop, weighted_shuffle, promote_sticky, index_of,
  insert_by, sort_by,
}

-- Taking an element out leaves the others.
count-pop_at :
    (p : Channel → Bool) (i : ℕ) (xs : List Channel) (x : Channel) (rest : List Channel)
    → pop_at i xs ≡ some (x, rest)
    → (count_where p xs ≡ count_where p (x ∷ rest)) × (length xs ≡ suc (length rest))
unfolding pop_at
count-pop_at p i [] x rest h = cc
count-pop_at p zero (y ∷ xs) x rest h = (ground arith, ground arith)
count-pop_at p (suc i) (y ∷ xs) x rest h = elim (Option-cases (pop_at i xs)) [
  | inl gone ↦ absurd (ground arith)
  | inr ((z, others), found) ↦
      let (same, size) = count-pop_at p i xs z others found in
      (ground (arith, same), ground (arith, size))
]

pop_at-some :
    (i : ℕ) (xs : List Channel)
    → i < length xs
    → (e : Channel × List Channel) × (pop_at i xs ≡ some e)
unfolding pop_at
pop_at-some i [] h = absurd (omega (arith, h))
pop_at-some zero (x ∷ xs) h = ((x, xs), refl)
pop_at-some (suc i) (x ∷ xs) h =
    let (e, found) = pop_at-some i xs (omega (arith, h)) in ((e.0, x ∷ e.1), rw found refl)

reached-bound :
    (drawn cumulative i : ℕ) (chs : List Channel)
    → (reached drawn cumulative i chs ≡ 0) ⊎ (reached drawn cumulative i chs < i + length chs)
unfolding reached
reached-bound drawn cumulative i [] = inl refl
reached-bound drawn cumulative i (ch ∷ chs) =
    ground (arith, reached-bound drawn (cumulative + ch.weight) (i + 1) chs)

module _ (randrange uniform : List Channel → ℕ)
    (in_range : (chs : List Channel) → 0 < length chs → randrange chs < length chs) where
  pick-bound : (chs : List Channel) → 0 < length chs → pick randrange uniform chs < length chs
  pick-bound chs h = ground (arith, in_range chs h, reached-bound (uniform chs) 0 0 chs)

  shuffle_loop-count :
      (p : Channel → Bool) (n : ℕ) (chs : List Channel)
      → length chs ≡ n
      → count_where p (shuffle_loop randrange uniform n chs) ≡ count_where p chs
  unfolding shuffle_loop
  shuffle_loop-count p zero [] h = refl
  shuffle_loop-count p zero (ch ∷ chs) h = absurd (omega (arith, h))
  shuffle_loop-count p (suc n) chs h =
      let (e, found) =
        pop_at-some (pick randrange uniform chs) chs (pick-bound chs (omega (arith, h))) in
      let (same, size) = count-pop_at p (pick randrange uniform chs) chs e.0 e.1 found in
      let rest = shuffle_loop-count p n e.1 (omega (arith, h, size)) in
      let step : shuffle_loop randrange uniform (suc n) chs
          ≡ e.0 ∷ shuffle_loop randrange uniform n e.1 =
        ground (arith, found) in
      ap (count_where p) step ∙ ground (arith, same, rest)

  -- A weighted shuffle loses no channel and adds none: every test passes on as many channels after
  -- it as before.
  pub weighted_shuffle-count :
      (p : Channel → Bool) (chs : List Channel)
      → count_where p (weighted_shuffle randrange uniform chs) ≡ count_where p chs
  unfolding weighted_shuffle
  weighted_shuffle-count p chs = shuffle_loop-count p (length chs) chs refl

  insert_by-count :
      (score : Channel → ℕ) (p : Channel → Bool) (ch : Channel) (chs : List Channel)
      → count_where p (insert_by score ch chs) ≡ count_where p (ch ∷ chs)
  insert_by-count score p ch [] = refl
  insert_by-count score p ch (d ∷ ds) = ground (arith, insert_by-count score p ch ds)

  sort_by-count :
      (score : Channel → ℕ) (p : Channel → Bool) (chs : List Channel)
      → count_where p (sort_by score chs) ≡ count_where p chs
  sort_by-count score p [] = refl
  sort_by-count score p (ch ∷ chs) =
      insert_by-count score p ch (sort_by score chs) ∙ ground (arith, sort_by-count score p chs)

  pub ordered_tier-count :
      (scores : Option (ℕ → ℕ)) (p : Channel → Bool) (chs : List Channel)
      → count_where p (ordered_tier randrange uniform scores chs) ≡ count_where p chs
  unfolding ordered_tier
  ordered_tier-count none p chs = weighted_shuffle-count p chs
  ordered_tier-count (some scores) p chs =
      sort_by-count (λ ch. scores ch.id) p (weighted_shuffle randrange uniform chs)
      ∙ weighted_shuffle-count p chs

  index-bound : (id : ℕ) (chs : List Channel) (i : ℕ) → index_of id chs ≡ some i → i < length chs
  index-bound id [] i h = cc
  index-bound id (ch ∷ chs) i h = elim (Option-cases (index_of id chs)) [
    | inl missing ↦ ground arith
    | inr (j, at) ↦ ground (arith, index-bound id chs j at)
  ]

  -- Moving the sticky channel to the front loses no channel and adds none: every test passes on as
  -- many channels after it as before.
  pub promote_sticky-count :
      (p : Channel → Bool) (chs : List Channel) (id : ℕ)
      → count_where p (promote_sticky chs id) ≡ count_where p chs
  unfolding promote_sticky
  promote_sticky-count p chs id = elim (Option-cases (index_of id chs)) [
    | inl missing ↦ ground (arith, missing)
    | inr (zero, first) ↦ ground (arith, first)
    | inr (suc i, at) ↦ elim (Option-cases (pop_at (suc i) chs)) [
      | inl gone ↦ ground (arith, at, gone)
      | inr ((x, rest), found) ↦ ground (arith, at, found, count-pop_at p (suc i) chs x rest found)
    ]
  ]
