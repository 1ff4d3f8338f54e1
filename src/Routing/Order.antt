-- ===== src/Routing/Order.antt =====
-- The candidate channels of a request and their order: backend/app/providers/registry.py.

use five_api.Base.{
  ℕ, suc, zero, ◌+◌, Bool, true, false, ◌&&◌, ◌||◌, Option, none, some, String, List, [], ◌∷◌, ◌++◌,
  str_eq, ltb, leb, ◌==◌, if◌then◌else◌, length, keep_if, Result, ok, err, sum_where,
}
use five_api.Models.{Channel}

abbrev pub among : String → List String → Bool
among name [] = false
among name (n ∷ ns) = str_eq n name || among name ns

abbrev pub listed : ℕ → List ℕ → Bool
listed i [] = false
listed i (j ∷ js) = (j == i) || listed i js

-- `list.pop(i)`; `none` is an IndexError.
unfoldable pub pop_at : {A : Type 0} → ℕ → List A → Option (A × List A)
pop_at i [] = none
pop_at zero (x ∷ xs) = some (x, xs)
pop_at (suc i) (x ∷ xs) = elim (pop_at i xs) [ none ↦ none | some e ↦ some (e.0, x ∷ e.1) ]

-- The first index at which the cumulative weight reaches the draw, and otherwise 0.
unfoldable pub reached : ℕ → ℕ → ℕ → List Channel → ℕ
reached drawn cumulative i [] = 0
reached drawn cumulative i (ch ∷ chs) =
    let later = reached drawn (cumulative + ch.weight) (i + 1) chs in
    if leb drawn (cumulative + ch.weight) then i else later

-- The exceptions of resolve_candidates.
pub data NoChannel : Type 0 where
  model_not_found unsupported_provider : NoChannel

abbrev pub insert_by : (Channel → ℕ) → Channel → List Channel → List Channel
insert_by score ch [] = ch ∷ []
insert_by score ch (d ∷ ds) =
    if leb (score ch) (score d) then ch ∷ d ∷ ds else d ∷ insert_by score ch ds

-- `list.sort(key=...)`, which is stable.
abbrev pub sort_by : (Channel → ℕ) → List Channel → List Channel
sort_by score [] = []
sort_by score (ch ∷ chs) = insert_by score ch (sort_by score chs)

-- `sorted(tiers.keys(), reverse=True)`
abbrev pub insert_priority : ℕ → List ℕ → List ℕ
insert_priority p [] = p ∷ []
insert_priority p (q ∷ qs) =
    if p == q then q ∷ qs else if ltb q p then p ∷ q ∷ qs else q ∷ insert_priority p qs

abbrev pub priorities : List Channel → List ℕ
priorities [] = []
priorities (ch ∷ chs) = insert_priority ch.priority (priorities chs)

-- PROVIDER_MAP's keys.
abbrev pub is_supported : Channel → Bool
is_supported ch = str_eq ch.provider "openai" || str_eq ch.provider "anthropic"

-- `next((i for i, (ch, _) in enumerate(result) if ch.id == channel_id), None)`
abbrev pub index_of : ℕ → List Channel → Option ℕ
index_of id [] = none
index_of id (ch ∷ chs) =
    let later = index_of id chs in
    if ch.id == id then some 0 else elim later [ none ↦ none | some i ↦ some (suc i) ]

unfoldable pub promote_sticky : List Channel → ℕ → List Channel
unfolding pop_at
promote_sticky result id = elim (index_of id result) [
  | none ↦ result
  | some zero ↦ result
  | some (suc i) ↦ elim (pop_at (suc i) result) [ none ↦ result | some e ↦ e.0 ∷ e.1 ]
]

-- `max(candidates, key=...)`: the first of the greatest by priority and then weight.
abbrev pub outranks : Channel → Channel → Bool
outranks a b = ltb b.priority a.priority || ((a.priority == b.priority) && ltb b.weight a.weight)

abbrev pub best : Channel → List Channel → Channel
best ch [] = ch
best ch (d ∷ ds) = best (if outranks d ch then d else ch) ds

abbrev pub or_best : Channel → List Channel → List Channel → List Channel
or_best ch chs [] = best ch chs ∷ []
or_best ch chs (d ∷ ds) = d ∷ ds

-- The healthy ones, or the best one where the breakers of all are open.
unfoldable pub half_open : (ℕ → Bool) → List Channel → List Channel
half_open healthy [] = []
half_open healthy (ch ∷ chs) = or_best ch chs (keep_if (λ c. healthy c.id) (ch ∷ chs))

-- The channels that may serve the model, by the key's selection and the protocol.
abbrev pub may_serve : String → Option String → List ℕ → Channel → Bool
may_serve model protocol ids ch =
    elim ids [ [] ↦ true | i ∷ is ↦ listed ch.id (i ∷ is) ]
    && among model ch.models
    && elim protocol [ none ↦ true | some p ↦ str_eq ch.provider p ]

abbrev pub with_sticky : Option ℕ → List Channel → List Channel
with_sticky none result = result
with_sticky (some id) result = promote_sticky result id

abbrev pub routed : Option ℕ → List Channel → Result NoChannel (List Channel)
routed sticky [] = err unsupported_provider
routed sticky (ch ∷ chs) = ok (with_sticky sticky (ch ∷ chs))

-- Python's generator, by the channels that are left when it is called: `randrange` draws an index of
-- them, and `uniform` a number up to their total weight, rounded up, which compares with whole weights
-- as the number itself does.
module _ (randrange uniform : List Channel → ℕ) where
  abbrev pub pick : List Channel → ℕ
  pick chs =
      let total = sum_where (λ ch. true) (λ (ch : Channel). ch.weight) chs in
      if total == 0 then randrange chs else reached (uniform chs) 0 0 chs

  -- The loop, as many times as there are channels.
  unfoldable pub shuffle_loop : ℕ → List Channel → List Channel
  unfolding pop_at reached
  shuffle_loop zero chs = []
  shuffle_loop (suc n) chs = elim (pop_at (pick chs) chs) [
    | none ↦ []
    | some e ↦ e.0 ∷ shuffle_loop n e.1
  ]

  unfoldable pub weighted_shuffle : List Channel → List Channel
  unfolding shuffle_loop
  weighted_shuffle chs = shuffle_loop (length chs) chs

  -- The channels of one priority; `scores` is empty for the weighted strategy. Scores are only
  -- compared, so that numbers stand for the source's floats.
  unfoldable pub ordered_tier : Option (ℕ → ℕ) → List Channel → List Channel
  unfolding weighted_shuffle
  ordered_tier none chs = weighted_shuffle chs
  ordered_tier (some scores) chs = sort_by (λ ch. scores ch.id) (weighted_shuffle chs)

  unfoldable pub ordered_tiers : Option (ℕ → ℕ) → List ℕ → List Channel → List Channel
  unfolding ordered_tier
  ordered_tiers scores [] chs = []
  ordered_tiers scores (p ∷ ps) chs =
      ordered_tier scores (keep_if (λ ch. ch.priority == p) chs) ++ ordered_tiers scores ps chs

  -- The order of the channels that were found; a single one needs no scores.
  unfoldable pub in_order :
      Option (ℕ → ℕ) → Option ℕ → List Channel → Result NoChannel (List Channel)
  unfolding ordered_tiers promote_sticky
  in_order scores sticky [] = err model_not_found
  in_order scores sticky (ch ∷ chs) = routed sticky (
      keep_if is_supported (
        ordered_tiers (if ltb 1 (length (ch ∷ chs)) then scores else none) (priorities (ch ∷ chs))
          (ch ∷ chs)))

  -- `channels` are the enabled ones; `protocol` is none, `openai` or `anthropic`.
  unfoldable pub resolve_candidates :
      (ℕ → Bool)
      → Option (ℕ → ℕ)
      → List Channel
      → String
      → Option String
      → Option ℕ
      → List ℕ
      → Result NoChannel (List Channel)
  unfolding half_open in_order
  resolve_candidates healthy scores channels model protocol sticky ids =
      in_order scores sticky (half_open healthy (keep_if (may_serve model protocol ids) channels))
