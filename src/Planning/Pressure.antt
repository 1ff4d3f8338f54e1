-- ===== src/Planning/Pressure.antt =====
-- The pressure on the budgets of a key, and what it decides.

use native.Mathlib.Nat.{mul-le-mul_left, le_of_mul-le-mul_right}
use five_api.Base.{
  ℕ, suc, zero, ◌*◌, ◌≤◌, ◌<◌, ◌≡◌, refl, sym, ap, ◌∙◌, String, Bool, true, false, ◌||◌, Option,
  List, [], ◌∷◌, arith, if◌then◌else◌, if_both, Bool-cases, inl, inr,
}
use five_api.Models.{ApiKey, Tenant, WindowLimits}
use five_api.Redis.{Redis}
use five_api.Settlements.Store.{Db}
use five_api.Settings.{BudgetDowngrade}
use five_api.Planning.Budgets.{
  BudgetUsage, Share, share, is_below, highest, pressure_of, reaches, budget_usages,
  budget_pressure, usable, under_pressure, rule_for, downgrade_target,
}

-- Some budget has reached the threshold.
abbrev pub some_reaches : ℕ → List BudgetUsage → Bool
some_reaches threshold [] = false
some_reaches threshold (u ∷ us) = reaches threshold (share u) || some_reaches threshold us

reaches-le : (t : ℕ) (a : Share) → reaches t a ≡ true → t * a.whole ≤ 100 * a.part
reaches-le t a h = ground (arith, h)

le-reaches : (t : ℕ) (a : Share) → t * a.whole ≤ 100 * a.part → reaches t a ≡ true
le-reaches t a h = ground (arith, h)

cross : (t p w q v : ℕ) → 0 < v → q * w ≤ p * v → t * v ≤ 100 * q → t * w ≤ 100 * p
cross t p w q v h below k =
    let scaled : w * (t * v) ≤ w * (100 * q) = mul-le-mul_left w k in
    let crossed : 100 * (q * w) ≤ 100 * (p * v) = mul-le-mul_left 100 below in
    le_of_mul-le-mul_right {k = v} (grind (arith, scaled, crossed)) h

-- The greater of two shares reaches what the other does.
reaches-greater :
    (t : ℕ) (a b : Share)
    → 0 < b.whole
    → b.part * a.whole ≤ a.part * b.whole
    → (reaches t a || reaches t b) ≡ reaches t a
reaches-greater t a b h below = elim (Bool-cases (reaches t b)) [
  | inl there ↦
      let here =
        le-reaches t a (cross t a.part a.whole b.part b.whole h below (reaches-le t b there)) in
      ground (arith, here, there)
  | inr lost ↦ ground (arith, lost)
]

or_swap : (a b : Bool) → (a || b) ≡ (b || a)
or_swap a b = ground arith

or_assoc : (a b c : Bool) → ((a || b) || c) ≡ (a || (b || c))
or_assoc a b c = ground arith

reaches-max :
    (t : ℕ) (a b : Share)
    → 0 < a.whole
    → 0 < b.whole
    → reaches t (if is_below a b then b else a) ≡ (reaches t a || reaches t b)
reaches-max t a b ha hb = elim (Bool-cases (is_below a b)) [
  | inl below ↦
      rw below (
        sym
          (or_swap (reaches t a) (reaches t b) ∙ reaches-greater t b a ha (ground (arith, below))))
  | inr above ↦ rw above (sym (reaches-greater t a b hb (ground (arith, above))))
]

limit-whole : (u : BudgetUsage) (n : ℕ) → u.limit ≡ n → 0 < (share u).whole
limit-whole u zero h = rw h (omega arith)
limit-whole u (suc n) h = rw h (omega arith)

share-whole : (u : BudgetUsage) → 0 < (share u).whole
share-whole u = limit-whole u u.limit refl

max-whole : (a b : Share) → 0 < a.whole → 0 < b.whole → 0 < (if is_below a b then b else a).whole
max-whole a b ha hb = if_both (λ (s : Share). 0 < s.whole) (is_below a b) b a hb ha

reaches-highest :
    (t : ℕ) (a : Share) (us : List BudgetUsage)
    → 0 < a.whole
    → reaches t (highest a us) ≡ (reaches t a || some_reaches t us)
reaches-highest t a [] h = ground arith
reaches-highest t a (u ∷ us) h =
    let b = share u in
    reaches-highest t (if is_below a b then b else a) us (max-whole a b h (share-whole u))
    ∙ ap (λ c. c || some_reaches t us) (reaches-max t a b h (share-whole u))
    ∙ or_assoc (reaches t a) (reaches t b) (some_reaches t us)

reaches-pressure_of :
    (t : ℕ) (us : List BudgetUsage) → 0 < t → reaches t (pressure_of us) ≡ some_reaches t us
unfolding pressure_of
reaches-pressure_of t [] h = ground (arith, h)
reaches-pressure_of t (u ∷ us) h = reaches-highest t (share u) us (share-whole u)

module _ (r : Redis) (limits_of : ApiKey → WindowLimits) (team_limits : Tenant → WindowLimits) where
  open r use {Store}

  -- Under a positive threshold, a request is downgraded exactly when there is a usable rule for its
  -- model and some capped budget of the key or its team, counting what requests in flight hold, has
  -- reached the threshold.
  pub downgrade_target-eq :
      (config : BudgetDowngrade) (cached : Option Tenant) (k : ApiKey) (model : String)
      (allowed : Option (List String)) (db : Db) (now : ℕ) (s : Store)
      → 0 < config.threshold
      → downgrade_target r limits_of team_limits config cached k model allowed db now s
        ≡ under_pressure
            (some_reaches config.threshold
              (budget_usages r limits_of team_limits cached k true db now s))
            (usable allowed (rule_for model config.rules))
  unfolding downgrade_target budget_pressure
  downgrade_target-eq config cached k model allowed db now s h =
      ap (λ pressed. under_pressure pressed (usable allowed (rule_for model config.rules)))
        (reaches-pressure_of config.threshold
          (budget_usages r limits_of team_limits cached k true db now s) h)
