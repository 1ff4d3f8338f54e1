-- ===== src/Limits/Spending.antt =====
-- What the rolling windows count.

use five_api.Base.{
  ℕ, suc, zero, ◌+◌, ◌-◌, ◌≡◌, refl, true, false, ◌&&◌, none, some, arith, ◌==◌, if◌then◌else◌, inl,
  inr, Option-cases, ◌↔◌, ltb, leb, ap, ◌∙◌,
}
use five_api.Base.Int.{ℤ, pos, ◌+ℤ◌, leb_ℤ, int_laws, eq_of_parts, +ℤ_parts}
use five_api.Models.{WindowLimits}
use five_api.Redis.{Redis, Scope, key, tenant, spend, same_scope}
use five_api.Limits.Windows.{
  Window, five_hours, one_day, seven_days, hours, cap_on, bucket, bucket_sum, window_spend,
  is_exceeded, exceeded_window,
}

interchange : (a x b y : ℤ) → (a +ℤ x) +ℤ (b +ℤ y) ≡ (a +ℤ b) +ℤ (x +ℤ y)
interchange a x b y = eq_of_parts _ _ (
    omega (
      arith,
      +ℤ_parts (a +ℤ x) (b +ℤ y),
      +ℤ_parts (a +ℤ b) (x +ℤ y),
      +ℤ_parts a x,
      +ℤ_parts b y,
      +ℤ_parts a b,
      +ℤ_parts x y,
    ))

hours_add_up :
    (hour now n cost : ℕ)
    → (if leb hour now && ltb now (hour + n) then pos cost else pos 0)
        +ℤ (if hour + n == now then pos cost else pos 0)
      ≡ (if leb hour now && ltb now (hour + suc n) then pos cost else pos 0)
unfolding ◌+ℤ◌
hours_add_up hour now n cost = ground arith

one_hour_more :
    (a b : ℤ) (hour now n cost : ℕ)
    → (a +ℤ (if leb hour now && ltb now (hour + n) then pos cost else pos 0))
        +ℤ (b +ℤ (if hour + n == now then pos cost else pos 0))
      ≡ (a +ℤ b) +ℤ (if leb hour now && ltb now (hour + suc n) then pos cost else pos 0)
one_hour_more a b hour now n cost =
    interchange a (if leb hour now && ltb now (hour + n) then pos cost else pos 0) b
      (if hour + n == now then pos cost else pos 0)
    ∙ ap (λ c. (a +ℤ b) +ℤ c) (hours_add_up hour now n cost)

module _ (r : Redis) where
  open r use {Store, get, incrby, del, get-incrby, get-del}

  below :
      (scope : Scope) (id : ℕ) (limits : WindowLimits) (held now : ℕ) (s : Store) (w : Window)
      → ((cap_amount : ℕ)
          → cap_on w limits ≡ some cap_amount
          → leb_ℤ (pos cap_amount) (window_spend r scope id now w s +ℤ pos held) ≡ false)
      → is_exceeded r scope id limits held now s w ≡ false
  below scope id limits held now s w h = elim (Option-cases (cap_on w limits)) [
    | inl free ↦ rw (is_exceeded, free) refl
    | inr (c, capped) ↦ rw (is_exceeded, capped) (h c capped)
  ]

  -- No window is used up exactly when every cap is above what is spent in its window and held.
  pub exceeded_window-eq-none :
      (scope : Scope) (id : ℕ) (limits : WindowLimits) (held now : ℕ) (s : Store)
      → (exceeded_window r scope id limits held now s ≡ none) ↔ (
          (w : Window) (cap_amount : ℕ)
          → cap_on w limits ≡ some cap_amount
          → leb_ℤ (pos cap_amount) (window_spend r scope id now w s +ℤ pos held) ≡ false)
  unfolding exceeded_window
  exceeded_window-eq-none scope id limits held now s = (
    λ h w. elim w [
      | five_hours ↦ λ c e. ground arith
      | one_day ↦ λ c e. ground arith
      | seven_days ↦ λ c e. ground arith
    ],
    λ h. ground (
      arith,
      below scope id limits held now s five_hours (h five_hours),
      below scope id limits held now s one_day (h one_day),
      below scope id limits held now s seven_days (h seven_days),
    ),
  )

  same_scope_self : (s : Scope) → same_scope s s ≡ true
  same_scope_self key = refl
  same_scope_self tenant = refl

  bucket-incrby :
      (scope : Scope) (id now hour cost n : ℕ) (s : Store)
      → bucket r scope id now n (incrby (spend scope id hour) (pos cost) s)
        ≡ bucket r scope id now n s +ℤ (if hour + n == now then pos cost else pos 0)
  bucket-incrby scope id now hour cost n s = grind (
    int_laws,
    get-incrby (spend scope id hour) (spend scope id (now - n)) (pos cost) s,
    same_scope_self scope,
  )

  sum-incrby :
      (scope : Scope) (id now hour cost n : ℕ) (s : Store)
      → bucket_sum r scope id now n (incrby (spend scope id hour) (pos cost) s)
        ≡ bucket_sum r scope id now n s
          +ℤ (if leb hour now && ltb now (hour + n) then pos cost else pos 0)
  unfolding bucket_sum
  sum-incrby scope id now hour cost zero s = grind int_laws
  sum-incrby scope id now hour cost (suc n) s =
      rw (sum-incrby scope id now hour cost n s, bucket-incrby scope id now hour cost n s)
        (one_hour_more (bucket_sum r scope id now n s) (bucket r scope id now n s) hour now n cost)

  -- An amount that is added to the bucket of an hour counts in a window exactly while that hour is
  -- among the window's last hours.
  pub window_spend-incrby :
      (scope : Scope) (id now hour cost : ℕ) (w : Window) (s : Store)
      → window_spend r scope id now w (incrby (spend scope id hour) (pos cost) s)
        ≡ window_spend r scope id now w s
          +ℤ (if leb hour now && ltb now (hour + hours w) then pos cost else pos 0)
  unfolding window_spend
  window_spend-incrby scope id now hour cost w s = sum-incrby scope id now hour cost (hours w) s
