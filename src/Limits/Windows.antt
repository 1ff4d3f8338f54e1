-- ===== src/Limits/Windows.antt =====
-- Rolling caps on spend: backend/app/services/spend_windows.py, in millionths of a dollar where the
-- source compares floats.

use five_api.Base.{
  ℕ, suc, zero, ◌-◌, Bool, true, false, Option, none, some, String, str_eq, if◌then◌else◌, ltb,
}
use five_api.Base.Int.{ℤ, pos, negsuc, ◌+ℤ◌, leb_ℤ}
use five_api.Base.Json.{Json, Fields, null, str, obj, field, end}
use five_api.Models.{WindowLimits}
use five_api.Redis.{Redis, Scope, spend, or_zero}

-- WINDOWS, in its order.
pub data Window : Type 0 where
  five_hours one_day seven_days : Window

abbrev pub hours : Window → ℕ
hours five_hours = 5
hours one_day = 24
hours seven_days = 168

abbrev pub label : Window → String
label five_hours = "5h"
label one_day = "1d"
label seven_days = "7d"

-- `value.get(window)`, `null` where there is none.
unfoldable pub get_field : String → Fields → Json
get_field name end = null
get_field name (field n v rest) =
    let later = get_field name rest in if str_eq n name then v else later

abbrev pub is_empty : Json → Bool
is_empty null = true
is_empty (str s) = str_eq s ""
is_empty _ = false

-- `round(float(raw), 6)`, as a number of millionths; `none` is a TypeError or ValueError, or infinity,
-- which caps nothing.
module _ (amount_of : Json → Option ℤ) where
  abbrev pub cap_of : Json → Option ℕ
  cap_of raw = if is_empty raw then none else elim (amount_of raw) [
    | some (pos amount) ↦ some amount
    | some (negsuc _) ↦ none
    | none ↦ none
  ]

  unfoldable pub normalize_limits : Json → WindowLimits
  unfolding get_field
  normalize_limits (obj fields) = record {
    five_hours = cap_of (get_field "5h" fields);
    one_day = cap_of (get_field "1d" fields);
    seven_days = cap_of (get_field "7d" fields);
  }
  normalize_limits _ = record { five_hours = none; one_day = none; seven_days = none }

abbrev pub cap_on : Window → WindowLimits → Option ℕ
cap_on five_hours limits = limits.five_hours
cap_on one_day limits = limits.one_day
cap_on seven_days limits = limits.seven_days

module _ (r : Redis) where
  open r use {Store, get, incrby, del}

  -- The amount in the bucket `offset` hours ago; before the first hour there is none.
  abbrev pub bucket : Scope → ℕ → ℕ → ℕ → Store → ℤ
  bucket scope id now offset s =
      if ltb now offset then pos 0 else or_zero (get (spend scope id (now - offset)) s)

  -- The sum of the last `n` buckets.
  unfoldable pub bucket_sum : Scope → ℕ → ℕ → ℕ → Store → ℤ
  bucket_sum scope id now zero s = pos 0
  bucket_sum scope id now (suc n) s = bucket_sum scope id now n s +ℤ bucket scope id now n s

  unfoldable pub window_spend : Scope → ℕ → ℕ → Window → Store → ℤ
  unfolding bucket_sum
  window_spend scope id now w s = bucket_sum scope id now (hours w) s

  -- Whether a cap is used up by what is settled and what is held.
  abbrev pub is_exceeded : Scope → ℕ → WindowLimits → ℕ → ℕ → Store → Window → Bool
  is_exceeded scope id limits held now s w = elim (cap_on w limits) [
    | none ↦ false
    | some cap_amount ↦ leb_ℤ (pos cap_amount) (window_spend scope id now w s +ℤ pos held)
  ]

  -- The first window whose cap is used up.
  unfoldable pub exceeded_window : Scope → ℕ → WindowLimits → ℕ → ℕ → Store → Option Window
  exceeded_window scope id limits held now s =
      if is_exceeded scope id limits held now s five_hours
      then some five_hours
      else if is_exceeded scope id limits held now s one_day
      then some one_day
      else if is_exceeded scope id limits held now s seven_days
      then some seven_days
      else none

  unfoldable pub reset_buckets : Scope → ℕ → ℕ → ℕ → Store → Store
  reset_buckets scope id now zero s = s
  reset_buckets scope id now (suc n) s =
      let rest = reset_buckets scope id now n s in
      if ltb now n then rest else del (spend scope id (now - n)) rest

  unfoldable pub reset_windows : Scope → ℕ → ℕ → Store → Store
  unfolding reset_buckets
  reset_windows scope id now s = reset_buckets scope id now 168 s
