-- ===== src/Base/Results.antt =====
-- Calls that may raise, and rows of a table that a filter selects.
use Prim.Native.Nat.{ℕ, suc, ◌+◌}
use mathlib.Core.Path.{◌≡◌, refl}
use mathlib.Core.Logic.{◌⊎◌, inl, inr}
use mathlib.Core.Bool.{Bool, true, false}
use mathlib.Core.List.{List, [], ◌∷◌}
use five_api.Base.Tests.{if◌then◌else◌}

-- A call returns a value, or raises.
pub data Result {ℓ} (Error Value : Type ℓ) : Type ℓ where
  err : Error → Result Error Value
  ok : Value → Result Error Value

infixl 5 ◌>>=◌ ◌>>◌
-- What is raised skips the rest.
abbrev pub ◌>>=◌ {ℓ} :
    {Error Value Next : Type ℓ}
    → Result Error Value
    → (Value → Result Error Next)
    → Result Error Next
err raised >>= rest = err raised
ok value >>= rest = rest value

abbrev pub ◌>>◌ {ℓ} :
    {Error Next : Type ℓ} → Result Error (Unit {ℓ}) → Result Error Next → Result Error Next
first >> rest = first >>= λ _. rest

-- `if test: raise e`
abbrev pub raise_if {ℓ} : {Error : Type ℓ} → Bool → Error → Result Error (Unit {ℓ})
raise_if false e = ok tt
raise_if true e = err e

pub >>=-eq-ok {ℓ} :
    {Error Value Next : Type ℓ} (m : Result Error Value) (rest : Value → Result Error Next)
    {n : Next}
    → (m >>= rest) ≡ ok n
    → (v : Value) × (m ≡ ok v) × (rest v ≡ ok n)
>>=-eq-ok (err raised) rest h = cc
>>=-eq-ok (ok value) rest h = (value, refl, h)

pub Result-cases {ℓ} :
    {Error Value : Type ℓ} (r : Result Error Value)
    → ((e : Error) × (r ≡ err e)) ⊎ ((v : Value) × (r ≡ ok v))
Result-cases (err e) = inl (e, refl)
Result-cases (ok v) = inr (v, refl)

module _ {ℓ} {R : Type ℓ} where
  -- `filter(...).update(...)`: the rows that fit are rewritten.
  abbrev pub update_where : (R → Bool) → (R → R) → List R → List R
  update_where p f [] = []
  update_where p f (r ∷ rs) = (if p r then f r else r) ∷ update_where p f rs

  -- The number of rows that a filter selects.
  abbrev pub count_where : (R → Bool) → List R → ℕ
  count_where p [] = 0
  count_where p (r ∷ rs) = let rest = count_where p rs in if p r then suc rest else rest

  -- The sum of a column over the rows that a filter selects.
  abbrev pub sum_where : (R → Bool) → (R → ℕ) → List R → ℕ
  sum_where p g [] = 0
  sum_where p g (r ∷ rs) = let rest = sum_where p g rs in if p r then g r + rest else rest
