-- ===== src/Settings/Shape.antt =====
-- The shape of the tables of rules in the settings.

use five_api.Base.{
  ℕ, suc, zero, ◌≤◌, ◌<◌, ◌≡◌, refl, String, Bool, false, ◌||◌, List, [], ◌∷◌, ◌++◌, arith, str_eq,
  eq_iff, if_both, take, length,
}
use five_api.Base.Json.{is_empty}
use five_api.Routing.Order.{among}
use five_api.Settings.{put_rule}

abbrev pub NoRepeats : List String → Type 0
NoRepeats [] = Unit {0}
NoRepeats (x ∷ xs) = (among x xs ≡ false) × NoRepeats xs

-- A chain of fallbacks under construction: no model twice, not the model itself, no empty name.
abbrev pub IsChain : String → List String → Type 0
IsChain name chain = NoRepeats chain × (among name chain ≡ false) × (among "" chain ≡ false)

abbrev pub GoodRule : String × List String → Type 0
GoodRule (name, chain) =
    (is_empty name ≡ false) × IsChain name chain × (0 < length chain) × (length chain ≤ 5)

abbrev pub GoodDowngrade : String × String → Type 0
GoodDowngrade (name, target) =
    (is_empty name ≡ false) × (is_empty target ≡ false) × (str_eq name target ≡ false)

abbrev pub EachOf : {V : Type 0} → (String × V → Type 0) → List (String × V) → Type 0
EachOf P [] = Unit {0}
EachOf P (rule ∷ rules) = P rule × EachOf P rules

abbrev pub Within : ℕ → ℕ → ℕ → Type 0
Within low high n = (low ≤ n) × (n ≤ high)

or-false : (a b : Bool) → (a || b) ≡ false → (a ≡ false) × (b ≡ false)
or-false a b h = (ground (arith, h), ground (arith, h))

str_eq_sym : (a b : String) → str_eq a b ≡ false → str_eq b a ≡ false
str_eq_sym a b h = ground (arith, eq_iff a b, eq_iff b a, h)

pub among-append :
    (name : String) (xs : List String) (target : String)
    → among name xs ≡ false
    → str_eq target name ≡ false
    → among name (xs ++ target ∷ []) ≡ false
among-append name [] target h k = ground (arith, k)
among-append name (x ∷ xs) target h k =
    ground (arith, among-append name xs target, eq_iff name x, h, k)

pub NoRepeats-append :
    (xs : List String) (target : String)
    → NoRepeats xs
    → among target xs ≡ false
    → NoRepeats (xs ++ target ∷ [])
NoRepeats-append [] target h k = (refl, tt)
NoRepeats-append (x ∷ xs) target (fresh, later) k =
    let (here, beyond) = or-false (str_eq x target) (among target xs) k in
    (
      among-append x xs target fresh (str_eq_sym x target here),
      NoRepeats-append xs target later beyond,
    )

pub among-take :
    (n : ℕ) (name : String) (xs : List String)
    → among name xs ≡ false
    → among name (take n xs) ≡ false
among-take zero name xs h = refl
among-take (suc n) name [] h = refl
among-take (suc n) name (x ∷ xs) h = ground (arith, among-take n name xs, h)

pub NoRepeats-take : (n : ℕ) (xs : List String) → NoRepeats xs → NoRepeats (take n xs)
NoRepeats-take zero xs h = tt
NoRepeats-take (suc n) [] h = tt
NoRepeats-take (suc n) (x ∷ xs) (fresh, later) =
    (among-take n x xs fresh, NoRepeats-take n xs later)

pub length-take_le : (n : ℕ) (xs : List String) → length (take n xs) ≤ n
length-take_le zero xs = omega arith
length-take_le (suc n) [] = omega arith
length-take_le (suc n) (x ∷ xs) = omega (arith, length-take_le n xs)

pub put_rule-length :
    {V : Type 0} (name : String) (v : V) (rules : List (String × V))
    → length (put_rule name v rules) ≤ suc (length rules)
put_rule-length name v [] = omega arith
put_rule-length name v (e ∷ d) = ground (arith, put_rule-length name v d)

pub put_rule-EachOf :
    {V : Type 0} (P : String × V → Type 0) (name : String) (v : V) (rules : List (String × V))
    → P (name, v)
    → EachOf P rules
    → EachOf P (put_rule name v rules)
put_rule-EachOf P name v [] h k = (h, tt)
put_rule-EachOf P name v (e ∷ d) h (here, later) =
    if_both (EachOf P) (str_eq e.0 name) ((name, v) ∷ d) (e ∷ put_rule name v d) (h, later)
      (here, put_rule-EachOf P name v d h later)

-- A table of rules that are good, and no more than `n`.
abbrev pub Table : {V : Type 0} → (String × V → Type 0) → ℕ → List (String × V) → Type 0
Table P n rules = EachOf P rules × (length rules ≤ n)

pub Table-put :
    {V : Type 0} (P : String × V → Type 0) (n : ℕ) (name : String) (v : V)
    (rules : List (String × V))
    → P (name, v)
    → Table P n rules
    → Table P (suc n) (put_rule name v rules)
Table-put P n name v rules h (good, few) =
    (put_rule-EachOf P name v rules h good, omega (arith, put_rule-length name v rules, few))

pub Table-more :
    {V : Type 0} (P : String × V → Type 0) (n : ℕ) (rules : List (String × V))
    → Table P n rules
    → Table P (suc n) rules
Table-more P n rules (good, few) = (good, omega (arith, few))
