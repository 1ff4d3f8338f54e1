-- ===== src/Settings/Rules.antt =====
-- The tables of rules that the settings are normalized to.

use five_api.Base.{
  ℕ, suc, zero, ◌+◌, ◌≡◌, refl, String, false, List, [], ◌∷◌, arith, str_eq, take, Bool-cases, inl,
  inr,
}
use five_api.Base.Json.{
  Json, null, bool, int, float, str, arr, obj, Items, nil, cons, Fields, end, field, is_empty,
}
use five_api.Routing.Order.{among}
use five_api.Settings.{
  Parsers, take_fields, model_name, add_target, chain_of, with_chain, add_fallback, fallback_rules,
  add_downgrade, downgrade_rules,
}
use five_api.Settings.Shape.{
  IsChain, GoodRule, GoodDowngrade, among-append, NoRepeats-append, among-take, NoRepeats-take,
  length-take_le, Table, Table-put, Table-more,
}

add_target-IsChain :
    (name target : String) (chain : List String)
    → IsChain name chain
    → IsChain name (add_target name target chain)
add_target-IsChain name target chain (once, other, named) = elim (Bool-cases (is_empty target)) [
  | inl empty ↦ rw empty (once, other, named)
  | inr full ↦ elim (Bool-cases (str_eq target name)) [
    | inl same ↦ rw full (rw same (once, other, named))
    | inr differs ↦ elim (Bool-cases (among target chain)) [
      | inl there ↦ rw full (rw differs (rw there (once, other, named)))
      | inr fresh ↦ rw full (
          rw differs (
            rw fresh (
              (
                NoRepeats-append chain target once fresh,
                among-append name chain target other differs,
                among-append "" chain target named full,
              ))))
    ]
  ]
]

module _ (p : Parsers) where
  chain_of-IsChain :
      (name : String) (targets : Items) (chain : List String)
      → IsChain name chain
      → IsChain name (chain_of p name targets chain)
  unfolding chain_of
  chain_of-IsChain name nil chain h = h
  chain_of-IsChain name (cons target targets) chain h =
      chain_of-IsChain name targets _ (add_target-IsChain name (model_name p target) chain h)

  with_chain-Table :
      (n : ℕ) (name : String) (chain : List String) (rules : List (String × List String))
      → is_empty name ≡ false
      → IsChain name chain
      → Table GoodRule n rules
      → Table GoodRule (suc n) (with_chain name chain rules)
  with_chain-Table n name [] rules named h k = Table-more GoodRule n rules k
  with_chain-Table n name (x ∷ xs) rules named (once, other, full) k =
      Table-put GoodRule n name (take 5 (x ∷ xs)) rules
        (
          named,
          (
            NoRepeats-take 5 (x ∷ xs) once,
            among-take 5 name (x ∷ xs) other,
            among-take 5 "" (x ∷ xs) full,
          ),
          omega arith,
          length-take_le 5 (x ∷ xs),
        )
        k

  add_fallback-Table :
      (n : ℕ) (name : String) (targets : Json) (rules : List (String × List String))
      → Table GoodRule n rules
      → Table GoodRule (suc n) (add_fallback p name targets rules)
  add_fallback-Table n name (arr targets) rules k = elim (Bool-cases (is_empty name)) [
    | inl empty ↦ rw empty (Table-more GoodRule n rules k)
    | inr named ↦ rw named (
        with_chain-Table n name (chain_of p name targets []) rules named
          (chain_of-IsChain name targets [] (tt, refl, refl)) k)
  ]
  add_fallback-Table n name null rules k = Table-more GoodRule n rules k
  add_fallback-Table n name (bool b) rules k = Table-more GoodRule n rules k
  add_fallback-Table n name (int i) rules k = Table-more GoodRule n rules k
  add_fallback-Table n name (float s) rules k = Table-more GoodRule n rules k
  add_fallback-Table n name (str s) rules k = Table-more GoodRule n rules k
  add_fallback-Table n name (obj fs) rules k = Table-more GoodRule n rules k

  pub fallback_rules-Table :
      (m n : ℕ) (fs : Fields) (rules : List (String × List String))
      → Table GoodRule n rules
      → Table GoodRule (n + m) (fallback_rules p (take_fields m fs) rules)
  unfolding fallback_rules
  fallback_rules-Table zero n fs rules (good, few) = (good, omega (arith, few))
  fallback_rules-Table (suc m) n end rules (good, few) = (good, omega (arith, few))
  fallback_rules-Table (suc m) n (field source targets rest) rules k =
      let (good, few) =
        fallback_rules-Table m (suc n) rest _
          (add_fallback-Table n (model_name p (str source)) targets rules k) in
      (good, omega (arith, few))

  add_downgrade-Table :
      (n : ℕ) (name target : String) (rules : List (String × String))
      → Table GoodDowngrade n rules
      → Table GoodDowngrade (suc n) (add_downgrade name target rules)
  add_downgrade-Table n name target rules k = elim (Bool-cases (is_empty name)) [
    | inl empty ↦ rw empty (Table-more GoodDowngrade n rules k)
    | inr named ↦ elim (Bool-cases (is_empty target)) [
      | inl empty ↦ rw named (rw empty (Table-more GoodDowngrade n rules k))
      | inr full ↦ elim (Bool-cases (str_eq name target)) [
        | inl same ↦ rw named (rw full (rw same (Table-more GoodDowngrade n rules k)))
        | inr differs ↦ rw named (
            rw full
              (rw differs (Table-put GoodDowngrade n name target rules (named, full, differs) k)))
      ]
    ]
  ]

  pub downgrade_rules-Table :
      (m n : ℕ) (fs : Fields) (rules : List (String × String))
      → Table GoodDowngrade n rules
      → Table GoodDowngrade (n + m) (downgrade_rules p (take_fields m fs) rules)
  unfolding downgrade_rules
  downgrade_rules-Table zero n fs rules (good, few) = (good, omega (arith, few))
  downgrade_rules-Table (suc m) n end rules (good, few) = (good, omega (arith, few))
  downgrade_rules-Table (suc m) n (field source target rest) rules k =
      let (good, few) =
        downgrade_rules-Table m (suc n) rest _
          (add_downgrade-Table n (model_name p (str source)) (model_name p target) rules k) in
      (good, omega (arith, few))
