-- ===== src/Routing/Candidates.antt =====
-- What resolve_candidates returns.

use five_api.Base.{
  ℕ, ◌+◌, ◌≤◌, ◌<◌, ◌≡◌, refl, sym, ap, ◌∙◌, Bool, true, false, not, Option, none, some, String,
  List, [], ◌∷◌, ◌++◌, arith, if◌then◌else◌, ltb, ◌==◌, length, keep_if, count_where, ok,
}
use five_api.Models.{Channel}
use five_api.Routing.Order.{
  ordered_tier, ordered_tiers, priorities, is_supported, best, or_best, outranks, in_order,
  half_open, may_serve, routed, promote_sticky, resolve_candidates,
}
use five_api.Routing.Shuffles.{ordered_tier-count, promote_sticky-count}

count-keep_if_le :
    {A : Type 0} (p q : A → Bool) (chs : List A) → count_where p (keep_if q chs) ≤ count_where p chs
count-keep_if_le p q [] = omega arith
count-keep_if_le p q (ch ∷ chs) = ground (arith, count-keep_if_le p q chs)

count-keep_if-not :
    {A : Type 0} (q : A → Bool) (chs : List A) → count_where (λ ch. not (q ch)) (keep_if q chs) ≡ 0
count-keep_if-not q [] = refl
count-keep_if-not q (ch ∷ chs) = ground (arith, count-keep_if-not q chs)

pub count-append :
    {A : Type 0} (p : A → Bool) (xs ys : List A)
    → count_where p (xs ++ ys) ≡ count_where p xs + count_where p ys
count-append p [] ys = omega arith
count-append p (x ∷ xs) ys = ground (arith, count-append p xs ys)

module _ (randrange uniform : List Channel → ℕ)
    (in_range : (chs : List Channel) → 0 < length chs → randrange chs < length chs) where
  count-either :
      (p : Channel → Bool) (ch d : Channel) (ds : List Channel) (b : Bool)
      → count_where p ((if b then d else ch) ∷ ds) ≤ count_where p (ch ∷ d ∷ ds)
  count-either p ch d ds true = ground arith
  count-either p ch d ds false = ground arith

  count-best :
      (p : Channel → Bool) (ch : Channel) (chs : List Channel)
      → count_where p (best ch chs ∷ []) ≤ count_where p (ch ∷ chs)
  count-best p ch [] = omega arith
  count-best p ch (d ∷ ds) = omega (
    arith,
    count-best p (if outranks d ch then d else ch) ds,
    count-either p ch d ds (outranks d ch),
  )

  count-or_best :
      (p : Channel → Bool) (ch : Channel) (chs found : List Channel)
      → count_where p found ≤ count_where p (ch ∷ chs)
      → count_where p (or_best ch chs found) ≤ count_where p (ch ∷ chs)
  count-or_best p ch chs [] h = count-best p ch chs
  count-or_best p ch chs (d ∷ ds) h = h

  count-half_open :
      (healthy : ℕ → Bool) (p : Channel → Bool) (chs : List Channel)
      → count_where p (half_open healthy chs) ≤ count_where p chs
  unfolding half_open
  count-half_open healthy p [] = omega arith
  count-half_open healthy p (ch ∷ chs) =
      count-or_best p ch chs (keep_if (λ c. healthy c.id) (ch ∷ chs))
        (count-keep_if_le p (λ c. healthy c.id) (ch ∷ chs))

  count-ordered_tiers :
      (scores : Option (ℕ → ℕ)) (p : Channel → Bool) (ps : List ℕ) (chs : List Channel)
      → count_where p chs ≡ 0
      → count_where p (ordered_tiers randrange uniform scores ps chs) ≡ 0
  unfolding ordered_tiers
  count-ordered_tiers scores p [] chs h = refl
  count-ordered_tiers scores p (q ∷ ps) chs h =
      let tier = keep_if (λ (ch : Channel). ch.priority == q) chs in
      omega (
        arith,
        count-append p (ordered_tier randrange uniform scores tier)
            (ordered_tiers randrange uniform scores ps chs),
        ordered_tier-count randrange uniform in_range scores p tier,
        count-keep_if_le p (λ ch. ch.priority == q) chs,
        count-ordered_tiers scores p ps chs h,
        h,
      )

  routed-none :
      (sticky : Option ℕ) (p : Channel → Bool) (chs result : List Channel)
      → count_where p chs ≡ 0
      → routed sticky chs ≡ ok result
      → count_where p result ≡ 0
  routed-none sticky p [] result zero_before h = cc
  routed-none none p (ch ∷ chs) result zero_before h =
      let same : ch ∷ chs ≡ result = cc in ap (count_where p) (sym same) ∙ zero_before
  routed-none (some id) p (ch ∷ chs) result zero_before h =
      let same : promote_sticky (ch ∷ chs) id ≡ result = cc in
      ap (count_where p) (sym same)
      ∙ promote_sticky-count randrange uniform in_range p (ch ∷ chs) id
      ∙ zero_before

  -- A test that no channel passes before is passed by none in the answer.
  in_order-none :
      (scores : Option (ℕ → ℕ)) (sticky : Option ℕ) (p : Channel → Bool)
      (found result : List Channel)
      → count_where p found ≡ 0
      → in_order randrange uniform scores sticky found ≡ ok result
      → count_where p result ≡ 0
  unfolding in_order
  in_order-none scores sticky p [] result zero_before h = cc
  in_order-none scores sticky p (ch ∷ chs) result zero_before h =
      let use_scores = if ltb 1 (length (ch ∷ chs)) then scores else none in
      let tiers = ordered_tiers randrange uniform use_scores (priorities (ch ∷ chs)) (ch ∷ chs) in
      routed-none sticky p (keep_if (is_supported) tiers) result
        (omega (
          arith,
          count-keep_if_le p (is_supported) tiers,
          count-ordered_tiers use_scores p (priorities (ch ∷ chs)) (ch ∷ chs) zero_before,
        ))
        h

  -- Where resolve_candidates returns, every candidate may serve the model, under the protocol and
  -- among the channels of the key, whatever the draws of the generator, the scores and the sticky
  -- channel.
  pub resolve_candidates-serve :
      (healthy : ℕ → Bool) (scores : Option (ℕ → ℕ)) (channels : List Channel) (model : String)
      (protocol : Option String) (sticky : Option ℕ) (ids : List ℕ) (result : List Channel)
      → resolve_candidates randrange uniform healthy scores channels model protocol sticky ids
        ≡ ok result
      → count_where (λ ch. not (may_serve model protocol ids ch)) result ≡ 0
  unfolding resolve_candidates
  resolve_candidates-serve healthy scores channels model protocol sticky ids result h =
      let fits = may_serve model protocol ids in
      let bad : Channel → Bool = λ ch. not (fits ch) in
      in_order-none scores sticky bad (half_open healthy (keep_if fits channels)) result
        (omega (
          arith,
          count-half_open healthy bad (keep_if fits channels),
          count-keep_if-not fits channels,
        ))
        h
