-- ===== src/Filters/Keywords.antt =====
-- The keywords are found within the tail that the scanner keeps.

use five_api.Base.{
  ℕ, suc, ◌≤◌, ◌≡◌, refl, Bool, true, false, Option, none, some, List, [], ◌∷◌, ◌++◌, arith, leb,
  length, Bool-cases, inl, inr, ◌⊎◌,
}
use five_api.Filters.{Text, last, starts, occurs, find_keyword, longest}
use five_api.Filters.Tails.{IsLocal}

abbrev pub is_hit : Option Text → Bool
is_hit none = false
is_hit (some label) = true

starts-append : (k a b : Text) → starts k a ≡ true → starts k (a ++ b) ≡ true
starts-append [] a b h = refl
starts-append (x ∷ xs) [] b h = cc
starts-append (x ∷ xs) (c ∷ cs) b h = ground (arith, starts-append xs cs b, h)

-- A prefix that is no longer than the first text lies in it.
starts-shorter : (k a b : Text) → length k ≤ length a → starts k (a ++ b) ≡ true → starts k a ≡ true
starts-shorter [] a b h s = refl
starts-shorter (x ∷ xs) [] b h s = absurd (omega (arith, h))
starts-shorter (x ∷ xs) (c ∷ cs) b h s =
    ground (arith, starts-shorter xs cs b (omega (arith, h)), s)

starts-occurs : (k a : Text) → starts k a ≡ true → occurs k a ≡ true
starts-occurs k [] h = h
starts-occurs k (c ∷ cs) h = ground (arith, h)

occurs-tail : (k : Text) (c : ℕ) (cs : Text) → occurs k cs ≡ true → occurs k (c ∷ cs) ≡ true
occurs-tail k c cs h = ground (arith, h)

occurs-cases :
    (k : Text) (c : ℕ) (cs : Text)
    → occurs k (c ∷ cs) ≡ true
    → (starts k (c ∷ cs) ≡ true) ⊎ (occurs k cs ≡ true)
occurs-cases k c cs h = elim (Bool-cases (starts k (c ∷ cs))) [
  | inl here ↦ inl here
  | inr later ↦ inr (ground (arith, later, h))
]

occurs-append : (k a b : Text) → occurs k a ≡ true → occurs k (a ++ b) ≡ true
occurs-append k [] b h = starts-occurs k b (starts-append k [] b h)
occurs-append k (c ∷ cs) b h = elim (occurs-cases k c cs h) [
  | inl here ↦ starts-occurs k (c ∷ cs ++ b) (starts-append k (c ∷ cs) b here)
  | inr later ↦ occurs-tail k c (cs ++ b) (occurs-append k cs b later)
]

occurs-widen : (n : ℕ) (k a b : Text) → occurs k (last n a ++ b) ≡ true → occurs k (a ++ b) ≡ true
occurs-widen n k [] b h = h
occurs-widen n k (c ∷ cs) b h = elim (Bool-cases (leb (suc (length cs)) n)) [
  | inl short ↦ rw short at h
  | inr long ↦ occurs-tail k c (cs ++ b) (occurs-widen n k cs b (rw long at h))
]

occurs-near :
    (n : ℕ) (k a b : Text)
    → length k ≤ suc n
    → occurs k (a ++ b) ≡ true
    → (occurs k a ≡ true) ⊎ (occurs k (last n a ++ b) ≡ true)
occurs-near n k [] b fits h = inr h
occurs-near n k (c ∷ cs) b fits h = elim (Bool-cases (leb (suc (length cs)) n)) [
  | inl short ↦ rw short (inr h)
  | inr long ↦ rw long (elim (occurs-cases k c (cs ++ b) h) [
    | inl here ↦
        inl
          (starts-occurs k (c ∷ cs) (starts-shorter k (c ∷ cs) b (ground (arith, long, fits)) here))
    | inr later ↦ elim (occurs-near n k cs b fits later) [
      | inl before ↦ inl (occurs-tail k c cs before)
      | inr now ↦ inr now
    ]
  ])
]

-- A list of keywords hits where its first keyword occurs or the others hit.
abbrev pub keyword_in : List Text → Text → Bool
keyword_in keywords text = is_hit (find_keyword keywords text)

in-cases :
    (k : Text) (ks : List Text) (t : Text)
    → keyword_in (k ∷ ks) t ≡ true
    → (occurs k t ≡ true) ⊎ (keyword_in ks t ≡ true)
unfolding find_keyword
in-cases k ks t h = elim (Bool-cases (occurs k t)) [
  | inl here ↦ inl here
  | inr there ↦ inr (ground (arith, there, h))
]

in-first : (k : Text) (ks : List Text) (t : Text) → occurs k t ≡ true → keyword_in (k ∷ ks) t ≡ true
unfolding find_keyword
in-first k ks t h = rw h refl

in-others :
    (k : Text) (ks : List Text) (t : Text) → keyword_in ks t ≡ true → keyword_in (k ∷ ks) t ≡ true
unfolding find_keyword
in-others k ks t h = elim (Bool-cases (occurs k t)) [
  | inl here ↦ rw here refl
  | inr there ↦ rw there h
]

keyword_in-near :
    (n : ℕ) (ks : List Text) (a b : Text)
    → longest ks ≤ suc n
    → keyword_in ks (a ++ b) ≡ true
    → (keyword_in ks a ≡ true) ⊎ (keyword_in ks (last n a ++ b) ≡ true)
unfolding find_keyword
keyword_in-near n [] a b fits h = cc
keyword_in-near n (k ∷ ks) a b fits h = elim (in-cases k ks (a ++ b) h) [
  | inl here ↦ elim (occurs-near n k a b (omega (arith, fits)) here) [
    | inl before ↦ inl (in-first k ks a before)
    | inr now ↦ inr (in-first k ks (last n a ++ b) now)
  ]
  | inr there ↦ elim (keyword_in-near n ks a b (omega (arith, fits)) there) [
    | inl before ↦ inl (in-others k ks a before)
    | inr now ↦ inr (in-others k ks (last n a ++ b) now)
  ]
]

-- A way of making texts longer that keeps each occurrence keeps each hit.
keyword_in_mono :
    (ks : List Text) (a b : Text)
    → ((k : Text) → occurs k a ≡ true → occurs k b ≡ true)
    → keyword_in ks a ≡ true
    → keyword_in ks b ≡ true
unfolding find_keyword
keyword_in_mono [] a b m h = cc
keyword_in_mono (k ∷ ks) a b m h = elim (in-cases k ks a h) [
  | inl here ↦ in-first k ks b (m k here)
  | inr there ↦ in-others k ks b (keyword_in_mono ks a b m there)
]

pub keyword_in-IsLocal : (n : ℕ) (ks : List Text) → longest ks ≤ suc n → IsLocal (keyword_in ks) n
keyword_in-IsLocal n ks fits = record {
  near = λ a b. keyword_in-near n ks a b fits;
  widen = λ a b. keyword_in_mono ks (last n a ++ b) (a ++ b) (λ k. occurs-widen n k a b);
  extend = λ a b. keyword_in_mono ks a (a ++ b) (λ k. occurs-append k a b);
}
