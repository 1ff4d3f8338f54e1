-- ===== src/Routing/Counts.antt =====
-- Counting what fails a test in a list that is filtered, mapped or appended to.

use five_api.Base.{
  ◌≡◌, refl, sym, ap, Bool, true, false, ◌&&◌, ◌||◌, not, String, List, [], ◌∷◌, ◌++◌, map, arith,
  str_eq, eq_iff, keep_if, count_where, Bool-cases, inl, inr,
}
use five_api.Routing.Candidates.{count-append}
use five_api.Routing.Order.{among}

pub count-both :
    {A : Type 0} (p : A → Bool) (xs ys : List A)
    → count_where p xs ≡ 0
    → count_where p ys ≡ 0
    → count_where p (xs ++ ys) ≡ 0
count-both p xs ys h k = omega (arith, count-append p xs ys, h, k)

-- A list all of whose elements fail a test, one by one.
pub count-tail :
    {A : Type 0} (p : A → Bool) (x : A) (xs : List A)
    → count_where p (x ∷ xs) ≡ 0
    → (p x ≡ false) × (count_where p xs ≡ 0)
count-tail p x xs h = (ground arith, ground arith)

count-cons :
    {A : Type 0} (p : A → Bool) (x : A) (xs : List A)
    → p x ≡ false
    → count_where p xs ≡ 0
    → count_where p (x ∷ xs) ≡ 0
count-cons p x xs h k = ground arith

pub count-map :
    {A B : Type 0} (p : B → Bool) (q : A → Bool) (f : A → B) (xs : List A)
    → ((x : A) → q x ≡ false → p (f x) ≡ false)
    → count_where q xs ≡ 0
    → count_where p (map f xs) ≡ 0
count-map p q f [] h k = refl
count-map p q f (x ∷ xs) h k =
    let (here, later) = count-tail q x xs k in
    count-cons p (f x) (map f xs) (h x here) (count-map p q f xs h later)

pub or-true : (a b : Bool) → b ≡ true → (a || b) ≡ true
or-true true b h = refl
or-true false b h = h

pub not-and : (a b : Bool) → not a ≡ false → b ≡ true → not (a && b) ≡ false
not-and true b h k = ap not k
not-and false b h k = h

pub and-true : (a b : Bool) → a ≡ true → b ≡ true → (a && b) ≡ true
and-true true b h k = k
and-true false b h k = h

pub not-false : (a : Bool) → not a ≡ false → a ≡ true
not-false true h = refl
not-false false h = sym h

not-true : (a : Bool) → a ≡ true → not a ≡ false
not-true a h = ap not h

pub keep_if-passes :
    {A : Type 0} (base p q r : A → Bool) (xs : List A)
    → ((x : A) → base x ≡ true → p x ≡ true → q x ≡ true → r x ≡ true)
    → count_where (λ x. not (base x)) xs ≡ 0
    → count_where (λ x. not (r x)) (keep_if q (keep_if p xs)) ≡ 0
keep_if-passes base p q r [] h k = refl
keep_if-passes base p q r (x ∷ xs) h k =
    let (here, later) = count-tail (λ y. not (base y)) x xs k in
    let rest = keep_if-passes base p q r xs h later in
    elim (Bool-cases (p x)) [
      | inr lost ↦ rw lost rest
      | inl kept ↦ elim (Bool-cases (q x)) [
        | inr lost ↦ rw kept (rw lost rest)
        | inl fits ↦ rw kept (
            rw fits (
              count-cons (λ y. not (r y)) x (keep_if q (keep_if p xs))
                (not-true (r x) (h x (not-false (base x) here) kept fits)) rest))
      ]
    ]

pub count_where-weaken :
    {A : Type 0} (p q : A → Bool) (xs : List A)
    → ((x : A) → q x ≡ false → p x ≡ false)
    → count_where q xs ≡ 0
    → count_where p xs ≡ 0
count_where-weaken p q [] h k = refl
count_where-weaken p q (x ∷ xs) h k =
    let (here, later) = count-tail q x xs k in
    count-cons p x xs (h x here) (count_where-weaken p q xs h later)

pub str_eq-same : (s : String) → str_eq s s ≡ true
str_eq-same s = ground (arith, eq_iff s s)

pub or-first : (a b : Bool) → a ≡ true → (a || b) ≡ true
or-first true b h = refl
or-first false b h = absurd (ground (arith, h))

pub count-among : (names : List String) → count_where (λ name. not (among name names)) names ≡ 0
count-among [] = refl
count-among (n ∷ ns) =
    count-cons (λ name. not (among name (n ∷ ns))) n ns
      (not-true (among n (n ∷ ns)) (or-first (str_eq n n) (among n ns) (str_eq-same n)))
      (count_where-weaken (λ name. not (among name (n ∷ ns))) (λ name. not (among name ns)) ns
        (λ name fits.
          not-true (among name (n ∷ ns))
            (or-true (str_eq n name) (among name ns) (not-false (among name ns) fits)))
        (count-among ns))
