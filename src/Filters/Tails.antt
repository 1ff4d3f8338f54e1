-- ===== src/Filters/Tails.antt =====
-- What the tail of a text keeps.

use five_api.Base.{
  ℕ, suc, ◌≡◌, refl, sym, ap, ◌∙◌, Bool, true, false, [], ◌∷◌, ◌++◌, arith, leb, length,
  length-append, Bool-cases, inl, inr, ◌⊎◌,
}
use five_api.Filters.{Text, last}

pub append_nil : (a : Text) → a ++ [] ≡ a
append_nil [] = refl
append_nil (c ∷ cs) = ap (λ xs. c ∷ xs) (append_nil cs)

pub append_assoc : (a b c : Text) → (a ++ b) ++ c ≡ a ++ (b ++ c)
append_assoc [] b c = refl
append_assoc (x ∷ xs) b c = ap (λ ys. x ∷ ys) (append_assoc xs b c)

-- Cutting a text twice, with more behind it the second time, cuts it once.
pub last-append : (n : ℕ) (a b : Text) → last n (last n a ++ b) ≡ last n (a ++ b)
last-append n [] b = refl
last-append n (c ∷ cs) b = elim (Bool-cases (leb (suc (length cs)) n)) [
  | inl short ↦ rw short refl
  | inr long ↦
      let longer : leb (suc (length (cs ++ b))) n ≡ false =
        ground (arith, long, length-append cs b) in
      rw long (rw longer (last-append n cs b))
]

-- A test on texts of which each hit is within `n + 1` characters.
pub record IsLocal (hit : Text → Bool) (n : ℕ) : Type 0 where
  -- What two texts together hit, the first one hits or its tail does with the second.
  pub near : (a b : Text) → hit (a ++ b) ≡ true → (hit a ≡ true) ⊎ (hit (last n a ++ b) ≡ true)
  -- What a part of a text hits, the whole does.
  pub widen : (a b : Text) → hit (last n a ++ b) ≡ true → hit (a ++ b) ≡ true
  pub extend : (a b : Text) → hit a ≡ true → hit (a ++ b) ≡ true

-- A tail that stands for what was read, in which nothing was hit.
pub record Follows (hit : Text → Bool) (n : ℕ) (read tail : Text) : Type 0 where
  pub cut : tail ≡ last n read
  pub clean : hit read ≡ false

no_hit : {a b : Bool} → a ≡ b → a ≡ true → b ≡ false → ⊥
no_hit {a} {b} e h k = ground (arith, e, h, k)

module _ (hit : Text → Bool) (n : ℕ) (l : IsLocal hit n) where
  -- A hit in the tail and the next piece is one in all that was read.
  pub Follows-hit :
      (read tail piece : Text)
      → Follows hit n read tail
      → hit (tail ++ piece) ≡ true
      → hit (read ++ piece) ≡ true
  Follows-hit read tail piece f h = l.widen read piece (ap (λ t. hit (t ++ piece)) (sym f.cut) ∙ h)

  -- Without one, the next tail stands for what was read by then.
  pub Follows-next :
      (read tail piece : Text)
      → Follows hit n read tail
      → hit (tail ++ piece) ≡ false
      → Follows hit n (read ++ piece) (last n (tail ++ piece))
  Follows-next read tail piece f h = record {
    cut = ap (λ t. last n (t ++ piece)) f.cut ∙ last-append n read piece;
    clean = elim (Bool-cases (hit (read ++ piece))) [
      | inr missed ↦ missed
      | inl found ↦ elim (l.near read piece found) [
        | inl before ↦ absurd (ground (arith, before, f.clean))
        | inr now ↦ absurd (no_hit (ap (λ t. hit (t ++ piece)) (sym f.cut)) now h)
      ]
    ];
  }
