-- ===== src/Routing/Listed.antt =====
-- What the list of models holds.

use mathlib.Core.Path.{subst}
use five_api.Base.{
  ℕ, ◌≡◌, refl, sym, ap, ◌∙◌, String, Bool, true, false, ◌||◌, List, [], ◌∷◌, ◌++◌, map, arith,
  str_eq, eq_iff, keep_if, Bool-cases, inl, inr,
}
use five_api.Models.{Channel}
use five_api.Routing.Order.{among}
use five_api.Routing.Listing.{
  ListedModel, see, see_all, see_channels, selected, list_available_models,
}
use five_api.Settings.Shape.{NoRepeats, NoRepeats-append}

abbrev pub names : List ListedModel → List String
names models = map (λ (m : ListedModel). m.id) models

-- Some channel has the model.
abbrev pub offered : String → List Channel → Bool
offered x [] = false
offered x (ch ∷ chs) = among x ch.models || offered x chs

abbrev Found : Type 0
Found = List String × List ListedModel

-- The set that was seen is that of the names, and no name is there twice.
abbrev Kept : Found → Type 0
Kept (seen, models) =
    NoRepeats (names models) × ((x : String) → among x seen ≡ among x (names models))

names-append :
    (models : List ListedModel) (m : ListedModel)
    → names (models ++ m ∷ []) ≡ names models ++ m.id ∷ []
names-append [] m = refl
names-append (x ∷ xs) m = ap (λ ns. x.id ∷ ns) (names-append xs m)

among-last : (x m : String) (ns : List String) → among x (ns ++ m ∷ []) ≡ (among x ns || str_eq m x)
among-last x m [] = ground arith
among-last x m (n ∷ ns) = ground (arith, among-last x m ns)

present-again :
    (x m : String) (ns : List String) → among m ns ≡ true → among x ns ≡ (among x ns || str_eq m x)
present-again x m ns h = elim (Bool-cases (str_eq m x)) [
  | inl same ↦
      let e : m ≡ x = ground (arith, eq_iff m x, same) in
      let there : among x ns ≡ true = ap (λ y. among y ns) (sym e) ∙ h in ground (arith, there)
  | inr differs ↦ ground (arith, differs)
]

abbrev entry : Channel → String → ListedModel
entry ch m = record { id = m; owned_by = ch.provider }

or_swap : (a b : Bool) → (a || b) ≡ (b || a)
or_swap a b = ground arith

or_assoc : (a b c : Bool) → ((a || b) || c) ≡ (a || (b || c))
or_assoc a b c = ground arith

or_false : (a : Bool) → a ≡ (a || false)
or_false a = ground arith

added :
    (x m : String) (ch : Channel) (models : List ListedModel)
    → among x (names (models ++ entry ch m ∷ [])) ≡ (among x (names models) || str_eq m x)
added x m ch models =
    ap (among x) (names-append models (entry ch m)) ∙ among-last x m (names models)

see-Kept : (ch : Channel) (m : String) (f : Found) → Kept f → Kept (see ch m f)
see-Kept ch m (seen, models) (once, same) = elim (Bool-cases (among m seen)) [
  | inl old ↦ rw old (once, same)
  | inr new ↦ rw new (
    subst NoRepeats (sym (names-append models (entry ch m)))
        (NoRepeats-append (names models) m once (sym (same m) ∙ new)),
    λ x.
        or_swap (str_eq m x) (among x seen)
        ∙ ap (λ b. b || str_eq m x) (same x)
        ∙ sym (added x m ch models),
  )
]

see-has :
    (ch : Channel) (m x : String) (f : Found)
    → Kept f
    → among x (names (see ch m f).1) ≡ (among x (names f.1) || str_eq m x)
see-has ch m x (seen, models) (once, same) = elim (Bool-cases (among m seen)) [
  | inl old ↦ rw old (present-again x m (names models) (sym (same m) ∙ old))
  | inr new ↦ rw new (added x m ch models)
]

see_all-Kept : (ch : Channel) (ms : List String) (f : Found) → Kept f → Kept (see_all ch ms f)
unfolding see_all
see_all-Kept ch [] f h = h
see_all-Kept ch (m ∷ ms) f h = see_all-Kept ch ms (see ch m f) (see-Kept ch m f h)

see_all-has :
    (ch : Channel) (ms : List String) (x : String) (f : Found)
    → Kept f
    → among x (names (see_all ch ms f).1) ≡ (among x (names f.1) || among x ms)
unfolding see_all
see_all-has ch [] x f h = or_false (among x (names f.1))
see_all-has ch (m ∷ ms) x f h =
    see_all-has ch ms x (see ch m f) (see-Kept ch m f h)
    ∙ ap (λ b. b || among x ms) (see-has ch m x f h)
    ∙ or_assoc (among x (names f.1)) (str_eq m x) (among x ms)

see_channels-has :
    (chs : List Channel) (x : String) (f : Found)
    → Kept f
    → NoRepeats (names (see_channels chs f).1)
      × (among x (names (see_channels chs f).1) ≡ (among x (names f.1) || offered x chs))
unfolding see_channels
see_channels-has [] x f h = (h.0, or_false (among x (names f.1)))
see_channels-has (ch ∷ chs) x f h =
    let (once, there) =
      see_channels-has chs x (see_all ch ch.models f) (see_all-Kept ch ch.models f h) in
    (
      once,
      there
          ∙ ap (λ b. b || offered x chs) (see_all-has ch ch.models x f h)
          ∙ or_assoc (among x (names f.1)) (among x ch.models) (offered x chs),
    )

-- The list of available models names each model once, and a model is on it exactly when some
-- enabled channel that the key may use offers it.
pub list_available_models-once :
    (ids : List ℕ) (channels : List Channel) (x : String)
    → NoRepeats (names (list_available_models ids channels))
      × (among x (names (list_available_models ids channels))
          ≡ offered x (keep_if (selected ids) channels))
unfolding list_available_models
list_available_models-once ids channels x =
    see_channels-has (keep_if (selected ids) channels) x ([], []) (tt, λ y. refl)
