-- ===== src/Filters/Scanned.antt =====
-- The scanner sees what is in the whole answer.

use mathlib.Core.Path.{subst}
use five_api.Base.{
  ◌+◌, ◌-◌, ◌≡◌, refl, sym, ap, ◌∙◌, Bool, true, false, ◌&&◌, ◌||◌, Option, none, some, List, [],
  ◌∷◌, ◌++◌, arith, length, length-append,
}
use five_api.Filters.{
  Text, last, find_keyword, SecretRule, match_secret, secret_tail_length, ResponseScanner, longest,
  new_scanner, secret_found, feed_secrets, keyword_found, feed_keywords, feed, scan,
}
use five_api.Filters.Tails.{IsLocal, Follows, Follows-hit, Follows-next, append_assoc, append_nil}
use five_api.Filters.Keywords.{is_hit, keyword_in, keyword_in-IsLocal}

-- The text of a stream.
abbrev pub whole : List Text → Text
whole [] = []
whole (piece ∷ pieces) = piece ++ whole pieces

abbrev pub secret_in : List SecretRule → Text → Bool
secret_in rules text = is_hit (match_secret rules text)

no_length : (xs : Text) → length xs ≡ length xs + length xs → xs ≡ []
no_length [] h = refl
no_length (x ∷ xs) h = absurd (omega (arith, h))

module _ (casefold : Text → Text) (rules : List SecretRule)
    (casefold-append : (a b : Text) → casefold (a ++ b) ≡ casefold a ++ casefold b)
    (secrets_near : IsLocal (secret_in rules) secret_tail_length) where
  casefold-nil : casefold [] ≡ []
  casefold-nil =
      no_length (casefold [])
        (ap length (casefold-append [] []) ∙ length-append (casefold []) (casefold []))

  -- What is to be found in a text.
  abbrev pub to_find : List Text → Bool → Text → Bool
  to_find keywords secrets text =
      keyword_in keywords (casefold text) || (secrets && secret_in rules text)

  abbrev WatchesKeywords : List Text → Text → Text → Type 0
  WatchesKeywords [] read tail = Unit {0}
  WatchesKeywords (k ∷ ks) read tail =
      Follows (keyword_in (k ∷ ks)) (longest (k ∷ ks) - 1) (casefold read) tail

  abbrev WatchesSecrets : Bool → Text → Text → Type 0
  WatchesSecrets false read tail = Unit {0}
  WatchesSecrets true read tail = Follows (secret_in rules) secret_tail_length read tail

  or-intro : (a b : Bool) → b ≡ true → (a || b) ≡ true
  or-intro a b h = ground (arith, h)

  or-either :
      (a a' b b' : Bool)
      → (a ≡ true → a' ≡ true)
      → (b ≡ true → b' ≡ true)
      → (a || b) ≡ true
      → (a' || b') ≡ true
  or-either true a' b b' h k e = ap (λ x. x || b') (h refl)
  or-either false a' b b' h k e = or-intro a' b' (k e)

  keywords-IsLocal : (ks : List Text) → IsLocal (keyword_in ks) (longest ks - 1)
  keywords-IsLocal ks = keyword_in-IsLocal (longest ks - 1) ks (omega arith)

  to_find-extend :
      (ks : List Text) (secrets : Bool) (a b : Text)
      → to_find ks secrets a ≡ true
      → to_find ks secrets (a ++ b) ≡ true
  to_find-extend ks secrets a b =
      or-either (keyword_in ks (casefold a)) (keyword_in ks (casefold (a ++ b)))
        (secrets && secret_in rules a) (secrets && secret_in rules (a ++ b))
        (λ h.
          ap (keyword_in ks) (casefold-append a b)
          ∙ (keywords-IsLocal ks).extend (casefold a) (casefold b) h)
        (secrets-extend secrets)
    where
      secrets-extend :
          (secrets : Bool)
          → (secrets && secret_in rules a) ≡ true
          → (secrets && secret_in rules (a ++ b)) ≡ true
      secrets-extend false h = h
      secrets-extend true h = secrets_near.extend a b h

  abbrev at : List Text → Bool → Text → Text → ResponseScanner
  at ks secrets tail secret_tail = record {
    keywords = ks;
    secrets = secrets;
    tail = tail;
    keep = longest ks - 1;
    secret_tail = secret_tail;
  }

  -- What a scanner answers that has read a text.
  abbrev Outcome : List Text → Bool → Text → ResponseScanner × Option Text → Type 0
  Outcome ks secrets read (scanner, some label) = to_find ks secrets read ≡ true
  Outcome ks secrets read (scanner, none) =
      (tail : Text) × (secret_tail : Text) × (scanner ≡ at ks secrets tail secret_tail)
      × WatchesKeywords ks read tail
      × WatchesSecrets secrets read secret_tail

  hit_of : {o o' : Option Text} {b : Bool} → o ≡ o' → is_hit o' ≡ b → is_hit o ≡ b
  hit_of e h = ap is_hit e ∙ h

  secret_found-Outcome :
      (ks : List Text) (read tail secret_tail piece : Text) (o : Option Text)
      → match_secret rules (secret_tail ++ piece) ≡ o
      → WatchesKeywords ks (read ++ piece) tail
      → Follows (secret_in rules) secret_tail_length read secret_tail
      → Outcome ks true
          (read ++ piece)
          (secret_found casefold rules (at ks true tail secret_tail) (secret_tail ++ piece) o)
  secret_found-Outcome ks read tail secret_tail piece none e w f = (
    tail,
    last secret_tail_length (secret_tail ++ piece),
    refl,
    w,
    Follows-next (secret_in rules) secret_tail_length secrets_near read secret_tail piece f
        (hit_of e refl),
  )
  secret_found-Outcome ks read tail secret_tail piece (some label) e w f =
      or-intro (keyword_in ks (casefold (read ++ piece))) (secret_in rules (read ++ piece)) (
        Follows-hit (secret_in rules) secret_tail_length secrets_near read secret_tail piece f
          (hit_of e refl))

  feed_secrets-Outcome :
      (ks : List Text) (secrets : Bool) (read tail secret_tail piece : Text)
      → WatchesKeywords ks (read ++ piece) tail
      → WatchesSecrets secrets read secret_tail
      → Outcome ks secrets
          (read ++ piece)
          (feed_secrets casefold rules secrets (at ks secrets tail secret_tail) piece)
  feed_secrets-Outcome ks false read tail secret_tail piece w f = (tail, secret_tail, refl, w, tt)
  feed_secrets-Outcome ks true read tail secret_tail piece w f =
      secret_found-Outcome ks read tail secret_tail piece
        (match_secret rules (secret_tail ++ piece)) refl w f

  keyword_found-Outcome :
      (k : Text) (ks : List Text) (secrets : Bool) (read tail secret_tail piece : Text)
      (o : Option Text)
      → find_keyword (k ∷ ks) (tail ++ casefold piece) ≡ o
      → Follows (keyword_in (k ∷ ks)) (longest (k ∷ ks) - 1) (casefold read) tail
      → WatchesSecrets secrets read secret_tail
      → Outcome (k ∷ ks) secrets (read ++ piece) (
          keyword_found casefold rules
            (at (k ∷ ks) secrets tail secret_tail)
            piece
            (tail ++ casefold piece)
            o)
  keyword_found-Outcome k ks secrets read tail secret_tail piece none e f w =
      let n = longest (k ∷ ks) - 1 in
      feed_secrets-Outcome (k ∷ ks) secrets read (last n (tail ++ casefold piece)) secret_tail piece
        (subst (λ t. Follows (keyword_in (k ∷ ks)) n t (last n (tail ++ casefold piece)))
          (sym (casefold-append read piece))
          (Follows-next (keyword_in (k ∷ ks)) n (keywords-IsLocal (k ∷ ks)) (casefold read) tail
            (casefold piece) f (hit_of e refl)))
        w
  keyword_found-Outcome k ks secrets read tail secret_tail piece (some label) e f w =
      let n = longest (k ∷ ks) - 1 in
      or-either true (keyword_in (k ∷ ks) (casefold (read ++ piece))) false
        (secrets && secret_in rules (read ++ piece))
        (λ h.
          ap (keyword_in (k ∷ ks)) (casefold-append read piece)
          ∙ Follows-hit (keyword_in (k ∷ ks)) n (keywords-IsLocal (k ∷ ks)) (casefold read) tail
              (casefold piece) f (hit_of e refl))
        (λ h. cc) refl

  feed_keywords-Outcome :
      (ks : List Text) (secrets : Bool) (read tail secret_tail piece : Text)
      → WatchesKeywords ks read tail
      → WatchesSecrets secrets read secret_tail
      → Outcome ks secrets
          (read ++ piece)
          (feed_keywords casefold rules ks (at ks secrets tail secret_tail) piece)
  feed_keywords-Outcome [] secrets read tail secret_tail piece w f =
      feed_secrets-Outcome [] secrets read tail secret_tail piece tt f
  feed_keywords-Outcome (k ∷ ks) secrets read tail secret_tail piece w f =
      keyword_found-Outcome k ks secrets read tail secret_tail piece
        (find_keyword (k ∷ ks) (tail ++ casefold piece)) refl w f

  feed-Outcome :
      (ks : List Text) (secrets : Bool) (read tail secret_tail piece : Text)
      → WatchesKeywords ks read tail
      → WatchesSecrets secrets read secret_tail
      → Outcome ks secrets
          (read ++ piece)
          (feed casefold rules (at ks secrets tail secret_tail) piece)
  unfolding feed
  feed-Outcome ks secrets read tail secret_tail [] w f =
      subst (λ t. Outcome ks secrets t (at ks secrets tail secret_tail, none))
        (sym (append_nil read)) (tail, secret_tail, refl, w, f)
  feed-Outcome ks secrets read tail secret_tail (c ∷ cs) w f =
      feed_keywords-Outcome ks secrets read tail secret_tail (c ∷ cs) w f

  Watches-clean :
      (ks : List Text) (secrets : Bool) (read tail secret_tail : Text)
      → WatchesKeywords ks read tail
      → WatchesSecrets secrets read secret_tail
      → to_find ks secrets read ≡ false
  unfolding find_keyword
  Watches-clean [] false read tail secret_tail w f = refl
  Watches-clean [] true read tail secret_tail w f = f.clean
  Watches-clean (k ∷ ks) false read tail secret_tail w f = ap (λ b. b || false) w.clean
  Watches-clean (k ∷ ks) true read tail secret_tail w f =
      ap (λ b. b || secret_in rules read) w.clean ∙ f.clean

  after_feed :
      (ks : List Text) (secrets : Bool) (pieces : List Text) (read : Text)
      (o : ResponseScanner × Option Text)
      → ((tail secret_tail : Text)
          → WatchesKeywords ks read tail
          → WatchesSecrets secrets read secret_tail
          → is_hit (scan casefold rules (at ks secrets tail secret_tail) pieces)
            ≡ to_find ks secrets (read ++ whole pieces))
      → Outcome ks secrets read o
      → is_hit (elim o.1 [ some label ↦ some label | none ↦ scan casefold rules o.0 pieces ])
        ≡ to_find ks secrets (read ++ whole pieces)
  after_feed ks secrets pieces read (scanner, some label) rest h =
      sym (to_find-extend ks secrets read (whole pieces) h)
  after_feed ks secrets pieces read (scanner, none) rest (tail, secret_tail, same, w, f) =
      ap (λ s. is_hit (scan casefold rules s pieces)) same ∙ rest tail secret_tail w f

  scan-rest :
      (ks : List Text) (secrets : Bool) (pieces : List Text) (read tail secret_tail : Text)
      → WatchesKeywords ks read tail
      → WatchesSecrets secrets read secret_tail
      → is_hit (scan casefold rules (at ks secrets tail secret_tail) pieces)
        ≡ to_find ks secrets (read ++ whole pieces)
  unfolding scan
  scan-rest ks secrets [] read tail secret_tail w f = sym (
      ap (to_find ks secrets) (append_nil read)
      ∙ Watches-clean ks secrets read tail secret_tail w f)
  scan-rest ks secrets (piece ∷ pieces) read tail secret_tail w f =
      after_feed ks secrets pieces (read ++ piece)
        (feed casefold rules (at ks secrets tail secret_tail) piece)
        (λ tail' secret_tail'. scan-rest ks secrets pieces (read ++ piece) tail' secret_tail')
        (feed-Outcome ks secrets read tail secret_tail piece w f)
      ∙ ap (to_find ks secrets) (append_assoc read piece (whole pieces))

  no_keywords : (ks : List Text) → keyword_in ks [] ≡ false → WatchesKeywords ks [] []
  no_keywords [] h = tt
  no_keywords (k ∷ ks) h = record {
    cut = ap (last (longest (k ∷ ks) - 1)) (sym casefold-nil);
    clean = ap (keyword_in (k ∷ ks)) casefold-nil ∙ h;
  }

  no_secrets : (secrets : Bool) → WatchesSecrets secrets [] []
  unfolding match_secret
  no_secrets false = tt
  no_secrets true = record { cut = refl; clean = refl }

  -- The scanner of a streamed answer reports a hit in some piece exactly when the whole text,
  -- case-folded, contains a keyword, or, where secrets are scanned for, matches a secret pattern,
  -- however the text is cut into pieces, where no keyword is empty, folding works by characters,
  -- and a match needs no more than 181 characters.
  pub scan-to_find :
      (keywords : List Text) (secrets : Bool) (pieces : List Text)
      → keyword_in keywords [] ≡ false
      → is_hit (scan casefold rules (new_scanner keywords secrets) pieces) ≡ (
          keyword_in keywords (casefold (whole pieces))
          || (secrets && secret_in rules (whole pieces)))
  unfolding new_scanner
  scan-to_find keywords secrets pieces named =
      scan-rest keywords secrets pieces [] [] [] (no_keywords keywords named) (no_secrets secrets)
