-- ===== src/Failover/Meters.antt =====
-- The running estimate of a stream's output is the estimate of its whole text.
use Prim.Native.String.{◌++◌}
use text.Mathlib.TextLemmas.{nil-append, cons-append}
use five_api.Base.{ℕ, ◌≡◌, refl, ap, sym, ◌∙◌, Bool, false, List, [], ◌∷◌, arith, String}
use five_api.Base.Json.{str}
use five_api.Pricing.Tokens.{Counts, no_counts, walk_chars, is_blob, count_text_tokens, walk}
use five_api.Failover.Usage.{OutputMeter, new_meter, meter_feed, meter_tokens}

-- The chunks of a stream, one after another.
unfoldable pub feed_all : List String → OutputMeter → OutputMeter
feed_all [] m = m
feed_all (s ∷ ss) m = feed_all ss (meter_feed s m)

unfoldable pub joined : List String → String
joined [] = ""
joined (s ∷ ss) = s ++ joined ss

meter_feed-append :
    (s t : String) (m : OutputMeter) → meter_feed (s ++ t) m ≡ meter_feed t (meter_feed s m)
unfolding meter_feed
meter_feed-append String.[] t m = ap (λ u. meter_feed u m) (nil-append t)
meter_feed-append (String.◌∷◌ c s) t m =
    ap (λ u. meter_feed u m) (cons-append c s t) ∙ meter_feed-append s t _

feed_all-joined : (ss : List String) (m : OutputMeter) → feed_all ss m ≡ meter_feed (joined ss) m
unfolding feed_all joined meter_feed
feed_all-joined [] m = refl
feed_all-joined (s ∷ ss) m =
    feed_all-joined ss (meter_feed s m) ∙ sym (meter_feed-append s (joined ss) m)

module _ (first_chars : String → ℕ → String) (is_base64 : String → Bool) where
  abbrev Matches : OutputMeter → Counts → Type 0
  Matches m c = (m.cjk ≡ c.cjk) × (m.other ≡ c.other) × (c.blobs ≡ 0) × (c.explicit_tokens ≡ 0)

  walk_chars-Matches :
      (s : String) (m : OutputMeter) (c : Counts)
      → Matches m c
      → Matches (meter_feed s m) (walk_chars first_chars is_base64 s c)
  unfolding meter_feed walk_chars
  walk_chars-Matches String.[] m c h = h
  walk_chars-Matches (String.◌∷◌ x s) m c h = walk_chars-Matches s _ _ (ground arith)

  -- The running estimate over the pieces of a stream is the token estimate of the whole text,
  -- however it was cut, where the text is no blob.
  pub feed_all-count_text_tokens :
      (ss : List String)
      → is_blob first_chars is_base64 (joined ss) ≡ false
      → meter_tokens (feed_all ss new_meter)
        ≡ count_text_tokens first_chars is_base64 (str (joined ss))
  unfolding meter_tokens count_text_tokens walk
  feed_all-count_text_tokens ss h =
      let same = feed_all-joined ss new_meter in
      let counted = walk_chars-Matches (joined ss) new_meter no_counts (refl, refl, refl, refl) in
      rw h (ground (arith, same, counted))
