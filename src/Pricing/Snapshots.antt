-- ===== src/Pricing/Snapshots.antt =====
-- The price snapshots of a request: which prices they hold, and that no candidate lacks one.
use five_api.Base.{
  ◌||◌, str_eq, ℕ, zero, suc, String, ◌≡◌, refl, ◌≢◌, ◌↔◌, true, Option, none, some, List, [], ◌∷◌,
  arith, eq_iff, if◌then◌else◌, get_elem?, Result, ok, Result-cases, inl, inr,
}
use five_api.Models.{
  ModelPrice, Channel, Quote, Quotes, SnapshotKey, default, at_channel, from_global,
}
use five_api.Pricing.Quotes.{
  get, first_present, quote_names, channel_override, row_prices, channel_multiplier, has_name,
  price_rows, quote, pick_quote, selling_quote, Candidate, target_model, mapped_model, same_key,
  put_snapshot, Unavailable, snapshot_candidates, snapshot_quotes,
}
use five_api.Pricing.Bounds.{snapshot_at}

same_key_iff : (j k : SnapshotKey) → (same_key j k ≡ true) ↔ (j ≡ k)
same_key_iff default default = ground arith
same_key_iff default (at_channel c m) = ground arith
same_key_iff (at_channel c m) default = ground arith
same_key_iff (at_channel c m) (at_channel d n) = ground (arith, eq_iff m n)

snapshot_at-put_snapshot :
    (k j : SnapshotKey) (q : Quote) (qs : Quotes)
    → snapshot_at k (put_snapshot j q qs) ≡ (if same_key j k then some q else snapshot_at k qs)
unfolding snapshot_at
snapshot_at-put_snapshot k j q [] = refl
snapshot_at-put_snapshot k j q (e ∷ qs) = ground (
  arith,
  same_key_iff e.0 j,
  same_key_iff e.0 k,
  same_key_iff j k,
  snapshot_at-put_snapshot k j q qs,
)

-- The key under which the price of a candidate is kept.
abbrev pub candidate_key : String → Candidate → SnapshotKey
candidate_key model c = at_channel c.channel.id (mapped_model c.channel (target_model c model))

module _ (model : String) (table : List (String × ModelPrice)) where
  -- The quote of a candidate.
  abbrev quoted : Candidate → Result Unavailable Quote
  quoted c =
      let target = target_model c model in
      selling_quote (mapped_model c.channel target) target (some c.channel) table

  -- A snapshot that succeeds has priced its first candidate, and goes on from there.
  first-quoted :
      (c : Candidate) (cs : List Candidate) (acc qs : Quotes)
      → snapshot_candidates model table acc (c ∷ cs) ≡ ok qs
      → (q : Quote) × (quoted c ≡ ok q)
        × (snapshot_candidates model table (put_snapshot (candidate_key model c) q acc) cs ≡ ok qs)
  unfolding snapshot_candidates
  first-quoted c cs acc qs h = elim (Result-cases (quoted c)) [
    | inl (e, refused) ↦ absurd (ground arith)
    | inr (q, priced) ↦ (q, priced, ground arith)
  ]

  kept :
      (k : SnapshotKey) (acc qs : Quotes) (cs : List Candidate)
      → snapshot_candidates model table acc cs ≡ ok qs
      → snapshot_at k acc ≢ none
      → snapshot_at k qs ≢ none
  kept k acc qs [] h p = unfold snapshot_candidates in ground arith
  kept k acc qs (c ∷ cs) h p =
      let (q, priced, rest) = first-quoted c cs acc qs h in
      let j = candidate_key model c in
      kept k (put_snapshot j q acc) qs cs rest (ground (arith, snapshot_at-put_snapshot k j q acc))

  covered :
      (n : ℕ) (c : Candidate) (acc qs : Quotes) (cs : List Candidate)
      → snapshot_candidates model table acc cs ≡ ok qs
      → get_elem? cs n ≡ some c
      → snapshot_at (candidate_key model c) qs ≢ none
  covered n c acc qs [] h m = ground arith
  covered zero c acc qs (d ∷ cs) h m =
      let (q, priced, rest) = first-quoted d cs acc qs h in
      let j = candidate_key model d in
      let same : d ≡ c = cc in
      rw (← same) (
        kept j (put_snapshot j q acc) qs cs rest
          (ground (arith, snapshot_at-put_snapshot j j q acc, same_key_iff j j)))
  covered (suc n) c acc qs (d ∷ cs) h m =
      let (q, priced, rest) = first-quoted d cs acc qs h in
      covered n c (put_snapshot (candidate_key model d) q acc) qs cs rest m

-- Where the snapshot of a request succeeds, every candidate channel has a price in it.
pub snapshot_quotes-covers :
    (model : String) (table : List (String × ModelPrice)) (cs : List Candidate) (qs : Quotes)
    (n : ℕ) (c : Candidate)
    → snapshot_quotes model table cs ≡ ok qs
    → get_elem? cs n ≡ some c
    → snapshot_at (candidate_key model c) qs ≢ none
unfolding snapshot_quotes
snapshot_quotes-covers model table [] qs n c h m = cc
snapshot_quotes-covers model table (d ∷ cs) qs n c h m = covered model table n c [] qs (d ∷ cs) h m

get-price_rows :
    (n : String) (names : List String) (table : List (String × ModelPrice))
    → has_name n names ≡ true
    → get n (price_rows names table) ≡ get n table
unfolding get price_rows
get-price_rows n names [] h = refl
get-price_rows n names ((m, row) ∷ table) h =
    ground (arith, eq_iff m n, get-price_rows n names table h)

quote_names-alias :
    (model alias : String)
    → alias ≢ ""
    → (rest : List String) × (quote_names model alias ≡ alias ∷ rest)
unfolding quote_names
quote_names-alias model alias named = (
  if str_eq model "" || str_eq model alias then [] else model ∷ [],
  ground (arith, eq_iff alias ""),
)

first_present-alias :
    (model alias : String) (table : List (String × ModelPrice)) (row : ModelPrice)
    → alias ≢ ""
    → get alias table ≡ some row
    → let names = quote_names model alias in first_present names (price_rows names table) ≡ some row
unfolding first_present
first_present-alias model alias table row named found =
    let (rest, e) = quote_names-alias model alias named in
    rw e (
      ground
        (arith, get-price_rows alias (alias ∷ rest) table (ground (arith, eq_iff alias alias))))

-- A model that is sold under an alias with a price of its own is sold at that price, whatever the
-- price of the upstream name, if the row is active and the channel fixes no price.
pub selling_quote_alias_wins :
    (model alias : String) (ch : Option Channel) (table : List (String × ModelPrice))
    (row : ModelPrice)
    → alias ≢ ""
    → get alias table ≡ some row
    → row.is_active ≡ true
    → channel_override ch (quote_names model alias) ≡ none
    → selling_quote model alias ch table
      ≡ ok (quote model from_global (row_prices row) (channel_multiplier ch))
unfolding selling_quote pick_quote
selling_quote_alias_wins model alias ch table row named found active free =
    ground (arith, first_present-alias model alias table row named found)
