-- ===== src/Failover/Keys.antt =====
-- Several upstream keys on one channel, and the counts of a channel's attempts:
-- backend/app/services/key_pool.py, the key methods of BaseProvider in backend/app/providers/base.py, and
-- begin_attempt and end_attempt of backend/app/services/channel_stats.py.
use Prim.Native.Nat.{◌%◌}
use mathlib.Core.Option
use five_api.Base.{
  ℕ, ◌+◌, ◌-◌, min, max, String, Bool, true, false, not, Option, none, some, List, [], ◌∷◌, ◌||◌,
  ◌/◌, str_eq, leb, ltb, ◌==◌, if◌then◌else◌, length, keep_if, get_elem?,
}
use five_api.Base.Int.{pos, negsuc, pos_part}
use five_api.Models.{Channel}
use five_api.Redis.{Redis, key_cooling, key_turn, inflight, is_present, or_zero}
use five_api.Pricing.Quotes.{get}
use five_api.Failover.Texts.{Texts}
use five_api.Failover.Errors.{Kind, response_of, status_of, satisfies, is_credential_status}

-- A BaseProvider: its channel, the channel's decrypted keys and the one in use, and the model that a
-- fallback serves.
pub record Provider : Type 0 where
  pub channel : Channel
  pub keys : List String
  pub api_key : String
  pub model_override : Option String

abbrev pub first_key : List String → String
first_key [] = ""
first_key (k ∷ ks) = k

abbrev pub new_provider : Channel → List String → Option String → Provider
new_provider ch keys model = record {
  channel = ch;
  keys = keys;
  api_key = first_key keys;
  model_override = model;
}

unfoldable pub apply_model_mapping : Provider → String → String
unfolding get
apply_model_mapping p model =
    let served = Option.get_or p.model_override model in
    Option.get_or (get served p.channel.model_mapping) served

-- KEY_STATUSES
abbrev pub is_key_status : ℕ → Bool
is_key_status n = is_credential_status n || (n == 429)

abbrev pub bounded : ℕ → ℕ
bounded n = min (max n 1) 3_600

module _ (texts : Texts) where
  open texts use {whole, until_date}

  -- Seconds by the text of Retry-After; a text that is neither number nor date has the default.
  abbrev pub seconds_after : String → ℕ → ℕ
  seconds_after raw default = elim (whole raw) [
    | some n ↦ bounded (n + 1)
    | none ↦ elim (until_date raw) [ some n ↦ bounded (n + 1) | none ↦ default ]
  ]

  abbrev pub millis_after : Option ℕ → ℕ → ℕ
  millis_after none default = default
  millis_after (some n) default = bounded (n / 1_000 + 1)

  abbrev pub retry_after_header : Option String → Option String → ℕ → ℕ
  retry_after_header (some ms) raw default = millis_after (whole ms) default
  retry_after_header none none default = default
  retry_after_header none (some raw) default = seconds_after raw default

  unfoldable pub retry_after_seconds : Kind → ℕ → ℕ
  unfolding get
  retry_after_seconds k default = elim (response_of k) [
    | none ↦ default
    | some r ↦
        retry_after_header (get "retry-after-ms" r.headers) (get "retry-after" r.headers) default
  ]

  unfoldable pub cooldown_for : Kind → ℕ
  unfolding retry_after_seconds
  cooldown_for k =
      if satisfies (λ n. n == 429) (status_of (response_of k))
      then retry_after_seconds k 30
      else 600

-- `fingerprint` is the hash of a key, and `session_index` that of a session, as a number.
module _ (r : Redis) (fingerprint session_index : String → ℕ) where
  open r use {Store, get, set, incrby}

  abbrev pub is_ready : ℕ → Store → String → Bool
  is_ready id s key = not (is_present (get (key_cooling id (fingerprint key)) s))

  unfoldable pub available_keys : ℕ → List String → Store → List String
  available_keys id keys s =
      let ready = keep_if (is_ready id s) keys in if leb (length keys) 1 then keys else ready

  abbrev pub or_all : List String → List String → List String
  or_all [] keys = keys
  or_all (k ∷ ks) keys = k ∷ ks

  abbrev pub key_at : ℕ → List String → String
  key_at i ready = Option.get_or (get_elem? ready (i % length ready)) ""

  -- A session keeps its key; other calls take turns.
  abbrev pub pick_ready : ℕ → List String → Option String → Store → Store × String
  pick_ready id ready (some session) s = (s, key_at (session_index session) ready)
  pick_ready id ready none s =
      let counted = incrby (key_turn id) (pos 1) s in
      (counted, key_at (pos_part (or_zero (get (key_turn id) counted))) ready)

  unfoldable pub pick_key : ℕ → List String → Option String → Store → Store × String
  unfolding available_keys
  pick_key id [] session s = (s, "")
  pick_key id (k ∷ []) session s = (s, k)
  pick_key id (k ∷ l ∷ ls) session s =
      pick_ready id (or_all (available_keys id (k ∷ l ∷ ls) s) (k ∷ l ∷ ls)) session s

  unfoldable pub cool_down : ℕ → String → ℕ → ℕ → Store → Store
  cool_down id key seconds now s = set (key_cooling id (fingerprint key)) (pos (now + seconds)) s

  -- How many keys a channel has, and how many of them cool down.
  unfoldable pub pool_status : ℕ → List String → Store → ℕ × ℕ
  unfolding available_keys
  pool_status id keys s = (length keys, length keys - length (available_keys id keys s))

  abbrev pub is_any : List String → Bool
  is_any [] = false
  is_any (k ∷ ks) = true

  unfoldable pub has_ready_key : Provider → Store → Bool
  unfolding available_keys
  has_ready_key p s = leb (length p.keys) 1 || is_any (available_keys p.channel.id p.keys s)

  unfoldable pub select_key : Option String → Provider → Store → Store × Provider
  unfolding pick_key
  select_key session p s =
      let (s', key) = pick_key p.channel.id p.keys session s in
      if ltb 1 (length p.keys) then (s', record p { api_key = key }) else (s, p)

  abbrev pub first_other : List String → Option String
  first_other [] = none
  first_other (k ∷ ks) = some k

  abbrev pub rotated_to : Option String → Provider → Store → Store × Provider × Bool
  rotated_to none p s = (s, p, false)
  rotated_to (some key) p s = (s, record p { api_key = key }, true)

  -- `seconds` is the cooldown of the error at hand.
  unfoldable pub rotate_key : ℕ → ℕ → Provider → Store → Store × Provider × Bool
  unfolding cool_down available_keys
  rotate_key seconds now p s =
      let cooled = cool_down p.channel.id p.api_key seconds now s in
      let ready =
        keep_if (λ k. not (str_eq k p.api_key)) (available_keys p.channel.id p.keys cooled) in
      if leb (length p.keys) 1 then (s, p, false) else rotated_to (first_other ready) p cooled

-- Where Redis does not answer, an attempt is not counted.
module _ (r : Redis) (redis_up : Bool) where
  open r use {Store, incrby}

  unfoldable pub begin_attempt : ℕ → Store → Store
  begin_attempt id s = if redis_up then incrby (inflight id) (pos 1) s else s

  unfoldable pub end_attempt : ℕ → Store → Store
  end_attempt id s = if redis_up then incrby (inflight id) (negsuc 0) s else s
