-- ===== src/Failover/Usage.antt =====
-- What a channel reports as used, and what is read off a stream that reports nothing: the first part
-- of backend/app/services/proxy.py.
use Prim.Native.Char.{Char}
use Prim.Native.String.{len, slice, ◌++◌, find}
use text.Mathlib.Text.{starts_with}
use five_api.Base.{
  ℕ, ◌+◌, ◌-◌, ◌/◌, String, Bool, true, false, not, ◌&&◌, ◌||◌, Option, none, some, List, [], ◌∷◌,
  str_eq, leb, if◌then◌else◌, Result, ok, err, ◌>>=◌,
}
use five_api.Base.Int.{ℤ, pos}
use five_api.Base.Json.{
  Json, null, int, str, arr, obj, Items, nil, cons, Fields, end, truthy, get_field, find_field,
  is_empty,
}
use five_api.Pricing.Tokens.{is_cjk}
use five_api.Failover.Texts.{Texts}
use five_api.Failover.Outcome.{is_str}

-- A dict of these fields, with the values as the channel sent them.
pub record OpenaiUsage : Type 0 where
  pub reported_prompt : Bool
  pub reported_completion : Bool
  pub prompt_tokens : Json
  pub completion_tokens : Json
  pub cached_tokens : Json
  pub cache_write_tokens : ℤ

abbrev pub is_there : Option Json → Bool
is_there none = false
is_there (some v) = true

abbrev pub or_given : Option Json → Json → Json
or_given none fallback = fallback
or_given (some v) fallback = v

-- `value or {}`, of which fields are read.
abbrev pub dict_or_empty : Json → Result String Fields
dict_or_empty (obj fs) = ok fs
dict_or_empty v = if truthy v then err "AttributeError" else ok end

-- `value or []`, which is walked for its objects: a text and an object have none.
abbrev pub items_or_empty : Json → Result String Items
items_or_empty (arr xs) = ok xs
items_or_empty (obj fs) = ok nil
items_or_empty (str s) = ok nil
items_or_empty v = if truthy v then err "TypeError" else ok nil

module _ (int_of : Json → Result String ℤ) where
  -- The first value that is not None; `int_of` is Python's `int`.
  unfoldable pub first_count : List Json → Result String ℤ
  first_count [] = ok (pos 0)
  first_count (null ∷ vs) = first_count vs
  first_count (v ∷ vs) = if truthy v then int_of v else ok (pos 0)

  unfoldable pub extract_openai_usage : Fields → Result String OpenaiUsage
  unfolding first_count
  extract_openai_usage body = do
    usage ← dict_or_empty (get_field "usage" body)
    details ← dict_or_empty (get_field "prompt_tokens_details" usage)
    written ← first_count (
        get_field "cache_write_tokens" usage
        ∷ get_field "cache_write_tokens" details
        ∷ get_field "cache_creation_input_tokens" usage
        ∷ [])
    ok (record {
      reported_prompt = is_there (find_field "prompt_tokens" usage);
      reported_completion = is_there (find_field "completion_tokens" usage);
      prompt_tokens = or_given (find_field "prompt_tokens" usage) (int (pos 0));
      completion_tokens = or_given (find_field "completion_tokens" usage) (int (pos 0));
      cached_tokens =
          or_given (find_field "cached_tokens" details)
            (or_given (find_field "prompt_cache_hit_tokens" usage) (int (pos 0)));
      cache_write_tokens = written;
    })

-- FINAL_EVENT_TYPES
abbrev pub is_final_type : Json → Bool
is_final_type type =
    is_str "message_stop" type
    || is_str "response.completed" type
    || is_str "response.incomplete" type

-- `part in text`
abbrev pub contains : String → String → Bool
contains part text = leb (find text part) (len text)

module _ (texts : Texts) where
  open texts use {loads, strip, splitlines}

  -- `part[5:].strip()`
  abbrev pub payload_of : String → String
  payload_of part = strip (slice part 5 (len part))

  abbrev pub is_final_payload : Option Json → Bool
  is_final_payload (some (obj event)) = is_final_type (get_field "type" event)
  is_final_payload _ = false

  -- The first part with data decides.
  abbrev pub is_final_part : List String → Bool
  is_final_part [] = false
  is_final_part (part ∷ parts) =
      let rest = is_final_part parts in
      if not (starts_with part "data:")
      then rest
      else str_eq (payload_of part) "[DONE]" || is_final_payload (loads (payload_of part))

  unfoldable pub is_final_sse_event : String → Bool
  is_final_sse_event line =
      if contains "[DONE]" line
        || contains "message_stop" line
        || contains "response.completed" line
        || contains "response.incomplete" line
      then is_final_part (splitlines line)
      else false

  -- The text of a value that is one, before the pieces that follow it.
  abbrev pub text_piece : Json → String → String
  text_piece (str s) rest = s ++ rest
  text_piece _ rest = rest

  abbrev pub call_pieces : Items → Result String String
  call_pieces nil = ok ""
  call_pieces (cons (obj call) calls) = do
    function ← dict_or_empty (get_field "function" call)
    later ← call_pieces calls
    ok (text_piece (get_field "arguments" function) later)
  call_pieces (cons _ calls) = call_pieces calls

  abbrev pub choice_pieces : Items → Result String String
  choice_pieces nil = ok ""
  choice_pieces (cons (obj choice) choices) = do
    delta ← dict_or_empty (get_field "delta" choice)
    calls ← items_or_empty (get_field "tool_calls" delta)
    arguments ← call_pieces calls
    later ← choice_pieces choices
    ok (
        text_piece (get_field "content" delta) (
          text_piece (get_field "reasoning_content" delta)
            (text_piece (get_field "reasoning" delta) (arguments ++ later))))
  choice_pieces (cons _ choices) = choice_pieces choices

  abbrev pub ends_with : String → String → Bool
  ends_with text suffix =
      leb (len suffix) (len text) && str_eq (slice text (len text - len suffix) (len text)) suffix

  abbrev pub is_delta_type : Json → Bool
  is_delta_type (str type) = ends_with type ".delta"
  is_delta_type _ = false

  -- The pieces of `data.get("delta")`.
  abbrev pub delta_pieces : Json → Json → String
  delta_pieces (obj delta) type =
      text_piece (get_field "text" delta)
        (text_piece (get_field "thinking" delta) (text_piece (get_field "partial_json" delta) ""))
  delta_pieces (str delta) type = if is_delta_type type then delta else ""
  delta_pieces _ type = ""

  abbrev pub event_text : Option Json → Result String String
  event_text (some (obj event)) = do
    choices ← items_or_empty (get_field "choices" event)
    pieces ← choice_pieces choices
    ok (pieces ++ delta_pieces (get_field "delta" event) (get_field "type" event))
  event_text _ = ok ""

  abbrev pub first_payload : List String → String
  first_payload [] = ""
  first_payload (part ∷ parts) =
      let rest = first_payload parts in if starts_with part "data:" then payload_of part else rest

  unfoldable pub sse_billable_text : String → Result String String
  sse_billable_text line =
      let payload = first_payload (splitlines line) in
      if is_empty payload || str_eq payload "[DONE]" then ok "" else event_text (loads payload)

-- _OutputMeter
pub record OutputMeter : Type 0 where
  pub cjk : ℕ
  pub other : ℕ

abbrev pub new_meter : OutputMeter
new_meter = record { cjk = 0; other = 0 }

abbrev pub count_char : Char → OutputMeter → OutputMeter
count_char c m = if is_cjk c then record m { cjk = m.cjk + 1 } else record m { other = m.other + 1 }

unfoldable pub meter_feed : String → OutputMeter → OutputMeter
meter_feed String.[] m = m
meter_feed (String.◌∷◌ c s) m = meter_feed s (count_char c m)

unfoldable pub meter_tokens : OutputMeter → ℕ
meter_tokens m = m.cjk + (m.other + 3) / 4
