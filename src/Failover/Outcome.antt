-- ===== src/Failover/Outcome.antt =====
-- The events of a stream: backend/app/services/stream_outcomes.py.
use Prim.Native.String.{len, slice, ◌++◌}
use text.Mathlib.Text.{starts_with}
use five_api.Base.{
  ℕ, suc, String, Bool, true, false, not, ◌&&◌, ◌||◌, Option, none, some, List, [], ◌∷◌, str_eq,
  if◌then◌else◌,
}
use five_api.Base.Int.{ℤ, pos, eqb_ℤ}
use five_api.Base.Json.{
  Json, null, bool, int, str, obj, Items, nil, cons, Fields, end, field, get_field, find_field,
  is_empty, or_else, fields_of, items_of,
}
use five_api.Failover.Texts.{Texts}
use five_api.Failover.Errors.{Failure, stream_error}

abbrev pub error_statuses : List (String × ℕ)
error_statuses =
    ("invalid_request_error", 400)
    ∷ ("context_length_exceeded", 400)
    ∷ ("authentication_error", 401)
    ∷ ("invalid_api_key", 401)
    ∷ ("permission_error", 403)
    ∷ ("not_found_error", 404)
    ∷ ("model_not_found", 404)
    ∷ ("rate_limit_error", 429)
    ∷ ("rate_limit_exceeded", 429)
    ∷ ("insufficient_quota", 429)
    ∷ ("server_is_overloaded", 503)
    ∷ ("overloaded_error", 529)
    ∷ []

abbrev pub status_named : String → List (String × ℕ) → Option ℕ
status_named name [] = none
status_named name ((n, status) ∷ rows) =
    let rest = status_named name rows in if str_eq n name then some status else rest

abbrev pub or_status : Option ℕ → ℕ → ℕ
or_status none fallback = fallback
or_status (some status) fallback = status

-- The chat and completion endpoints, whose streams end with a data line of their own.
abbrev pub ends_with_done : String → Bool
ends_with_done endpoint =
    str_eq endpoint "/v1/chat/completions" || str_eq endpoint "/v1/completions"

abbrev pub is_str : String → Json → Bool
is_str s (str t) = str_eq t s
is_str s _ = false

-- The sets of choices are lists; `lines` is the data of the event that is being read.
pub record StreamOutcome : Type 0 where
  pub endpoint : String
  pub terminal : Bool
  pub choices : List ℤ
  pub finished_choices : List ℤ
  pub lines : List String

abbrev pub new_outcome : String → StreamOutcome
new_outcome endpoint = record {
  endpoint = endpoint;
  terminal = false;
  choices = [];
  finished_choices = [];
  lines = [];
}

abbrev pub has_choice : ℤ → List ℤ → Bool
has_choice i [] = false
has_choice i (j ∷ js) = eqb_ℤ j i || has_choice i js

abbrev pub within : List ℤ → List ℤ → Bool
within [] js = true
within (i ∷ is) js = has_choice i js && within is js

abbrev pub is_nonempty : List ℤ → Bool
is_nonempty [] = false
is_nonempty (i ∷ is) = true

unfoldable pub finished : StreamOutcome → Bool
finished o = o.terminal || (is_nonempty o.choices && within o.choices o.finished_choices)

-- What a chunk leaves: the stream goes on, or it fails.
pub data Fed : Type 0 where
  goes_on : StreamOutcome → Fed
  fails : Failure → Fed

module _ (texts : Texts) where
  open texts use {loads, dumps, show, strip, splitlines, rstrip_newlines}

  abbrev pub error_status : Fields → ℕ
  error_status error =
      or_status (status_named (show (get_field "type" error)) error_statuses)
        (or_status (status_named (show (get_field "code" error)) error_statuses) 502)

  unfoldable pub upstream_stream_error : Fields → String → Bool → List (String × String) → Failure
  upstream_stream_error error event unfinished headers = record {
    kind =
        stream_error
          (record {
            status_code = error_status error;
            error_in_ok = true;
            text = some (dumps (obj (field "error" (obj error) end)));
            headers = headers;
          })
          event unfinished;
    message = show (
        or_else (get_field "message" error)
          (or_else (get_field "code" error) (str "Upstream stream error")));
  }

  -- `"\n".join(lines)`
  abbrev pub join_lines : List String → String
  join_lines [] = ""
  join_lines (l ∷ []) = l
  join_lines (l ∷ m ∷ ms) = l ++ ("\n" ++ join_lines (m ∷ ms))

  abbrev pub append_line : List String → String → List String
  append_line [] l = l ∷ []
  append_line (m ∷ ms) l = m ∷ append_line ms l

  -- `line[5:].removeprefix(" ")`
  abbrev pub data_of : String → String
  data_of line =
      let rest = slice line 5 (len line) in
      if starts_with rest " " then slice rest 1 (len rest) else rest

  abbrev pub failed_response : Json → Fields
  failed_response (obj error) = error
  failed_response _ =
      field "type" (str "server_error") (field "message" (str "Upstream response failed") end)

  abbrev pub wrapped_error : Json → Fields → Fields
  wrapped_error (obj error) event = error
  wrapped_error error event = field "type" (str "server_error") (
      field "code" (get_field "code" event) (
        field "message"
          (or_else error (or_else (get_field "message" event) (str "Upstream stream error"))) end))

  -- `isinstance(error, (dict, str))`
  abbrev pub is_error_value : Json → Bool
  is_error_value (obj error) = true
  is_error_value (str error) = true
  is_error_value _ = false

  -- The error that an event reports, if it reports one.
  unfoldable pub event_error : Fields → Option Fields
  event_error event =
      if is_str "response.failed" (get_field "type" event)
      then some (failed_response (get_field "error" (fields_of (get_field "response" event))))
      else if is_str "error" (get_field "type" event) || is_error_value (get_field "error" event)
      then some (wrapped_error (get_field "error" event) event)
      else none

  -- `choice.get("index", index)`, where it is an int; a bool is one.
  abbrev pub choice_index : Option Json → ℕ → Option ℤ
  choice_index none i = some (pos i)
  choice_index (some (int j)) i = some j
  choice_index (some (bool b)) i = some (if b then pos 1 else pos 0)
  choice_index (some _) i = none

  abbrev pub is_null : Json → Bool
  is_null null = true
  is_null _ = false

  abbrev pub note_index : Option ℤ → Bool → StreamOutcome → StreamOutcome
  note_index none ended o = o
  note_index (some i) ended o = record o {
    choices = i ∷ o.choices;
    finished_choices = if ended then i ∷ o.finished_choices else o.finished_choices;
  }

  abbrev pub note_choice : ℕ → Json → StreamOutcome → StreamOutcome
  note_choice i (obj choice) o =
      note_index (choice_index (find_field "index" choice) i)
        (not (is_null (get_field "finish_reason" choice))) o
  note_choice i _ o = o

  abbrev pub note_choices : ℕ → Items → StreamOutcome → StreamOutcome
  note_choices i nil o = o
  note_choices i (cons choice rest) o = note_choices (suc i) rest (note_choice i choice o)

  unfoldable pub note_event : Fields → StreamOutcome → StreamOutcome
  note_event event o =
      let type = get_field "type" event in
      if str_eq o.endpoint "/v1/messages"
      then record o { terminal = o.terminal || is_str "message_stop" type }
      else if str_eq o.endpoint "/v1/responses"
      then record o {
        terminal =
            o.terminal || (is_str "response.completed" type || is_str "response.incomplete" type);
      }
      else if ends_with_done o.endpoint
      then note_choices 0 (items_of (get_field "choices" event)) o
      else o

  abbrev pub after_event :
      String → List (String × String) → Fields → Option Fields → StreamOutcome → Fed
  after_event chunk headers event none o = goes_on (note_event event o)
  after_event chunk headers event (some error) o =
      fails (upstream_stream_error error (rstrip_newlines chunk ++ "\n\n") false headers)

  abbrev pub read_event : String → List (String × String) → Option Json → StreamOutcome → Fed
  read_event chunk headers (some (obj event)) o =
      after_event chunk headers event (event_error event) o
  read_event chunk headers _ o = goes_on o

  abbrev pub feed_payload : String → List (String × String) → String → StreamOutcome → Fed
  feed_payload chunk headers payload o =
      if str_eq payload "[DONE]"
      then goes_on (record o { terminal = o.terminal || ends_with_done o.endpoint })
      else read_event chunk headers (loads payload) o

  unfoldable pub feed_line : String → List (String × String) → String → StreamOutcome → Fed
  unfolding note_event event_error upstream_stream_error
  feed_line chunk headers line o =
      let read = append_line o.lines (data_of line) in
      if is_empty line
      then goes_on (record o { lines = [] })
      else if not (starts_with line "data:")
      then goes_on o
      else feed_payload chunk headers (strip (join_lines read)) (record o { lines = read })

  abbrev pub feed_next : Fed → (StreamOutcome → Fed) → Fed
  feed_next (goes_on o) rest = rest o
  feed_next (fails e) rest = fails e

  unfoldable pub feed_lines : String → List (String × String) → List String → StreamOutcome → Fed
  unfolding feed_line
  feed_lines chunk headers [] o = goes_on o
  feed_lines chunk headers (l ∷ ls) o =
      feed_next (feed_line chunk headers l o) λ o'. feed_lines chunk headers ls o'

  unfoldable pub feed : String → List (String × String) → StreamOutcome → Fed
  unfolding feed_lines
  feed chunk headers o = feed_lines chunk headers (splitlines chunk) o

  abbrev pub incomplete : Fields
  incomplete = field "type" (str "server_error") (
      field "code" (str "stream_incomplete")
        (field "message" (str "Upstream stream ended before a terminal event") end))

  unfoldable pub eof_error : List (String × String) → StreamOutcome → Option Failure
  unfolding finished upstream_stream_error
  eof_error headers o =
      if finished o then none else some (upstream_stream_error incomplete "" true headers)
