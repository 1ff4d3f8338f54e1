-- ===== src/Planning/Sessions.antt =====
-- Which requests make a session, and the channel that it keeps:
-- backend/app/services/sticky_session.py.

use five_api.Base.{
  ℕ, String, Bool, true, false, Option, none, some, List, [], ◌∷◌, ◌++◌, if◌then◌else◌, str_eq,
}
use five_api.Base.Int.{ℤ, pos, negsuc}
use five_api.Base.Json.{Json, str, arr, obj, Items, nil, cons, Fields, is_empty, truthy, get_field}
use five_api.Redis.{Redis, sticky}

abbrev pub session_headers : List String
session_headers =
    "x-session-id" ∷ "session_id" ∷ "session-id" ∷ "x-conversation-id" ∷ "x-claude-code-session-id"
    ∷ []

-- `value or None`
abbrev pub or_no_text : String → Option String
or_no_text s = if is_empty s then none else some s

abbrev pub is_user : Json → Bool
is_user (str role) = str_eq role "user"
is_user _ = false

-- The content of the first message of the user.
unfoldable pub first_user : Items → Option Json
first_user nil = none
first_user (cons (obj msg) rest) =
    let later = first_user rest in
    if is_user (get_field "role" msg) then some (get_field "content" msg) else later
first_user (cons _ rest) = first_user rest

-- What is taken from Python's library for texts.
pub record SessionTexts : Type 0 where
  -- `str.strip`
  pub strip : String → String
  -- `json.dumps` with sorted keys.
  pub dumps_sorted : Json → String
  -- The first 32 hexadecimal digits of the SHA-256 of texts joined by a separator.
  pub digest : List String → String
  -- What follows the last "session_" of a text that has one.
  pub after_session : String → Option String
  -- The text of a session's key by the identifiers, and the text of an identifier.
  pub key_text : ℕ → String → String
  pub show_id : ℕ → String

module _ (t : SessionTexts) where
  abbrev pub system_part : Json → List String
  system_part system = if truthy system then t.dumps_sorted system ∷ [] else []

  abbrev pub dumped : Option Json → List String
  dumped none = []
  dumped (some content) = t.dumps_sorted content ∷ []

  unfoldable pub user_part : Json → List String
  unfolding first_user
  user_part (arr messages) = dumped (first_user messages)
  user_part _ = []

  abbrev pub digest_of : List String → Option String
  digest_of [] = none
  digest_of (part ∷ parts) = some (t.digest (part ∷ parts))

  unfoldable pub fingerprint_from_body : Fields → Option String
  unfolding user_part
  fingerprint_from_body body =
      digest_of (system_part (get_field "system" body) ++ user_part (get_field "messages" body))

  abbrev pub session_in : Option String → Option String
  session_in none = none
  session_in (some id) = or_no_text (t.strip id)

  abbrev pub user_session : Json → Option String
  user_session (str user_id) = session_in (t.after_session user_id)
  user_session _ = none

  unfoldable pub metadata_session : Json → Option String
  metadata_session (obj metadata) = user_session (get_field "user_id" metadata)
  metadata_session _ = none

  abbrev pub or_text : Option String → Option String → Option String
  or_text none other = other
  or_text (some s) other = some s

  abbrev pub body_session : Json → Option String
  unfolding metadata_session fingerprint_from_body
  body_session (obj body) =
      or_text (metadata_session (get_field "metadata" body)) (fingerprint_from_body body)
  body_session _ = none

  abbrev pub or_header : Option String → Option String → Option String
  or_header none later = later
  or_header (some v) later = if is_empty v then later else some (t.strip v)

  -- The first header that is there and not empty, or else the body.
  unfoldable pub from_headers : (String → Option String) → List String → Json → Option String
  from_headers headers [] body = body_session body
  from_headers headers (h ∷ hs) body =
      let later = from_headers headers hs body in or_header (headers h) later

  unfoldable pub session_identity : (String → Option String) → Json → Option String
  unfolding from_headers
  session_identity headers body = from_headers headers session_headers body

  -- `if not session_id`
  abbrev pub named : Option String → Option String
  named none = none
  named (some s) = or_no_text s

  abbrev pub log_id : ℕ → Option String → String
  log_id id none = ""
  log_id id (some raw) = t.digest (t.show_id id ∷ raw ∷ [])

  unfoldable pub session_log_id : ℕ → (String → Option String) → Json → String
  unfolding session_identity
  session_log_id id headers body = log_id id (named (session_identity headers body))

  abbrev pub keyed : ℕ → Option String → Option String
  keyed id none = none
  keyed id (some session_id) = some (t.key_text id session_id)

  unfoldable pub make_session_key : Bool → ℕ → (String → Option String) → Json → Option String
  unfolding session_identity
  make_session_key false id headers body = none
  make_session_key true id headers body = keyed id (named (session_identity headers body))

-- A value that is no channel's identifier names none.
abbrev pub channel_of : Option ℤ → Option ℕ
channel_of none = none
channel_of (some (pos id)) = some id
channel_of (some (negsuc n)) = none

module _ (r : Redis) where
  open r use {Store, get, set}

  unfoldable pub get_sticky_channel : Option String → Store → Option ℕ
  get_sticky_channel none s = none
  get_sticky_channel (some k) s = channel_of (get (sticky k) s)

  unfoldable pub bind_sticky_channel : Option String → ℕ → Store → Store
  bind_sticky_channel none id s = s
  bind_sticky_channel (some k) id s = set (sticky k) (pos id) s
