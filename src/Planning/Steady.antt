-- ===== src/Planning/Steady.antt =====
-- A conversation keeps its session, and a session its channel.

use five_api.Base.{
  ℕ, ◌≡◌, sym, ap, ◌∙◌, String, Bool, true, false, Option, some, List, [], ◌∷◌, ◌++◌, arith,
  if◌then◌else◌, str_eq, eq_iff,
}
use five_api.Base.Int.{pos}
use five_api.Base.Json.{
  Json, null, bool, int, float, str, arr, obj, Items, nil, cons, Fields, get_field,
}
use five_api.Redis.{Redis, sticky}
use five_api.Planning.Sessions.{
  SessionTexts, is_user, first_user, user_part, system_part, dumped, digest_of,
  fingerprint_from_body, metadata_session, or_text, body_session, or_header, from_headers,
  session_headers, session_identity, make_session_key, named, keyed, channel_of, get_sticky_channel,
  bind_sticky_channel,
}

-- The messages of a conversation, and those that come later.
abbrev pub and_later : Items → Items → Items
and_later nil ys = ys
and_later (cons x xs) ys = cons x (and_later xs ys)

self_same : (k : String) → str_eq k k ≡ true
self_same k = ground (arith, eq_iff k k)

if_keeps :
    (b : Bool) (x y y' c : Option Json)
    → (y ≡ c → y' ≡ c)
    → (if b then x else y) ≡ c
    → (if b then x else y') ≡ c
if_keeps true x y y' c h k = k
if_keeps false x y y' c h k = h k

first_user-and_later :
    (xs ys : Items) (content : Json)
    → first_user xs ≡ some content
    → first_user (and_later xs ys) ≡ some content
unfolding first_user
first_user-and_later nil ys content h = cc
first_user-and_later (cons (obj msg) rest) ys content h =
    if_keeps (is_user (get_field "role" msg)) (some (get_field "content" msg)) (first_user rest)
      (first_user (and_later rest ys)) (some content) (first_user-and_later rest ys content) h
first_user-and_later (cons null rest) ys content h = first_user-and_later rest ys content h
first_user-and_later (cons (bool b) rest) ys content h = first_user-and_later rest ys content h
first_user-and_later (cons (int i) rest) ys content h = first_user-and_later rest ys content h
first_user-and_later (cons (float s) rest) ys content h = first_user-and_later rest ys content h
first_user-and_later (cons (str s) rest) ys content h = first_user-and_later rest ys content h
first_user-and_later (cons (arr zs) rest) ys content h = first_user-and_later rest ys content h

-- A later request of a conversation: the same system prompt and metadata, and more messages after
-- those that were there, one of them the user's.
pub record Continues (body body' : Fields) : Type 0 where
  pub messages : Items
  pub later : Items
  pub content : Json
  pub same_metadata : get_field "metadata" body' ≡ get_field "metadata" body
  pub same_system : get_field "system" body' ≡ get_field "system" body
  pub before : get_field "messages" body ≡ arr messages
  pub after : get_field "messages" body' ≡ arr (and_later messages later)
  pub asked : first_user messages ≡ some content

module _ (t : SessionTexts) where
  abbrev fingerprint : Fields → Option String
  fingerprint = fingerprint_from_body t

  user_part-and_later :
      (body body' : Fields) (c : Continues body body')
      → user_part t (get_field "messages" body') ≡ user_part t (get_field "messages" body)
  unfolding user_part
  user_part-and_later body body' c =
      let part = user_part t in
      ap part c.after
      ∙ ap (dumped t) (first_user-and_later c.messages c.later c.content c.asked ∙ sym c.asked)
      ∙ sym (ap part c.before)

  fingerprint-Continues :
      (body body' : Fields) → Continues body body' → fingerprint body' ≡ fingerprint body
  unfolding fingerprint_from_body
  fingerprint-Continues body body' c =
      ap (λ parts. digest_of t parts)
        (ap (λ system. system_part t system ++ user_part t (get_field "messages" body'))
            c.same_system
          ∙ ap (λ users. system_part t (get_field "system" body) ++ users)
              (user_part-and_later body body' c))

  body_session-Continues :
      (body body' : Fields)
      → Continues body body'
      → body_session t (obj body') ≡ body_session t (obj body)
  unfolding metadata_session fingerprint_from_body
  body_session-Continues body body' c =
      ap (λ metadata. or_text t (metadata_session t metadata) (fingerprint body')) c.same_metadata
      ∙ ap (or_text t (metadata_session t (get_field "metadata" body)))
          (fingerprint-Continues body body' c)

  from_headers-Continues :
      (headers : String → Option String) (names : List String) (body body' : Fields)
      → Continues body body'
      → from_headers t headers names (obj body') ≡ from_headers t headers names (obj body)
  unfolding from_headers
  from_headers-Continues headers [] body body' c = body_session-Continues body body' c
  from_headers-Continues headers (h ∷ hs) body body' c =
      ap (or_header t (headers h)) (from_headers-Continues headers hs body body' c)

  -- A later request of a conversation has the key of an earlier one, and finds the channel that this
  -- was bound to.
  pub make_session_key-Continues :
      (r : Redis) (enabled : Bool) (id ch : ℕ) (headers : String → Option String)
      (body body' : Fields) (k : String) (s : Redis.Store r)
      → make_session_key t enabled id headers (obj body) ≡ some k
      → Continues body body'
      → get_sticky_channel r
          (make_session_key t enabled id headers (obj body'))
          (bind_sticky_channel r (some k) ch s)
        ≡ some ch
  unfolding make_session_key session_identity get_sticky_channel bind_sticky_channel
  make_session_key-Continues r false id ch headers body body' k s h c = cc
  make_session_key-Continues r true id ch headers body body' k s h c =
      let same : keyed t id (named t (from_headers t headers session_headers (obj body')))
          ≡ some k =
        ap (λ identity. keyed t id (named t identity))
          (from_headers-Continues headers session_headers body body' c)
        ∙ h in
      ap (λ key. get_sticky_channel r key (r.set (sticky k) (pos ch) s)) same
      ∙ ap channel_of (
          r.get-set (sticky k) (sticky k) (pos ch) s
          ∙ ap (λ b. if b then some (pos ch) else r.get (sticky k) s) (self_same k))
