-- ===== src/Failover/Texts.antt =====
-- What the gateway takes from Python's library for texts, a parameter of what uses it.
use five_api.Base.{String, Option, none, List, [], ◌∷◌, ℕ}
use five_api.Base.Json.{Json, str}

pub record Texts : Type 0 where
  -- `json.loads`; `none` is its ValueError.
  pub loads : String → Option Json
  pub dumps : Json → String
  -- `str(value)`, and the text that an f-string gives a number.
  pub show : Json → String
  pub show_ℕ : ℕ → String
  pub strip : String → String
  -- `rstrip("\r\n")`
  pub rstrip_newlines : String → String
  pub splitlines : String → List String
  -- `" ".join(text.split())`
  pub join_words : String → String
  -- The first characters of a text, `text[:n]`.
  pub first_chars : String → ℕ → String
  -- `int(float(text))`, and the seconds from now to an HTTP date; what is negative counts as 0.
  pub whole : String → Option ℕ
  pub until_date : String → Option ℕ
  -- The redaction of services/redaction.py, which rests on regular expressions.
  pub redact : String → String
  pub redact_error : Json → Json
  pub redact_event : String → String

-- Texts whose parser knows no JSON.
abbrev pub bare : Texts
bare = record {
  loads = λ s. none;
  dumps = λ v. "";
  show = λ v. elim v [ str s ↦ s | _ ↦ "" ];
  show_ℕ = λ n. "";
  strip = λ s. s;
  rstrip_newlines = λ s. s;
  splitlines = λ s. s ∷ [];
  join_words = λ s. s;
  first_chars = λ s n. s;
  whole = λ s. none;
  until_date = λ s. none;
  redact = λ s. s;
  redact_error = λ v. v;
  redact_event = λ s. s;
}
