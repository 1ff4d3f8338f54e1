-- ===== src/Pricing/Tokens.antt =====
-- The token estimates of backend/app/services/pricing.py.
use Prim.Native.Char.{Char, code}
use Prim.Native.String.{count}
use mathlib.Core.Option
use text.Mathlib.Text.{starts_with}
use five_api.Base.{
  ℕ, ◌+◌, ◌*◌, ◌/◌, max, String, Bool, true, false, not, ◌&&◌, ◌||◌, Option, none, some, List, [],
  ◌∷◌, ltb, leb, if◌then◌else◌,
}
use five_api.Base.Int.{ℤ, pos, pos_part}
use five_api.Base.Json.{
  Json, null, bool, int, float, str, arr, obj, Items, nil, cons, Fields, end, field, truthy,
  get_field,
}

-- From U+4E00 to U+9FFF.
abbrev pub is_cjk : Char → Bool
is_cjk c = leb 19_968 (code c) && leb (code c) 40_959

-- How many characters of each sort, blobs and token numbers a value holds.
pub record Counts : Type 0 where
  pub cjk : ℕ
  pub other : ℕ
  pub blobs : ℕ
  pub explicit_tokens : ℕ

abbrev pub no_counts : Counts
no_counts = record { cjk = 0; other = 0; blobs = 0; explicit_tokens = 0 }

abbrev pub blob_tokens : ℕ
blob_tokens = 1_600

abbrev pub blob_min_chars : ℕ
blob_min_chars = 1_024

abbrev pub is_int : Json → Bool
is_int (int i) = true
is_int _ = false

abbrev pub all_ints : Items → Bool
all_ints nil = true
all_ints (cons x xs) = is_int x && all_ints xs

abbrev pub items_length : Items → ℕ
items_length nil = 0
items_length (cons x xs) = items_length xs + 1

abbrev pub is_filled : Items → Bool
is_filled nil = false
is_filled (cons x xs) = true

-- `first_chars` is `text[:n]`, and `is_base64` matches the whole of a
-- text with the pattern _BASE64.
module _ (first_chars : String → ℕ → String) (is_base64 : String → Bool) where
  unfoldable pub is_blob : String → Bool
  is_blob text =
      let head = first_chars text blob_min_chars in
      not (ltb (count text) blob_min_chars) && (starts_with head "data:" || is_base64 head)

  unfoldable pub walk_chars : String → Counts → Counts
  walk_chars String.[] c = c
  walk_chars (String.◌∷◌ x s) c =
      walk_chars s
        (if is_cjk x then record c { cjk = c.cjk + 1 } else record c { other = c.other + 1 })

  abbrev pub walk_text : String → Counts → Counts
  walk_text s c = if is_blob s then record c { blobs = c.blobs + 1 } else walk_chars s c

  unfoldable mutual
    pub walk : Json → Counts → Counts
    walk null c = c
    walk (bool b) c = c
    walk (int i) c = c
    walk (float s) c = c
    walk (str s) c = walk_text s c
    walk (arr xs) c =
        let each = walk_items xs c in
        if is_filled xs && all_ints xs
        then record c { explicit_tokens = c.explicit_tokens + items_length xs }
        else each
    walk (obj fs) c = walk_fields fs c

    pub walk_items : Items → Counts → Counts
    walk_items nil c = c
    walk_items (cons x xs) c = walk_items xs (walk x c)

    pub walk_fields : Fields → Counts → Counts
    walk_fields end c = c
    walk_fields (field k v fs) c = walk_fields fs (walk v c)

  abbrev pub token_sum : Counts → ℕ
  token_sum c = c.cjk + (c.other + 3) / 4 + c.blobs * blob_tokens + c.explicit_tokens

  unfoldable pub count_text_tokens : Json → ℕ
  unfolding walk
  count_text_tokens value = token_sum (walk value no_counts)

  -- The first cap that the body sets.
  abbrev pub first_set : List String → Fields → Json
  first_set [] body = null
  first_set (n ∷ ns) body = elim (get_field n body) [ null ↦ first_set ns body | v ↦ v ]

  -- `int(raw_out)` is a parameter; 4096 where it raises.
  abbrev pub output_of : (Json → Option ℤ) → Option ℤ → Fields → Json → ℤ
  output_of int_of (some default) body null = default
  output_of int_of none body null =
      if truthy (get_field "messages" body) || truthy (get_field "system" body)
      then pos 4_096
      else pos 0
  output_of int_of default body raw = Option.get_or (int_of raw) (pos 4_096)

  abbrev pub text_parts : List String → Fields → Items
  text_parts [] body = nil
  text_parts (n ∷ ns) body = cons (get_field n body) (text_parts ns body)

  abbrev pub text_names : List String
  text_names =
      "messages" ∷ "system" ∷ "instructions" ∷ "prompt" ∷ "input" ∷ "query" ∷ "documents" ∷ "tools"
      ∷ []

  abbrev pub cap_names : List String
  cap_names = "max_tokens" ∷ "max_completion_tokens" ∷ "max_output_tokens" ∷ []

  -- The upper bound of the input, and the output's cap.
  unfoldable pub estimate_request_tokens : (Json → Option ℤ) → Fields → Option ℤ → ℕ × ℕ
  unfolding count_text_tokens
  estimate_request_tokens int_of end default = (1, 0)
  estimate_request_tokens int_of (field k v fs) default =
      let body = field k v fs in
      (
        max 1 (count_text_tokens (arr (text_parts text_names body))),
        pos_part (output_of int_of default body (first_set cap_names body)),
      )
