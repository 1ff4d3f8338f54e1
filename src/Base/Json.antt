-- ===== src/Base/Json.antt =====
-- JSON values, as the request bodies and the stored payloads hold them.
use Prim.Native.String.{String}
use mathlib.Core.Bool.{Bool, true, false, not, ◌||◌}
use mathlib.Core.Option.{Option, none, some}
use text.Mathlib.Text.{◌==◌ as str_eq}
use five_api.Base.Int.{ℤ, pos, eqb_ℤ}
use five_api.Base.Tests.{if◌then◌else◌}

-- A number that is no integer keeps its text, which the model never computes with.
mutual
  pub data Json : Type 0 where
    null : Json
    bool : Bool → Json
    int : ℤ → Json
    float : String → Json
    str : String → Json
    arr : Items → Json
    obj : Fields → Json

  pub data Items : Type 0 where
    nil : Items
    cons : Json → Items → Items

  pub data Fields : Type 0 where
    end : Fields
    field : String → Json → Fields → Fields

abbrev pub is_empty : String → Bool
is_empty s = str_eq s ""

-- Python's truth value. A float's text is the one that Python prints.
abbrev pub truthy : Json → Bool
truthy null = false
truthy (bool b) = b
truthy (int i) = not (eqb_ℤ i (pos 0))
truthy (float s) = not (str_eq s "0.0" || str_eq s "-0.0")
truthy (str s) = not (is_empty s)
truthy (arr nil) = false
truthy (arr (cons x xs)) = true
truthy (obj end) = false
truthy (obj (field k v fs)) = true

-- `fields.get(name)`: a name that is not there reads as null.
abbrev pub find_field : String → Fields → Option Json
find_field name end = none
find_field name (field k v fs) =
    let rest = find_field name fs in if str_eq k name then some v else rest

abbrev pub or_null : Option Json → Json
or_null none = null
or_null (some v) = v

abbrev pub get_field : String → Fields → Json
get_field name fs = or_null (find_field name fs)

-- The fields of an object, and none of anything else.
abbrev pub fields_of : Json → Fields
fields_of (obj fs) = fs
fields_of _ = end

-- The items of a list, and none of anything else.
abbrev pub items_of : Json → Items
items_of (arr xs) = xs
items_of _ = nil

-- `a or b`
abbrev pub or_else : Json → Json → Json
or_else a b = if truthy a then a else b
