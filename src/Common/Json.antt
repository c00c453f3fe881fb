-- ===== src/Common/Json.antt =====
-- serde_json's `Value`. A number is given by its text, and an object by its fields in order.
use Prim.Native.String.{String, [], ◌∷◌}
use Prim.Native.Char.{code}
use Prim.Native.Nat.{ℕ, suc}
use mathlib.Core.Bool.{Bool, true, false}
use mathlib.Core.List.{[], ◌∷◌}
use mathlib.Core.Option.{Option, none, some}
use barbacane.Common.Tests.{◌==◌, if◌then◌else◌}
use barbacane.Common.Optional.{is_some}
use barbacane.Common.Text.{str_eq}

mutual
  pub data Value : Type 0 where
    null : Value
    bool : Bool → Value
    number string : String → Value
    array : Values → Value
    object : Fields → Value

  pub data Values : Type 0 where
    no_value : Values
    value : Value → Values → Values

  pub data Fields : Type 0 where
    no_field : Fields
    field : String → Value → Fields → Fields

-- `str::strip_prefix`
unfoldable pub strip_prefix : String → String → Option String
strip_prefix [] s = some s
strip_prefix (c ∷ p) [] = none
strip_prefix (c ∷ p) (d ∷ s) =
    let rest = strip_prefix p s in if code c == code d then rest else none

abbrev pub starts_with : String → String → Bool
starts_with p s = is_some (strip_prefix p s)

-- `Map::get`.
unfoldable pub get_field : String → Fields → Option Value
get_field k no_field = none
get_field k (field i v fs) = if str_eq i k then some v else get_field k fs

-- `Value::get` at a key: only an object has one.
abbrev pub get_key : String → Value → Option Value
get_key k (object fs) = get_field k fs
get_key k _ = none

abbrev pub as_str : Value → Option String
as_str (string s) = some s
as_str _ = none

abbrev pub as_str_if : Option Value → Option String
as_str_if none = none
as_str_if (some v) = as_str v

-- `obj.get(key).and_then(|v| v.as_str())`
abbrev pub get_str : String → Fields → Option String
get_str k fs = as_str_if (get_field k fs)

abbrev pub as_bool : Value → Option Bool
as_bool (bool b) = some b
as_bool _ = none

abbrev pub is_object : Value → Bool
is_object (object fs) = true
is_object _ = false

-- `Map::len`.
abbrev pub field_count : Fields → ℕ
field_count no_field = 0
field_count (field k v fs) = suc (field_count fs)

abbrev as_bool_if : Option Value → Option Bool
as_bool_if none = none
as_bool_if (some v) = as_bool v

-- `v.get(key).and_then(|v| v.as_str())`, and the same for a Boolean.
abbrev pub str_at : String → Value → Option String
str_at key v = as_str_if (get_key key v)

abbrev pub bool_at : String → Value → Option Bool
bool_at key v = as_bool_if (get_key key v)
