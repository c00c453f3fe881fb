-- ===== src/Compiler/Refs.antt =====
-- crates/barbacane-compiler/src/spec_parser/parser.rs: `$ref` in JSON schemas.
pub mod Objects
pub mod Remaining
pub mod Terminates
pub mod Expansion
pub mod Inlining
pub mod Blocked
pub mod Completeness
mod Runs
use Prim.Native.Char.{Char, code}
use Prim.Native.String.{[], ◌∷◌, ◌++◌ as text_append}
use barbacane.Common.{
  ℕ, zero, suc, String, not, ◌&&◌, ◌==◌, if◌then◌else◌, List, [], ◌∷◌, Option, none, some, contains,
  retain, split, str_eq,
}
use barbacane.Common.Json.{
  Value, null, bool, number, string, array, object, Values, no_value, value, Fields, no_field,
  field, get_key, get_str, strip_prefix,
}
use barbacane.Common.Results.{Result, ok, err}

pub data ParseError : Type 0 where
  unknown_format : ParseError
  parse_error unresolved_ref schema_error io : String → ParseError

-- `str::replace` of two characters, given by their codes, by one.
unfoldable pub replace_pair : ℕ → ℕ → Char → String → String
replace_pair a b by [] = []
replace_pair a b by (c ∷ []) = c ∷ []
replace_pair a b by (c ∷ (d ∷ s)) =
    let skip = replace_pair a b by s in
    let keep = replace_pair a b by (d ∷ s) in
    if code c == a && code d == b then by ∷ skip else c ∷ keep

-- `segment.replace("~1", "/").replace("~0", "~")`
abbrev unescape : String → String
unescape segment = replace_pair b'~' b'0' "~" (replace_pair b'~' b'1' "/" segment)

abbrev pub get_rest : (Value → Option Value) → Option Value → Option Value
get_rest go none = none
get_rest go (some v) = go v

unfoldable pub walk_pointer : List String → Value → Option Value
walk_pointer [] current = some current
walk_pointer (segment ∷ segments) current =
    get_rest (walk_pointer segments) (get_key (unescape segment) current)

abbrev pub resolve_path : Value → Option String → Option Value
resolve_path root none = none
resolve_path root (some rest) = walk_pointer (split b'/' rest) root

-- Only `#/...` refers to something.
unfoldable pub resolve_ref : Value → String → Option Value
resolve_ref root ref_path = resolve_path root (strip_prefix "#/" ref_path)

-- A result with the references that are being resolved, the last first; `none` if the fuel ran out.
abbrev pub Outcome : Type 0 → Type 0
Outcome A = Option (Result A ParseError × List String)

abbrev pub and_then : {A B : Type 0} → Outcome A → (A → List String → Outcome B) → Outcome B
and_then none go = none
and_then (some (err e, visited)) go = some (err e, visited)
and_then (some (ok a, visited)) go = go a visited

abbrev circular : String → ParseError
circular ref_str = schema_error (text_append "circular $ref detected: " ref_str)

-- `visited.remove(ref_str)` once the target is resolved.
abbrev pub leave : String → Value → List String → Outcome Value
leave ref_str resolved visited = some (ok resolved, retain (λ s. not (str_eq s ref_str)) visited)

module _ (root : Value) (resolve_target : Value → List String → Outcome Value) where
  abbrev pub enter : String → List String → Option Value → Outcome Value
  enter ref_str visited none = some (err (unresolved_ref ref_str), visited)
  enter ref_str visited (some target) = and_then (resolve_target target visited) (leave ref_str)

  abbrev pub follow : String → List String → Outcome Value
  follow ref_str visited =
      if contains ref_str visited
      then some (err (circular ref_str), visited)
      else enter ref_str (ref_str ∷ visited) (resolve_ref root ref_str)

  abbrev pub follow_or : Option String → List String → Outcome Value → Outcome Value
  follow_or none visited rest = rest
  follow_or (some ref_str) visited rest = follow ref_str visited

  unfoldable mutual
    pub resolve_in : Value → List String → Outcome Value
    resolve_in null visited = some (ok null, visited)
    resolve_in (bool b) visited = some (ok (bool b), visited)
    resolve_in (number n) visited = some (ok (number n), visited)
    resolve_in (string s) visited = some (ok (string s), visited)
    resolve_in (array arr) visited =
        and_then (resolve_items arr visited) (λ items visited'. some (ok (array items), visited'))
    resolve_in (object obj) visited = follow_or (get_str "$ref" obj) visited (
        and_then (resolve_fields obj visited)
          (λ new_obj visited'. some (ok (object new_obj), visited')))

    pub resolve_items : Values → List String → Outcome Values
    resolve_items no_value visited = some (ok no_value, visited)
    resolve_items (value v vs) visited = and_then (resolve_in v visited) (λ item visited'.
        and_then (resolve_items vs visited')
          (λ items visited''. some (ok (value item items), visited'')))

    pub resolve_fields : Fields → List String → Outcome Fields
    resolve_fields no_field visited = some (ok no_field, visited)
    resolve_fields (field key val fs) visited =
        and_then (resolve_in val visited) (λ resolved visited'.
          and_then (resolve_fields fs visited')
            (λ new_obj visited''. some (ok (field key resolved new_obj), visited'')))

-- The recursion is structural except at a reference, which costs a unit of fuel.
unfoldable pub resolve_schema_refs : ℕ → Value → Value → List String → Outcome Value
resolve_schema_refs zero root = resolve_in root (λ target visited. none)
resolve_schema_refs (suc fuel) root = resolve_in root (resolve_schema_refs fuel root)
