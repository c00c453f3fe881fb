-- ===== src/Compiler/Refs/Runs.antt =====
-- Runs of the resolution of references at a concrete document.
use barbacane.Common.{◌≡◌, refl, String, ◌≤◌, arith, [], some, length, ◌++◌, ◌↔◌, ℕ, split}
use barbacane.Common.Json.{Value, string, object, no_field, field, get_field, strip_prefix}
use barbacane.Common.Results.{ok}
use barbacane.Compiler.Refs.{
  resolve_schema_refs, resolve_in, resolve_ref, walk_pointer, replace_pair,
}
use barbacane.Compiler.Refs.Terminates.{Answers, refs, resolve_schema_refs-Answers_enough}
use barbacane.Compiler.Refs.Expansion.{expand}
use barbacane.Compiler.Refs.Completeness.{resolve_schema_refs-iff-expand}

-- {"components": {"User": {"type": "object"}, "Owner": {"$ref": "#/components/User"},
-- "Loop": {"$ref": "#/components/Loop"}}}
abbrev user : Value
user = object (field "type" (string "object") no_field)

abbrev ref : String → Value
ref target = object (field "$ref" (string target) no_field)

abbrev document : Value
document = object (
    field "components"
      (object (
        field "User" user (
          field "Owner" (ref "#/components/User")
            (field "Loop" (ref "#/components/Loop") no_field))))
      no_field)

resolve_owner : resolve_schema_refs 3 document (ref "#/components/Owner") [] ≡ some (ok user, [])
unfolding resolve_schema_refs resolve_in resolve_ref walk_pointer replace_pair get_field
    strip_prefix split
resolve_owner = refl

enough_fuel : length (refs (ref "#/components/Owner") ++ refs document) ≤ 3
unfolding refs get_field
enough_fuel = omega arith

resolve_schema_refs-Answers_enough_example :
    Answers [] (resolve_schema_refs 3 document (ref "#/components/Owner") [])
resolve_schema_refs-Answers_enough_example =
    resolve_schema_refs-Answers_enough document (ref "#/components/Owner") 3 enough_fuel

resolve_schema_refs-iff-expand_example :
    (resolve_schema_refs 3 document (ref "#/components/Owner") [] ≡ some (ok user, []))
    ↔ ((n : ℕ) × (expand n document (ref "#/components/Owner") ≡ some user))
resolve_schema_refs-iff-expand_example =
    resolve_schema_refs-iff-expand document (ref "#/components/Owner") user 3 enough_fuel
