-- ===== src/Compiler/Schemas.antt =====
-- crates/barbacane-compiler/src/artifact.rs: the complexity of JSON schemas.
use barbacane.Common.{
  ℕ, ◌+◌, max, String, ltb, if◌then◌else◌, List, [], ◌∷◌, Option, none, some, str_eq,
}
use barbacane.Common.Json.{
  Value, null, bool, number, string, array, object, Values, no_value, value, Fields, no_field,
  field, is_object, field_count,
}
use barbacane.Common.Results.{Result, ok, err}
use barbacane.Compiler.Errors.{CompileError, schema_too_deep, schema_too_complex, format, decimal}

-- A depth and a number of properties.
abbrev pub Measure : Type 0
Measure = ℕ × ℕ

-- `max_depth = max_depth.max(d); total_props += p`
abbrev pub add : Measure → Measure → Measure
add (max_depth, total_props) (d, p) = (max max_depth d, total_props + p)

-- What the measure of an object reads of a field's value.
pub data Part : Type 0 where
  part : Value → Measure → Measure → Part

abbrev pub get_part : String → List (String × Part) → Option Part
get_part k [] = none
get_part k ((i, p) ∷ ps) = if str_eq i k then some p else get_part k ps

abbrev pub add_properties : Option Part → Measure → Measure
add_properties (some (part (object props) whole children)) (max_depth, total_props) =
    add (max_depth, total_props + field_count props) children
add_properties _ m = m

abbrev pub add_whole : Option Part → Measure → Measure
add_whole none m = m
add_whole (some (part v whole children)) m = add m whole

abbrev pub add_schemas : Option Part → Measure → Measure
add_schemas (some (part (array schemas) whole children)) m = add m children
add_schemas _ m = m

abbrev pub add_if_object : Option Part → Measure → Measure
add_if_object none m = m
add_if_object (some (part v whole children)) m = if is_object v then add m whole else m

abbrev pub measure_parts : ℕ → List (String × Part) → Measure
measure_parts depth obj = add_if_object (get_part "additionalProperties" obj) (
    add_schemas (get_part "anyOf" obj) (
      add_schemas (get_part "oneOf" obj) (
        add_schemas (get_part "allOf" obj) (
          add_whole (get_part "items" obj)
            (add_properties (get_part "properties" obj) (depth, 0))))))

-- The parts of an object are measured one level deeper, with the values that they hold: those are
-- measured at that level too.
unfoldable mutual
  pub measure_schema_complexity : Value → ℕ → Measure
  measure_schema_complexity null depth = (depth, 0)
  measure_schema_complexity (bool b) depth = (depth, 0)
  measure_schema_complexity (number n) depth = (depth, 0)
  measure_schema_complexity (string s) depth = (depth, 0)
  measure_schema_complexity (array arr) depth = measure_items arr (depth + 1) (depth, 0)
  measure_schema_complexity (object obj) depth = measure_parts depth (parts obj (depth + 1))

  pub measure_items : Values → ℕ → Measure → Measure
  measure_items no_value depth m = m
  measure_items (value v vs) depth m =
      measure_items vs depth (add m (measure_schema_complexity v depth))

  pub measure_fields : Fields → ℕ → Measure → Measure
  measure_fields no_field depth m = m
  measure_fields (field k v fs) depth m =
      measure_fields fs depth (add m (measure_schema_complexity v depth))

  pub measure_children : Value → ℕ → Measure
  measure_children (array vs) depth = measure_items vs depth (0, 0)
  measure_children (object fs) depth = measure_fields fs depth (0, 0)
  measure_children _ depth = (0, 0)

  pub parts : Fields → ℕ → List (String × Part)
  parts no_field depth = []
  parts (field k v fs) depth =
      (k, part v (measure_schema_complexity v depth) (measure_children v depth)) ∷ parts fs depth

abbrev pub check_complexity : ℕ → ℕ → String → Measure → Result Unit CompileError
check_complexity max_depth max_properties location (depth, props) =
    if ltb max_depth depth
    then err (
        schema_too_deep (
          format
            (location ∷ " - depth " ∷ decimal depth ∷ " exceeds limit " ∷ decimal max_depth ∷ [])))
    else if ltb max_properties props
    then err (
        schema_too_complex (
          format (
            location
            ∷ " - "
            ∷ decimal props
            ∷ " properties exceed limit "
            ∷ decimal max_properties
            ∷ [])))
    else ok tt

unfoldable pub validate_schema_complexity : Value → ℕ → ℕ → String → Result Unit CompileError
validate_schema_complexity schema max_depth max_properties location =
    check_complexity max_depth max_properties location (measure_schema_complexity schema 0)
