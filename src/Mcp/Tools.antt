-- ===== src/Mcp/Tools.antt =====
-- crates/barbacane/src/mcp/tools.rs: the tools that are made of the compiled operations.
use Prim.Native.String.{[]}
use barbacane.Common.{
  String, Bool, true, false, ◌&&◌, ◌||◌, if◌then◌else◌, List, [], ◌∷◌, ◌++◌, Option, none, some,
  Dict, lookup, str_eq, starts_with_char, unwrap_or,
}
use barbacane.Common.Json.{
  Value, null, bool, number, string, array, object, Values, no_value, value, Fields, no_field,
  field, get_key,
}
use barbacane.Compiler.Specs.{
  Parameter, RequestBody, ResponseContent, ContentSchema, CompiledOperation,
}
use barbacane.Compiler.Errors.{format}
use barbacane.Mcp.Arguments.{ToolEntry}

-- `Map::insert`: a key that is there keeps its place.
unfoldable pub insert_field : String → Value → Fields → Fields
insert_field k v no_field = field k v no_field
insert_field k v (field i w fs) =
    if str_eq i k then field i v fs else field i w (insert_field k v fs)

-- `Value`'s equality.
abbrev mutual
  pub value_eq : Value → Value → Bool
  value_eq null null = true
  value_eq (bool true) (bool b) = b
  value_eq (bool false) (bool true) = false
  value_eq (bool false) (bool false) = true
  value_eq (number s) (number t) = str_eq s t
  value_eq (string s) (string t) = str_eq s t
  value_eq (array vs) (array ws) = values_eq vs ws
  value_eq (object fs) (object gs) = fields_eq fs gs
  value_eq _ _ = false

  pub values_eq : Values → Values → Bool
  values_eq no_value no_value = true
  values_eq (value v vs) (value w ws) = value_eq v w && values_eq vs ws
  values_eq _ _ = false

  pub fields_eq : Fields → Fields → Bool
  fields_eq no_field no_field = true
  fields_eq (field i v fs) (field j w gs) = str_eq i j && value_eq v w && fields_eq fs gs
  fields_eq _ _ = false

abbrev pub has_value : List Value → Value → Bool
has_value [] v = false
has_value (w ∷ ws) v = value_eq w v || has_value ws v

abbrev pub build_description : CompiledOperation → String
build_description op =
    unwrap_or op.mcp_description
      (unwrap_or op.summary (unwrap_or op.description (format (op.method ∷ " " ∷ op.path ∷ []))))

-- The properties and the required names that are collected.
pub record InputSchema : Type 0 where
  pub properties : Fields
  pub required : List Value

abbrev pub require_if : Bool → String → List Value → List Value
require_if true name required = required ++ string name ∷ []
require_if false name required = required

abbrev pub add_parameter : InputSchema → Parameter → InputSchema
add_parameter input param =
    if str_eq param.location "path" || str_eq param.location "query"
    then record {
      properties =
          insert_field param.name
            (unwrap_or param.schema (object (field "type" (string "string") no_field)))
            input.properties;
      required = require_if param.required param.name input.required;
    }
    else input

abbrev pub add_parameters : InputSchema → List Parameter → InputSchema
add_parameters input [] = input
add_parameters input (param ∷ params) = add_parameters (add_parameter input param) params

abbrev pub insert_all : Fields → Fields → Fields
insert_all no_field properties = properties
insert_all (field key val fs) properties = insert_all fs (insert_field key val properties)

abbrev pub merge_properties : Option Value → Fields → Fields
merge_properties (some (object body_props)) properties = insert_all body_props properties
merge_properties _ properties = properties

abbrev pub require_all : Values → List Value → List Value
require_all no_value required = required
require_all (value r rs) required =
    require_all rs (if has_value required r then required else required ++ r ∷ [])

abbrev pub merge_required : Option Value → List Value → List Value
merge_required (some (array body_required)) required = require_all body_required required
merge_required _ required = required

-- A schema with a type and no properties is the property `body`.
abbrev pub wrap_body : Value → Option Value → Option Value → Fields → Fields
wrap_body body_schema none (some type) properties = insert_field "body" body_schema properties
wrap_body body_schema _ _ properties = properties

abbrev pub merge_body_schema : InputSchema → Value → InputSchema
merge_body_schema input body_schema =
    let body_props = get_key "properties" body_schema in
    record {
      properties =
          wrap_body body_schema body_props (get_key "type" body_schema)
            (merge_properties body_props input.properties);
      required = merge_required (get_key "required" body_schema) input.required;
    }

abbrev pub merge_if : InputSchema → Option Value → InputSchema
merge_if input none = input
merge_if input (some schema) = merge_body_schema input schema

abbrev pub schema_in : Option ContentSchema → Option Value
schema_in none = none
schema_in (some content) = content.schema

abbrev pub merge_content : InputSchema → Option RequestBody → InputSchema
merge_content input none = input
merge_content input (some body) =
    merge_if input (schema_in (lookup "application/json" body.content))

abbrev pub to_values : List Value → Values
to_values [] = no_value
to_values (v ∷ vs) = value v (to_values vs)

abbrev pub required_field : List Value → Fields
required_field [] = no_field
required_field (v ∷ vs) = field "required" (array (to_values (v ∷ vs))) no_field

abbrev pub input_object : InputSchema → Value
input_object input = object (
    field "type" (string "object")
      (field "properties" (object input.properties) (required_field input.required)))

abbrev pub build_input_schema : CompiledOperation → Value
build_input_schema op = input_object (
    merge_content (add_parameters (record { properties = no_field; required = [] }) op.parameters)
      op.request_body)

abbrev pub json_of : ResponseContent → Option ContentSchema
json_of resp = lookup "application/json" resp.content

abbrev pub first_schema : Option Value → Option Value → Option Value
first_schema (some schema) rest = some schema
first_schema none rest = rest

-- The first response of the 2xx with a schema.
abbrev pub first_2xx : Dict ResponseContent → Option Value
first_2xx [] = none
first_2xx ((status, resp) ∷ responses) =
    let rest = first_2xx responses in
    if starts_with_char b'2' status then first_schema (schema_in (json_of resp)) rest else rest

abbrev pub json_if : Option ResponseContent → Option ContentSchema
json_if none = none
json_if (some resp) = json_of resp

abbrev pub output_or : Option ContentSchema → Option Value → Option Value
output_or (some content) rest = content.schema
output_or none rest = rest

abbrev pub build_output_schema : CompiledOperation → Option Value
build_output_schema op = output_or (json_if (lookup "200" op.responses)) (first_2xx op.responses)

abbrev pub tool_entry : CompiledOperation → String → ToolEntry
tool_entry op name = record {
  tool = record {
    name = name;
    description = build_description op;
    input_schema = build_input_schema op;
    output_schema = build_output_schema op;
  };
  operation_index = op.index;
  method = op.method;
  path = op.path;
  parameters = op.parameters;
}

abbrev pub tool_of : CompiledOperation → Option Bool → Option String → List ToolEntry
tool_of op (some true) (some name) = tool_entry op name ∷ []
tool_of op _ _ = []

unfoldable pub generate_tools : List CompiledOperation → List ToolEntry
generate_tools [] = []
generate_tools (op ∷ ops) = tool_of op op.mcp_enabled op.operation_id ++ generate_tools ops
