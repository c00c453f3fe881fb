-- ===== src/Compiler/Parser/Runs.antt =====
-- crates/barbacane-compiler/src/spec_parser/parser.rs: tests, and the theorems applied at concrete inputs.
use Prim.Native.String.{[]}
use barbacane.Common.{◌≡◌, refl, [], ◌∷◌, none, some, true, false, All, to_uppercase}
use barbacane.Common.Text.{char_to_uppercase}
use barbacane.Common.Json.{
  Value, bool, string, array, object, no_value, value, no_field, field, get_field, strip_prefix,
}
use barbacane.Common.Results.{ok}
use barbacane.Compiler.Specs.{ApiSpec, Operation, Parameter, open_api}
use barbacane.Compiler.Parser.{
  detect_format, extract_extensions, extract_middlewares, extract_dispatch,
}
use barbacane.Compiler.Parser.Contents.{parse_items}
use barbacane.Compiler.Parser.OpenApi.{parse_methods, parse_additional, parse_paths}
use barbacane.Compiler.Parser.Spec.{parse_root}
use barbacane.Compiler.Parser.Methods.{IsUpper, parse_root-IsUpper}

abbrev item : Value
item = object (
    field "parameters"
      (array (
        value
          (object (
            field "name" (string "id")
              (field "in" (string "path") (field "required" (bool true) no_field))))
          no_value))
      (field "get" (object (field "operationId" (string "getItem") no_field))
        (field "additionalOperations" (object (field "link" (object no_field) no_field)) no_field)))

abbrev document : Value
document = object (
    field "openapi" (string "3.1.0") (
      field "info" (object (field "title" (string "Items") no_field))
        (field "paths" (object (field "/items/{id}" item no_field)) no_field)))

abbrev id_parameter : Parameter
id_parameter = record { name = "id"; location = "path"; required = true; schema = none }

abbrev get_item : Operation
get_item = record {
  path = "/items/{id}";
  method = "GET";
  operation_id = some "getItem";
  summary = none;
  description = none;
  parameters = id_parameter ∷ [];
  request_body = none;
  dispatch = none;
  middlewares = none;
  deprecated = false;
  sunset = none;
  extensions = [];
  messages = [];
  bindings = [];
  responses = [];
}

abbrev link_item : Operation
link_item = record {
  path = "/items/{id}";
  method = "LINK";
  operation_id = none;
  summary = none;
  description = none;
  parameters = id_parameter ∷ [];
  request_body = none;
  dispatch = none;
  middlewares = none;
  deprecated = false;
  sunset = none;
  extensions = [];
  messages = [];
  bindings = [];
  responses = [];
}

abbrev items_spec : ApiSpec
items_spec = record {
  filename = none;
  spec_format = open_api;
  version = "3.1.0";
  title = "Items";
  api_version = "0.0.0";
  operations = get_item ∷ link_item ∷ [];
  global_middlewares = [];
  extensions = [];
}

document_parsed : parse_root document ≡ ok items_spec
unfolding parse_root parse_paths parse_methods parse_additional parse_items detect_format
    extract_extensions extract_middlewares extract_dispatch to_uppercase char_to_uppercase get_field
    strip_prefix
document_parsed = refl

parse_root-IsUpper_example : All IsUpper items_spec.operations
parse_root-IsUpper_example = parse_root-IsUpper document items_spec document_parsed
