-- ===== src/Compiler/Parser/OpenApi.antt =====
-- crates/barbacane-compiler/src/spec_parser/parser.rs: the paths of an OpenAPI document.
use Prim.Native.String.{[]}
use barbacane.Common.{
  String, false, if◌then◌else◌, List, [], ◌∷◌, ◌++◌, Option, none, some, is_some, to_uppercase,
  unwrap_or,
}
use barbacane.Common.Json.{Value, Fields, no_field, field, get_field, get_str}
use barbacane.Common.Results.{ok, err}
use barbacane.Compiler.Refs.{schema_error}
use barbacane.Compiler.Errors.{format}
use barbacane.Compiler.Specs.{Parameter, Operation, MiddlewareConfig}
use barbacane.Compiler.Parser.{
  Parsed, parse_then, as_object_if, get_object, get_bool, extract_extensions, extract_middlewares,
  extract_dispatch,
}
use barbacane.Compiler.Parser.Contents.{parse_parameters, parse_request_body, parse_responses}

abbrev pub http_methods : List String
http_methods =
    "get" ∷ "post" ∷ "put" ∷ "delete" ∷ "patch" ∷ "head" ∷ "options" ∷ "trace" ∷ "query" ∷ []

abbrev pub own_middlewares : Fields → Option (List MiddlewareConfig)
own_middlewares op_obj =
    if is_some (get_field "x-barbacane-middlewares" op_obj)
    then some (extract_middlewares op_obj)
    else none

abbrev pub object_or : {A : Type 0} → List String → Option Fields → (Fields → Parsed A) → Parsed A
object_or message none go = err (schema_error (format message))
object_or message (some fs) go = go fs

module _ (spec_root : Value) where
  -- An operation of a path, under a method in upper case.
  abbrev pub parse_operation : String → List Parameter → String → Fields → Parsed Operation
  parse_operation path path_params method op_obj =
      parse_then (parse_parameters spec_root op_obj) (λ own_params.
        parse_then (parse_request_body spec_root op_obj) (λ request_body.
          parse_then (parse_responses spec_root op_obj) (λ responses. ok (record {
            path = path;
            method = method;
            operation_id = get_str "operationId" op_obj;
            summary = get_str "summary" op_obj;
            description = get_str "description" op_obj;
            parameters = path_params ++ own_params;
            request_body = request_body;
            dispatch = extract_dispatch op_obj;
            middlewares = own_middlewares op_obj;
            deprecated = unwrap_or (get_bool "deprecated" op_obj) false;
            sunset = get_str "x-sunset" op_obj;
            extensions = extract_extensions op_obj;
            messages = [];
            bindings = [];
            responses = responses;
          }))))

  abbrev pub parse_method :
      String → List Parameter → String → Option Value → Parsed (List Operation)
  parse_method path path_params method none = ok []
  parse_method path path_params method (some op_value) =
      object_or ("operation " ∷ to_uppercase method ∷ " " ∷ path ∷ " must be an object" ∷ [])
        (as_object_if (some op_value))
        (λ op_obj.
          parse_then (parse_operation path path_params (to_uppercase method) op_obj)
            (λ operation. ok (operation ∷ [])))

  unfoldable pub parse_methods :
      String → List Parameter → Fields → List String → Parsed (List Operation)
  parse_methods path path_params path_obj [] = ok []
  parse_methods path path_params path_obj (method ∷ methods) =
      parse_then (parse_method path path_params method (get_field method path_obj)) (λ first.
        parse_then (parse_methods path path_params path_obj methods) (λ rest. ok (first ++ rest)))

  unfoldable pub parse_additional : String → List Parameter → Fields → Parsed (List Operation)
  parse_additional path path_params no_field = ok []
  parse_additional path path_params (field method_name op_value fs) =
      parse_then
        (object_or
          ("additionalOperations." ∷ method_name ∷ " on " ∷ path ∷ " must be an object" ∷ [])
          (as_object_if (some op_value))
          (parse_operation path path_params (to_uppercase method_name)))
        (λ first. parse_then (parse_additional path path_params fs) (λ rest. ok (first ∷ rest)))

  abbrev pub parse_additional_if : String → List Parameter → Option Fields → Parsed (List Operation)
  parse_additional_if path path_params none = ok []
  parse_additional_if path path_params (some additional) =
      parse_additional path path_params additional

  abbrev pub parse_path : String → Fields → Parsed (List Operation)
  parse_path path path_obj = parse_then (parse_parameters spec_root path_obj) (λ path_params.
      parse_then (parse_methods path path_params path_obj http_methods) (λ known.
        parse_then
          (parse_additional_if path path_params (get_object "additionalOperations" path_obj))
          (λ additional. ok (known ++ additional))))

  unfoldable pub parse_paths : Fields → Parsed (List Operation)
  parse_paths no_field = ok []
  parse_paths (field path path_item fs) =
      parse_then
        (object_or ("path item for '" ∷ path ∷ "' must be an object" ∷ [])
          (as_object_if (some path_item)) (parse_path path))
        (λ first. parse_then (parse_paths fs) (λ rest. ok (first ++ rest)))

  abbrev pub paths_in : Option Fields → Parsed (List Operation)
  paths_in none = ok []
  paths_in (some paths) = parse_paths paths

  abbrev pub parse_openapi_paths : Fields → Parsed (List Operation)
  parse_openapi_paths root = paths_in (get_object "paths" root)
