-- ===== src/Compiler/Parser/Contents.antt =====
-- crates/barbacane-compiler/src/spec_parser/parser.rs: parameters, request bodies and responses.
use Prim.Native.String.{[]}
use barbacane.Common.{
  String, Bool, false, if◌then◌else◌, List, [], ◌∷◌, ◌++◌, Option, none, some, Dict, is_empty,
  str_eq, unwrap_or,
}
use barbacane.Common.Json.{
  Value, Values, no_value, value, Fields, no_field, field, get_field, get_str,
}
use barbacane.Common.Results.{ok}
use barbacane.Compiler.Specs.{Parameter, RequestBody, ResponseContent, ContentSchema}
use barbacane.Compiler.Parser.{
  Parsed, parse_then, as_object_if, get_object, get_array, get_bool, resolve, resolve_if,
}

-- The schema of an object, if the value is one.
abbrev pub schema_of : Option Fields → Option Value
schema_of none = none
schema_of (some fs) = get_field "schema" fs

-- The first media type's schema.
abbrev first_schema : Option Fields → Option Value
first_schema (some (field media_type media_obj fs)) = schema_of (as_object_if (some media_obj))
first_schema _ = none

unfoldable pub extract_content_schema : Fields → Option Value
extract_content_schema param_obj = first_schema (get_object "content" param_obj)

abbrev pub raw_schema : String → Fields → Option Value
raw_schema location param_obj =
    if str_eq location "querystring"
    then extract_content_schema param_obj
    else get_field "schema" param_obj

module _ (spec_root : Value) where
  abbrev pub named_parameter : String → Fields → Option Value → Option String → List Parameter
  named_parameter location param_obj schema none = []
  named_parameter location param_obj schema (some name) =
      record {
        name = name;
        location = location;
        required = unwrap_or (get_bool "required" param_obj) false;
        schema = schema;
      }
      ∷ []

  abbrev pub located_parameter : Fields → Option String → Parsed (List Parameter)
  located_parameter param_obj none = ok []
  located_parameter param_obj (some location) =
      parse_then (resolve_if spec_root (raw_schema location param_obj))
        (λ schema. ok (named_parameter location param_obj schema (get_str "name" param_obj)))

  -- One item of the array: none if it is no object, or has no location or no name.
  abbrev pub parse_parameter : Option Fields → Parsed (List Parameter)
  parse_parameter none = ok []
  parse_parameter (some param_obj) = located_parameter param_obj (get_str "in" param_obj)

  unfoldable pub parse_items : Values → Parsed (List Parameter)
  parse_items no_value = ok []
  parse_items (value item items) =
      parse_then (parse_parameter (as_object_if (some item)))
        (λ first. parse_then (parse_items items) (λ rest. ok (first ++ rest)))

  abbrev pub parse_array : Option Values → Parsed (List Parameter)
  parse_array none = ok []
  parse_array (some arr) = parse_items arr

  abbrev pub parse_parameters : Fields → Parsed (List Parameter)
  parse_parameters obj = parse_array (get_array "parameters" obj)

  -- The media types of a `content` object with their schemas.
  unfoldable pub parse_content : Fields → Parsed (Dict ContentSchema)
  parse_content no_field = ok []
  parse_content (field media_type media_obj fs) =
      parse_then (resolve_if spec_root (schema_of (as_object_if (some media_obj)))) (λ schema.
        parse_then (parse_content fs)
          (λ content. ok ((media_type, record { schema = schema }) ∷ content)))

  abbrev pub body_with : Bool → Option Fields → Parsed (Option RequestBody)
  body_with required none = ok none
  body_with required (some content_obj) =
      parse_then (parse_content content_obj)
        (λ content. ok (some (record { required = required; content = content })))

  abbrev pub parse_body : Option Fields → Parsed (Option RequestBody)
  parse_body none = ok none
  parse_body (some body) =
      body_with (unwrap_or (get_bool "required" body) false) (get_object "content" body)

  abbrev pub parse_request_body : Fields → Parsed (Option RequestBody)
  parse_request_body obj = parse_body (get_object "requestBody" obj)

  abbrev pub nonempty_response : String → Dict ContentSchema → Dict ResponseContent
  nonempty_response status_code content =
      if is_empty content then [] else (status_code, record { content = content }) ∷ []

  abbrev pub response_with : String → Option Fields → Parsed (Dict ResponseContent)
  response_with status_code none = ok []
  response_with status_code (some content_obj) =
      parse_then (parse_content content_obj) (λ content. ok (nonempty_response status_code content))

  abbrev pub response_of : String → Option Fields → Parsed (Dict ResponseContent)
  response_of status_code none = ok []
  response_of status_code (some resp_obj) =
      response_with status_code (get_object "content" resp_obj)

  unfoldable pub parse_statuses : Fields → Parsed (Dict ResponseContent)
  parse_statuses no_field = ok []
  parse_statuses (field status_code resp_value fs) =
      parse_then (resolve spec_root resp_value) (λ resolved.
        parse_then (response_of status_code (as_object_if (some resolved)))
          (λ first. parse_then (parse_statuses fs) (λ rest. ok (first ++ rest))))

  abbrev pub responses_in : Option Fields → Parsed (Dict ResponseContent)
  responses_in none = ok []
  responses_in (some responses) = parse_statuses responses

  abbrev pub parse_responses : Fields → Parsed (Dict ResponseContent)
  parse_responses obj = responses_in (get_object "responses" obj)
