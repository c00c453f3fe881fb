-- ===== src/Validator/Operation.antt =====
-- crates/barbacane/src/validator.rs: `OperationValidator`, from an operation's parameters and body to
-- the check of a request.
use Prim.Native.String.{[], ◌∷◌, ◌++◌ as text_append}
use barbacane.Common.{
  ℕ, String, Bool, ◌&&◌, ◌||◌, if◌then◌else◌, List, [], ◌∷◌, ◌++◌, Option, none, some, Dict, lookup,
  insert, is_empty, split, str_eq, join, trim, unwrap_or,
}
use barbacane.Common.Json.{Value, starts_with}
use barbacane.Common.Results.{Result, ok, err}
use barbacane.Compiler.Specs.{Parameter, RequestBody, ContentSchema}
use barbacane.Validator.Limits.{
  ValidationError2, missing_required_body, unsupported_content_type, invalid_body,
}
use barbacane.Validator.Decode.{Utf8}
use barbacane.Validator.Params.{
  Jsonschema, CompiledParam, validate_path_params, validate_query_params, validate_querystring,
  validate_header_params,
}

abbrev pub Validated : Type 0
Validated = Result Unit (List ValidationError2)

abbrev pub and_validate : Validated → Validated → Validated
and_validate (err e) other = err e
and_validate (ok u) other = other

-- `str::contains`
unfoldable pub contains_text : String → String → Bool
contains_text p [] = starts_with p []
contains_text p (c ∷ s) = starts_with p (c ∷ s) || contains_text p s

abbrev first_or : String → List String → String
first_or other [] = other
first_or other (s ∷ ss) = s

-- The media type before its parameters.
unfoldable pub base_type : Option String → String
base_type content_type =
    (let ct = unwrap_or content_type "application/octet-stream" in
      trim (first_or ct (split b';' ct)))

module _ (js : Jsonschema) where
  open js use {Schema, build, iter_errors}

  pub record CompiledRequestBody : Type 0 where
    pub required : Bool
    pub content : Dict (Option Schema)

  pub record OperationValidator : Type 0 where
    pub path_params : List (CompiledParam js)
    pub query_params : List (CompiledParam js)
    pub header_params : List (CompiledParam js)
    pub querystring_param : Option (CompiledParam js)
    pub request_body : Option CompiledRequestBody

  -- A schema that does not compile is as none.
  abbrev pub compile_schema : Option Value → Option Schema
  compile_schema none = none
  compile_schema (some schema) = build schema

  abbrev pub compile_param : Parameter → CompiledParam js
  compile_param param = record {
    name = param.name;
    required = param.required || str_eq param.location "path";
    schema = compile_schema param.schema;
  }

  abbrev pub add_param : Parameter → OperationValidator → OperationValidator
  add_param param v =
      (let compiled = compile_param param in
        if str_eq param.location "path"
        then record v { path_params = v.path_params ++ compiled ∷ [] }
        else if str_eq param.location "query"
        then record v { query_params = v.query_params ++ compiled ∷ [] }
        else if str_eq param.location "header"
        then record v { header_params = v.header_params ++ compiled ∷ [] }
        else if str_eq param.location "querystring"
        then record v { querystring_param = some compiled }
        else v)

  abbrev pub add_params : List Parameter → OperationValidator → OperationValidator
  add_params [] v = v
  add_params (param ∷ params) v = add_params params (add_param param v)

  abbrev pub compile_contents : Dict ContentSchema → Dict (Option Schema) → Dict (Option Schema)
  compile_contents [] content = content
  compile_contents ((media_type, content_schema) ∷ rest) content =
      compile_contents rest (insert media_type (compile_schema content_schema.schema) content)

  abbrev pub compile_body : Option RequestBody → Option CompiledRequestBody
  compile_body none = none
  compile_body (some rb) =
      some (record { required = rb.required; content = compile_contents rb.content [] })

  unfoldable pub new : List Parameter → Option RequestBody → OperationValidator
  new parameters request_body = add_params parameters (record {
    path_params = [];
    query_params = [];
    header_params = [];
    querystring_param = none;
    request_body = compile_body request_body;
  })

  -- `serde_json::from_slice`, with the text of its error.
  module _ (from_slice : List ℕ → Result Value String) where
    abbrev pub body_errors : List String → Validated
    body_errors messages =
        if is_empty messages then ok tt else err (invalid_body (join "; " messages) ∷ [])

    abbrev pub check_json : Schema → Result Value String → Validated
    check_json schema (err e) = err (invalid_body (text_append "invalid JSON: " e) ∷ [])
    check_json schema (ok json_body) = body_errors (iter_errors schema json_body)

    abbrev pub check_schema : String → List ℕ → Option Schema → Validated
    check_schema base_ct body none = ok tt
    check_schema base_ct body (some schema) =
        if contains_text "json" base_ct then check_json schema (from_slice body) else ok tt

    -- The media type itself, or else the wildcard.
    abbrev pub check_content :
        String → List ℕ → Option (Option Schema) → Option (Option Schema) → Validated
    check_content base_ct body (some schema) any = check_schema base_ct body schema
    check_content base_ct body none (some schema) = check_schema base_ct body schema
    check_content base_ct body none none = err (unsupported_content_type base_ct ∷ [])

    abbrev pub validate_body : Option CompiledRequestBody → Option String → List ℕ → Validated
    validate_body none content_type body = ok tt
    validate_body (some body_spec) content_type body =
        if body_spec.required && is_empty body
        then err (missing_required_body ∷ [])
        else if is_empty body
        then ok tt
        else (let base_ct = base_type content_type in
            check_content base_ct body (lookup base_ct body_spec.content)
              (lookup "*/*" body_spec.content))

    -- In order; the first category with an error is the answer.
    unfoldable pub validate_request :
        Utf8
        → (ValidationError2 → String)
        → OperationValidator
        → List (String × String)
        → Option String
        → Dict String
        → Option String
        → List ℕ
        → Validated
    validate_request utf8 debug v path_params query_string headers content_type body =
        and_validate (validate_path_params js v.path_params path_params) (
          and_validate (validate_query_params js utf8 debug v.query_params query_string) (
            and_validate (validate_querystring js v.querystring_param query_string) (
              and_validate (validate_header_params js v.header_params headers)
                (validate_body v.request_body content_type body))))
