-- ===== src/Validator/Params.antt =====
-- crates/barbacane/src/validator.rs: `validate_params`, and the parameters of a path, a query and a set
-- of headers.
use barbacane.Common.{
  ℕ, ◌+◌, ltb, String, Bool, not, if◌then◌else◌, List, [], ◌∷◌, ◌++◌, map, Option, none, some, Dict,
  lookup, insert, is_empty, retain, split, split_once, str_empty, join, to_lowercase, unwrap_or,
  str_leb,
}
use barbacane.Common.Json.{Value, string}
use barbacane.Common.Results.{Result, ok, err}
use barbacane.Validator.Limits.{
  ValidationError2, missing_required_parameter, invalid_parameter, result_of,
}
use barbacane.Validator.Decode.{Utf8, percent_decode}

-- The JSON Schema library: a compiled schema, and the messages of the errors that it finds in a value.
pub record Jsonschema : Type 1 where
  pub Schema : Type 0
  pub build : Value → Option Schema
  pub iter_errors : Schema → Value → List String

module _ (js : Jsonschema) where
  open js use {Schema, build, iter_errors}

  pub record CompiledParam : Type 0 where
    pub name : String
    pub required : Bool
    pub schema : Option Schema

  abbrev pub invalid : String → String → List String → List ValidationError2
  invalid name location messages =
      if is_empty messages then [] else invalid_parameter name location (join "; " messages) ∷ []

  abbrev pub schema_errors : String → String → Option Schema → String → List ValidationError2
  schema_errors location name none value = []
  schema_errors location name (some schema) value =
      invalid name location (iter_errors schema (string value))

  abbrev pub value_errors : String → CompiledParam → Option String → List ValidationError2
  value_errors location param (some value) = schema_errors location param.name param.schema value
  value_errors location param none =
      if param.required then missing_required_parameter param.name location ∷ [] else []

  abbrev pub param_errors :
      String → (String → Option String) → List CompiledParam → List ValidationError2
  param_errors location look_up [] = []
  param_errors location look_up (param ∷ params) =
      value_errors location param (look_up param.name) ++ param_errors location look_up params

  abbrev pub validate_params :
      String → (String → Option String) → List CompiledParam → Result Unit (List ValidationError2)
  validate_params location look_up params = result_of (param_errors location look_up params)

  -- Pairs collected into a map: the last value of a key stays.
  abbrev pub collect : List (String × String) → Dict String → Dict String
  collect [] m = m
  collect ((k, v) ∷ pairs) m = collect pairs (insert k v m)

  abbrev pub validate_path_params :
      List CompiledParam → List (String × String) → Result Unit (List ValidationError2)
  validate_path_params path_params params =
      validate_params "path" (λ name. lookup name (collect params [])) path_params

  module _ (utf8 : Utf8) where
    abbrev pub key_and_value : String → Option (String × String) → String × String
    key_and_value pair none = (percent_decode utf8 pair, percent_decode utf8 "")
    key_and_value pair (some (key, value)) = (percent_decode utf8 key, percent_decode utf8 value)

    -- The decoded pairs of a query string.
    unfoldable pub pairs_of : Option String → List (String × String)
    pairs_of query_string =
        map (λ pair. key_and_value pair (split_once b'=' pair))
          (retain (λ s. not (str_empty s)) (split b'&' (unwrap_or query_string "")))

    abbrev pub count_keys : List (String × String) → Dict ℕ → Dict ℕ
    count_keys [] counts = counts
    count_keys ((key, value) ∷ pairs) counts =
        count_keys pairs (insert key (unwrap_or (lookup key counts) 0 + 1) counts)

    abbrev pub duplicates : Dict ℕ → List CompiledParam → List ValidationError2
    duplicates counts [] = []
    duplicates counts (p ∷ params) =
        if ltb 1 (unwrap_or (lookup p.name counts) 0)
        then invalid_parameter p.name "query" "duplicate query parameter is not allowed"
          ∷ duplicates counts params
        else duplicates counts params

    -- `sort_by` on the texts of the derived `Debug`.
    abbrev pub sort_insert :
        (ValidationError2 → String)
        → ValidationError2
        → List ValidationError2
        → List ValidationError2
    sort_insert debug a [] = a ∷ []
    sort_insert debug a (b ∷ bs) =
        if str_leb (debug a) (debug b) then a ∷ (b ∷ bs) else b ∷ sort_insert debug a bs

    abbrev pub sort_errors :
        (ValidationError2 → String) → List ValidationError2 → List ValidationError2
    sort_errors debug [] = []
    sort_errors debug (a ∷ rest) = sort_insert debug a (sort_errors debug rest)

    abbrev pub check_query :
        (ValidationError2 → String)
        → List CompiledParam
        → List (String × String)
        → List ValidationError2
        → Result Unit (List ValidationError2)
    check_query debug query_params pairs errors =
        if is_empty errors
        then validate_params "query" (λ name. lookup name (collect pairs [])) query_params
        else err (sort_errors debug errors)

    abbrev pub validate_query_params :
        (ValidationError2 → String)
        → List CompiledParam
        → Option String
        → Result Unit (List ValidationError2)
    validate_query_params debug query_params query_string =
        (let pairs = pairs_of query_string in
          check_query debug query_params pairs (duplicates (count_keys pairs []) query_params))

  abbrev pub querystring_errors : CompiledParam → String → List ValidationError2
  querystring_errors param qs =
      if str_empty qs
      then (if param.required then missing_required_parameter param.name "querystring" ∷ [] else [])
      else value_errors "querystring" param (some qs)

  abbrev pub validate_querystring :
      Option CompiledParam → Option String → Result Unit (List ValidationError2)
  validate_querystring none query_string = ok tt
  validate_querystring (some param) query_string =
      result_of (querystring_errors param (unwrap_or query_string ""))

  abbrev pub lower_keys : Dict String → Dict String → Dict String
  lower_keys [] m = m
  lower_keys ((k, v) ∷ headers) m = lower_keys headers (insert (to_lowercase k) v m)

  abbrev pub validate_header_params :
      List CompiledParam → Dict String → Result Unit (List ValidationError2)
  validate_header_params header_params headers =
      (let headers_lower = lower_keys headers [] in
        validate_params "header" (λ name. lookup (to_lowercase name) headers_lower) header_params)
