-- ===== src/Compiler/Parser.antt =====
-- crates/barbacane-compiler/src/spec_parser/parser.rs: the parts of a specification's document that both
-- formats share. The document is the JSON value that its YAML is read as.
pub mod Contents
pub mod OpenApi
pub mod AsyncApi
pub mod Spec
pub mod Methods
mod Runs
use Prim.Native.String.{[], ◌++◌ as text_append}
use barbacane.Common.{
  String, Bool, true, false, if◌then◌else◌, List, [], ◌∷◌, ◌++◌, Option, none, some, Dict, insert,
  is_empty, length, str_eq, unwrap_or,
}
use barbacane.Common.Json.{
  Value, null, string, array, object, Values, no_value, value, Fields, no_field, field, get_field,
  get_str, as_bool, starts_with, bool_at, str_at,
}
use barbacane.Common.Results.{Result, ok, err}
use barbacane.Compiler.Refs.{ParseError, schema_error, unknown_format, Outcome, resolve_schema_refs}
use barbacane.Compiler.Refs.Terminates.{refs}
use barbacane.Compiler.Errors.{format}
use barbacane.Compiler.Specs.{
  Parameter, RequestBody, ResponseContent, ContentSchema, MiddlewareConfig, DispatchConfig,
  SpecFormat, open_api, async_api,
}

abbrev pub Parsed : Type 0 → Type 0
Parsed A = Result A ParseError

abbrev pub parse_then : {A B : Type 0} → Parsed A → (A → Parsed B) → Parsed B
parse_then (err e) go = err e
parse_then (ok a) go = go a

-- `v.as_object()`, of a value that may be missing.
abbrev pub as_object_if : Option Value → Option Fields
as_object_if (some (object fs)) = some fs
as_object_if _ = none

abbrev pub as_array_if : Option Value → Option Values
as_array_if (some (array vs)) = some vs
as_array_if _ = none

abbrev pub get_object : String → Fields → Option Fields
get_object key obj = as_object_if (get_field key obj)

abbrev pub get_array : String → Fields → Option Values
get_array key obj = as_array_if (get_field key obj)

abbrev pub get_bool : String → Fields → Option Bool
get_bool key obj = bool_at key (object obj)

-- A map of JSON values, by its fields.
abbrev pub entries : Fields → Dict Value
entries no_field = []
entries (field k v fs) = (k, v) ∷ entries fs

abbrev pub entries_if : Option Fields → Dict Value
entries_if none = []
entries_if (some fs) = entries fs

-- The resolution of a schema from no visited reference, with the fuel that is enough for it.
abbrev pub resolved : Outcome Value → Parsed Value
resolved none = err (schema_error "")
resolved (some (result, visited)) = result

abbrev pub resolve : Value → Value → Parsed Value
resolve spec_root v =
    resolved (resolve_schema_refs (length (refs v ++ refs spec_root)) spec_root v [])

abbrev some_value : Value → Parsed (Option Value)
some_value v = ok (some v)

-- `raw_schema.map(resolve).transpose()`
abbrev pub resolve_if : Value → Option Value → Parsed (Option Value)
resolve_if spec_root none = ok none
resolve_if spec_root (some v) = parse_then (resolve spec_root v) some_value

abbrev check_version : SpecFormat → String → String → Parsed (SpecFormat × String)
check_version spec_format name version =
    if starts_with "3." version
    then ok (spec_format, version)
    else err (
        schema_error
          (format ("unsupported " ∷ name ∷ " version: " ∷ version ∷ " (only 3.x supported)" ∷ [])))

abbrev detect_async : Option String → Parsed (SpecFormat × String)
detect_async (some version) = check_version async_api "AsyncAPI" version
detect_async none = err unknown_format

abbrev detect_open : Option String → Option String → Parsed (SpecFormat × String)
detect_open (some version) other = check_version open_api "OpenAPI" version
detect_open none other = detect_async other

unfoldable pub detect_format : Fields → Parsed (SpecFormat × String)
detect_format root = detect_open (get_str "openapi" root) (get_str "asyncapi" root)

unfoldable pub extract_extensions : Fields → Dict Value
extract_extensions no_field = []
extract_extensions (field k v fs) =
    let rest = extract_extensions fs in if starts_with "x-barbacane-" k then (k, v) ∷ rest else rest

-- `serde_json::from_value` for a struct of a name and a configuration that may be missing: from an
-- object, or from an array of its fields.
abbrev pub name_and_config : Option String → Option Value → Option (String × Value)
name_and_config none config = none
name_and_config (some name) config = some (name, unwrap_or config null)

abbrev pub from_value : Value → Option (String × Value)
from_value (object fs) = name_and_config (get_str "name" fs) (get_field "config" fs)
from_value (array (value (string name) no_value)) = some (name, null)
from_value (array (value (string name) (value config no_value))) = some (name, config)
from_value _ = none

abbrev pub middleware_of : Option (String × Value) → List MiddlewareConfig
middleware_of none = []
middleware_of (some (name, config)) = record { name = name; config = config } ∷ []

-- An item that is no middleware configuration is left out.
abbrev pub middlewares_in : Values → List MiddlewareConfig
middlewares_in no_value = []
middlewares_in (value v vs) = middleware_of (from_value v) ++ middlewares_in vs

abbrev pub middlewares_if : Option Values → List MiddlewareConfig
middlewares_if none = []
middlewares_if (some vs) = middlewares_in vs

unfoldable pub extract_middlewares : Fields → List MiddlewareConfig
extract_middlewares obj = middlewares_if (get_array "x-barbacane-middlewares" obj)

abbrev pub dispatch_of : Option (String × Value) → Option DispatchConfig
dispatch_of none = none
dispatch_of (some (name, config)) = some (record { name = name; config = config })

abbrev pub dispatch_if : Option Value → Option DispatchConfig
dispatch_if none = none
dispatch_if (some v) = dispatch_of (from_value v)

unfoldable pub extract_dispatch : Fields → Option DispatchConfig
extract_dispatch obj = dispatch_if (get_field "x-barbacane-dispatch" obj)
