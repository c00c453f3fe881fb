-- ===== src/Compiler/Operations.antt =====
-- crates/barbacane-compiler/src/artifact.rs: the loop of `compile_inner` over specifications and their
-- operations, its checks in order, and the sort of what it accepts.
use barbacane.Common.{
  ℕ, suc, String, Bool, true, false, not, ◌&&◌, ◌||◌, if◌then◌else◌, List, [], ◌∷◌, ◌++◌, Option,
  none, some, Dict, lookup, insert, is_some, str_eq, str_empty,
}
use barbacane.Common.Json.{Value, starts_with}
use barbacane.Common.Results.{Result, ok, err}
use barbacane.Compiler.Errors.{
  CompileError, routing_conflict, missing_dispatch, plaintext_upstream, missing_middleware_name,
  ambiguous_route, duplicate_operation_id, format, decimal,
}
use barbacane.Compiler.Specs.{
  Operation, CompiledOperation, CompileWarning, ContentSchema, RequestBody, Parameter,
  DispatchConfig, MiddlewareConfig,
}
use barbacane.Compiler.Schemas.{validate_schema_complexity}
use barbacane.Compiler.Settings.{
  extract_upstream_url, normalize_plugin_name, warning, scan_plaintext_secrets,
}
use barbacane.Compiler.Templates.{normalize_path_template}

pub record CompileOptions : Type 0 where
  pub allow_plaintext : Bool
  pub max_schema_depth : ℕ
  pub max_schema_properties : ℕ

pub record PluginBundle : Type 0 where
  pub name : String
  pub secret_fields : List String

-- A `HashMap` whose keys are pairs: the last value that was inserted at a key stands first.
abbrev pub Pairs : Type 0 → Type 0
Pairs V = List ((String × String) × V)

abbrev pub same_pair : String × String → String × String → Bool
same_pair (a, b) (c, d) = str_eq a c && str_eq b d

unfoldable pub get_pair : {V : Type 0} → String × String → Pairs V → Option V
get_pair k [] = none
get_pair k ((i, v) ∷ m) = let rest = get_pair k m in if same_pair i k then some v else rest

-- The mutable variables of `compile_inner`.
pub record Compilation : Type 0 where
  pub warnings : List CompileWarning
  pub operations : List CompiledOperation
  pub seen_routes : Pairs String
  pub seen_structural : Pairs (String × String)
  pub seen_operation_ids : Dict String

abbrev pub begin : Compilation
begin = record {
  warnings = [];
  operations = [];
  seen_routes = [];
  seen_structural = [];
  seen_operation_ids = [];
}

abbrev pub try_then :
    {A B : Type 0} → Result A CompileError → (A → Result B CompileError) → Result B CompileError
try_then (err e) go = err e
try_then (ok a) go = go a

abbrev pub require : Bool → CompileError → Result Unit CompileError
require true e = ok tt
require false e = err e

-- "{method} {path} in '{spec_file}'"
abbrev pub location_of : String → Operation → String
location_of spec_file op = format (op.method ∷ " " ∷ op.path ∷ " in '" ∷ spec_file ∷ "'" ∷ [])

abbrev pub add_warnings : List CompileWarning → Compilation → Compilation
add_warnings ws c = record c { warnings = c.warnings ++ ws }

-- E1011. The middlewares are counted from one in the message.
abbrev pub check_names : String → String → ℕ → List MiddlewareConfig → Result Unit CompileError
check_names before after idx [] = ok tt
check_names before after idx (mw ∷ mws) =
    if str_empty mw.name
    then err (missing_middleware_name (format (before ∷ decimal (suc idx) ∷ after ∷ [])))
    else check_names before after (suc idx) mws

-- E1055
abbrev pub seen_operation_id :
    String → String → Option String → Compilation → Result Compilation CompileError
seen_operation_id op_id location (some first_location) c = err (
    duplicate_operation_id op_id
      (format ("first at " ∷ first_location ∷ ", duplicate at " ∷ location ∷ [])))
seen_operation_id op_id location none c =
    ok (record c { seen_operation_ids = insert op_id location c.seen_operation_ids })

abbrev pub check_operation_id :
    String → Option String → Compilation → Result Compilation CompileError
check_operation_id location none c = ok c
check_operation_id location (some op_id) c =
    seen_operation_id op_id location (lookup op_id c.seen_operation_ids) c

-- E1010
abbrev pub seen_route :
    String → Operation → Option String → Compilation → Result Compilation CompileError
seen_route spec_file op (some other_spec) c = err (
    routing_conflict (
      format (
        op.method ∷ " " ∷ op.path ∷ " declared in both '" ∷ other_spec ∷ "' and '" ∷ spec_file ∷ "'"
        ∷ [])))
seen_route spec_file op none c =
    ok (record c { seen_routes = ((op.path, op.method), spec_file) ∷ c.seen_routes })

abbrev pub check_route : String → Operation → Compilation → Result Compilation CompileError
check_route spec_file op c = seen_route spec_file op (get_pair (op.path, op.method) c.seen_routes) c

-- E1050
abbrev pub record_structure : String → Operation → Compilation → Compilation
record_structure spec_file op c = record c {
  seen_structural =
      ((normalize_path_template op.path, op.method), (op.path, spec_file)) ∷ c.seen_structural;
}

abbrev pub seen_structure :
    String → Operation → Option (String × String) → Compilation → Result Compilation CompileError
seen_structure spec_file op none c = ok (record_structure spec_file op c)
seen_structure spec_file op (some (other_path, other_spec)) c =
    if not (str_eq other_path op.path)
    then err (
        ambiguous_route (
          format (
            "'" ∷ op.path ∷ "' and '" ∷ other_path
            ∷ "' have same structure but different param names (" ∷ op.method ∷ " in '" ∷ spec_file
            ∷ "' vs '" ∷ other_spec ∷ "')" ∷ [])))
    else ok (record_structure spec_file op c)

abbrev pub check_structure : String → Operation → Compilation → Result Compilation CompileError
check_structure spec_file op c =
    seen_structure spec_file op
      (get_pair (normalize_path_template op.path, op.method) c.seen_structural) c

-- E1020
abbrev pub check_dispatch : String → Option DispatchConfig → Result DispatchConfig CompileError
check_dispatch location none = err (missing_dispatch location)
check_dispatch location (some dispatch) = ok dispatch

-- E1031
abbrev pub check_upstream : String → Option String → Result Unit CompileError
check_upstream location none = ok tt
check_upstream location (some url) =
    if starts_with "http://" url
    then err (plaintext_upstream (format (location ∷ " - upstream URL: " ∷ url ∷ [])))
    else ok tt

abbrev pub check_plaintext : CompileOptions → String → DispatchConfig → Result Unit CompileError
check_plaintext options location dispatch =
    if options.allow_plaintext
    then ok tt
    else check_upstream location (extract_upstream_url dispatch.config)

-- E1051 and E1052
abbrev pub check_schema : CompileOptions → String → Option Value → Result Unit CompileError
check_schema options location none = ok tt
check_schema options location (some schema) =
    validate_schema_complexity schema options.max_schema_depth options.max_schema_properties
      location

abbrev pub check_parameters : CompileOptions → String → List Parameter → Result Unit CompileError
check_parameters options location [] = ok tt
check_parameters options location (p ∷ ps) =
    try_then
      (check_schema options (format (location ∷ " parameter '" ∷ p.name ∷ "'" ∷ [])) p.schema)
      (λ _. check_parameters options location ps)

abbrev pub check_contents : CompileOptions → String → Dict ContentSchema → Result Unit CompileError
check_contents options location [] = ok tt
check_contents options location ((content_type, content) ∷ contents) =
    try_then
      (check_schema options (format (location ∷ " request body (" ∷ content_type ∷ ")" ∷ []))
        content.schema)
      (λ _. check_contents options location contents)

abbrev pub check_body : CompileOptions → String → Option RequestBody → Result Unit CompileError
check_body options location none = ok tt
check_body options location (some body) = check_contents options location body.content

-- E1070
abbrev pub secrets_of :
    Option (List String) → (List String → List CompileWarning) → List CompileWarning
secrets_of none go = []
secrets_of (some fields) go = go fields

abbrev pub scan_plugin : Dict (List String) → String → Value → String → List CompileWarning
scan_plugin plugin_secret_fields name config location =
    secrets_of (lookup (normalize_plugin_name name) plugin_secret_fields)
      (λ fields. scan_plaintext_secrets config name fields location)

abbrev pub scan_middlewares :
    Dict (List String) → String → List MiddlewareConfig → List CompileWarning
scan_middlewares plugin_secret_fields location [] = []
scan_middlewares plugin_secret_fields location (mw ∷ mws) =
    scan_plugin plugin_secret_fields mw.name mw.config location
    ++ scan_middlewares plugin_secret_fields location mws

-- E1060 and E1061
abbrev pub is_enabled : Option Bool → Bool
is_enabled (some b) = b
is_enabled none = false

abbrev pub mcp_warnings : String → Operation → Option Bool → List CompileWarning
mcp_warnings location op mcp_enabled =
    if is_enabled mcp_enabled
    then (if is_some op.operation_id
        then []
        else warning "E1060" "operation without operationId cannot be exposed as MCP tool"
            (some location)
          ∷ [])
      ++ (if is_some op.summary || is_some op.description
          then []
          else warning "E1061"
              "MCP-enabled operation has no summary or description for tool metadata"
              (some location)
            ∷ [])
    else []
