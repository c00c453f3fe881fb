-- ===== src/Capabilities.antt =====
-- crates/barbacane-wasm/src/manifest.rs and validate.rs: the manifest of a plugin, and the check of its
-- module's exports and imports.
pub mod Imports
mod Runs
use Prim.Native.String.{[]}
use barbacane.Common.{
  ℕ, String, Bool, true, false, not, ◌&&◌, ◌||◌, ltb, if◌then◌else◌, List, [], ◌∷◌, ◌++◌, Option,
  none, some, any, contains, str_eq, str_empty,
}
use barbacane.Common.Results.{Result, ok, err}
use barbacane.Compiler.Errors.{format}
use barbacane.Chain.Errors.{
  WasmError, missing_export, invalid_export_signature, undeclared_import, unknown_capability,
  manifest_parse, manifest_validation,
}

pub data PluginType : Type 0 where
  middleware dispatcher : PluginType

abbrev pub required_exports : PluginType → List String
required_exports middleware = "init" ∷ "on_request" ∷ "on_response" ∷ []
required_exports dispatcher = "init" ∷ "dispatch" ∷ []

pub record PluginMeta : Type 0 where
  pub name : String
  pub version : String
  pub plugin_type : PluginType
  pub description : Option String
  pub wasm : String

pub record Capabilities : Type 0 where
  pub host_functions : List String
  pub body_access : Bool

pub record PluginManifest : Type 0 where
  pub plugin : PluginMeta
  pub capabilities : Capabilities

abbrev pub known_capabilities : List String
known_capabilities =
    "log" ∷ "context_get" ∷ "context_set" ∷ "clock_now" ∷ "get_secret" ∷ "http_call"
    ∷ "kafka_publish" ∷ "nats_publish" ∷ "telemetry" ∷ "generate_uuid" ∷ "verify_signature"
    ∷ "ws_upgrade" ∷ "cache" ∷ "rate_limit" ∷ []

abbrev pub is_known_capability : String → Bool
is_known_capability name = contains name known_capabilities

unfoldable pub capability_to_imports : String → List String
capability_to_imports capability =
    if str_eq capability "log"
    then "host_log" ∷ []
    else if str_eq capability "context_get"
    then "host_context_get" ∷ "host_context_read_result" ∷ []
    else if str_eq capability "context_set"
    then "host_context_set" ∷ []
    else if str_eq capability "clock_now"
    then "host_clock_now" ∷ "host_time_now" ∷ "host_get_unix_timestamp" ∷ []
    else if str_eq capability "get_secret"
    then "host_get_secret" ∷ "host_secret_read_result" ∷ []
    else if str_eq capability "http_call"
    then "host_http_call" ∷ "host_http_read_result" ∷ "host_http_stream"
      ∷ "host_http_request_body_set" ∷ "host_http_response_body_len"
      ∷ "host_http_response_body_read" ∷ []
    else if str_eq capability "kafka_publish"
    then "host_kafka_publish" ∷ "host_broker_read_result" ∷ []
    else if str_eq capability "nats_publish"
    then "host_nats_publish" ∷ "host_broker_read_result" ∷ []
    else if str_eq capability "cache"
    then "host_cache_get" ∷ "host_cache_set" ∷ "host_cache_read_result" ∷ []
    else if str_eq capability "rate_limit"
    then "host_rate_limit_check" ∷ "host_rate_limit_read_result" ∷ []
    else if str_eq capability "telemetry"
    then "host_metric_counter_inc" ∷ "host_metric_histogram_observe" ∷ "host_span_start"
      ∷ "host_span_end" ∷ "host_span_set_attribute" ∷ []
    else if str_eq capability "generate_uuid"
    then "host_uuid_generate" ∷ "host_uuid_read_result" ∷ []
    else if str_eq capability "verify_signature"
    then "host_verify_signature" ∷ []
    else if str_eq capability "ws_upgrade"
    then "host_ws_upgrade" ∷ "host_http_read_result" ∷ []
    else []

-- regex_lite on the name, semver on the version, and the length of a text in bytes.
pub record Checks : Type 0 where
  pub is_name : String → Bool
  pub is_version : String → Bool
  pub len : String → ℕ

abbrev pub check_capabilities : List String → Result Unit WasmError
check_capabilities [] = ok tt
check_capabilities (func ∷ funcs) =
    if is_known_capability func then check_capabilities funcs else err (unknown_capability func)

abbrev pub too_long : Checks → Option String → Bool
too_long checks none = false
too_long checks (some desc) = ltb 256 (checks.len desc)

unfoldable pub validate : Checks → PluginManifest → Result Unit WasmError
validate checks manifest =
    if str_empty manifest.plugin.name || ltb 64 (checks.len manifest.plugin.name)
    then err (manifest_validation "plugin name must be 1-64 characters")
    else if not (checks.is_name manifest.plugin.name)
    then err (manifest_validation "plugin name must be lowercase, kebab-case (^[a-z][a-z0-9-]*$)")
    else if not (checks.is_version manifest.plugin.version)
    then err
        (manifest_validation (format ("invalid semver version: " ∷ manifest.plugin.version ∷ [])))
    else if too_long checks manifest.plugin.description
    then err (manifest_validation "description must be at most 256 characters")
    else if str_empty manifest.plugin.wasm
    then err (manifest_validation "wasm path cannot be empty")
    else check_capabilities manifest.capabilities.host_functions

-- `PluginManifest::from_toml`, with the reading of the text by toml.
abbrev pub from_toml :
    Checks → (String → Result PluginManifest String) → String → Result PluginManifest WasmError
from_toml checks from_str content = read (from_str content)
  where
    validated : PluginManifest → Result Unit WasmError → Result PluginManifest WasmError
    validated manifest (err e) = err e
    validated manifest (ok u) = ok manifest

    read : Result PluginManifest String → Result PluginManifest WasmError
    read (err e) = err (manifest_parse e)
    read (ok manifest) = validated manifest (validate checks manifest)

abbrev pub has_capability : PluginManifest → String → Bool
has_capability manifest capability = contains capability manifest.capabilities.host_functions

pub data ValType : Type 0 where
  i32_type other_type : ValType

pub data ExternType : Type 0 where
  func : (params results : List ValType) → ExternType
  not_func : ExternType

pub record Export : Type 0 where
  pub name : String
  pub ty : ExternType

pub record Import : Type 0 where
  pub module_name : String
  pub name : String

-- wasmtime's view of a compiled module.
pub record Module : Type 0 where
  pub exports : List Export
  pub imports : List Import

abbrev pub export_names : List Export → List String
export_names [] = []
export_names (e ∷ es) = e.name ∷ export_names es

-- (i32, i32) -> i32, with the `Debug` text of the type.
abbrev pub validate_signature : (ExternType → String) → String → ExternType → Result Unit WasmError
validate_signature debug name (func (i32_type ∷ (i32_type ∷ [])) (i32_type ∷ [])) = ok tt
validate_signature debug name (func params results) =
    err (invalid_export_signature name "(i32, i32) -> i32" (debug (func params results)))
validate_signature debug name not_func =
    err (invalid_export_signature name "function" (debug not_func))

abbrev pub has_signature : String → Bool
has_signature name = contains name ("init" ∷ "on_request" ∷ "on_response" ∷ "dispatch" ∷ [])

abbrev pub and_then : Result Unit WasmError → Result Unit WasmError → Result Unit WasmError
and_then (err e) rest = err e
and_then (ok u) rest = rest

abbrev pub validate_signatures : (ExternType → String) → List Export → Result Unit WasmError
validate_signatures debug [] = ok tt
validate_signatures debug (e ∷ es) =
    and_then (if has_signature e.name then validate_signature debug e.name e.ty else ok tt)
      (validate_signatures debug es)

abbrev pub check_required : List String → List String → Result Unit WasmError
check_required exports [] = ok tt
check_required exports (required ∷ rest) =
    if contains required exports then check_required exports rest else err (missing_export required)

unfoldable pub validate_exports :
    (ExternType → String) → Module → PluginType → Result Unit WasmError
validate_exports debug wasm plugin_type =
    and_then (check_required (export_names wasm.exports) ("memory" ∷ required_exports plugin_type))
      (validate_signatures debug wasm.exports)

abbrev pub core_imports : List String
core_imports =
    "host_set_output" ∷ "host_body_len" ∷ "host_body_read" ∷ "host_body_set" ∷ "host_body_clear"
    ∷ []

unfoldable pub declared_imports : List String → List String
declared_imports [] = []
declared_imports (capability ∷ rest) = capability_to_imports capability ++ declared_imports rest

unfoldable pub check_imports : List String → List Import → Result Unit WasmError
check_imports allowed [] = ok tt
check_imports allowed (i ∷ imports) =
    let rest = check_imports allowed imports in
    if str_eq i.module_name "barbacane" && not (contains i.name allowed)
    then err (undeclared_import i.name)
    else rest

unfoldable pub validate_imports : Module → List String → Result Unit WasmError
validate_imports wasm declared_capabilities =
    check_imports (core_imports ++ declared_imports declared_capabilities) wasm.imports
