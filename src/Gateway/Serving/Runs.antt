-- ===== src/Gateway/Serving/Runs.antt =====
-- Runs of the gateway on a loaded artifact.
use Prim.Native.Char.{Char, code}
use barbacane.Common.{
  ◌≡◌, ◌≢◌, refl, String, Bool, true, false, ◌&&◌, leb, List, [], ◌∷◌, none, some, split, lookup,
  insert, to_lowercase, to_uppercase, sort, join,
}
use barbacane.Common.Json.{Value, null, strip_prefix, get_field}
use barbacane.Common.Results.{Result, ok}
use barbacane.Compiler.Specs.{ApiSpec, CompiledOperation}
use barbacane.Compiler.Settings.{
  resolve_middlewares, resolve_mcp_config, extract_upstream_url, extract_root_mcp_config,
}
use barbacane.Compiler.Templates.{
  validate_path_template, scan, normalize_path_template, normalize_in,
}
use barbacane.Compiler.Operations.{CompileOptions, get_pair}
use barbacane.Compiler.Compile.{
  compile_routes, compile_specs, compile_operations, sort_operations, reindex,
}
use barbacane.Compiler.Routes.Collisions.{get_of, spec_of, accepted}
use barbacane.Compiler.Routes.Registered.{register}
use barbacane.Validator.Limits.{default_limits, ValidationError2}
use barbacane.Validator.Runs.{ascii_only, prefixes}
use barbacane.Validator.Operation.{validate_request}
use barbacane.Validator.Decode.{decode_bytes, hex_val}
use barbacane.Router.Path.{normalize_path, parse_path_template, parse_segment}
use barbacane.Router.Trie.{
  lookup as route_lookup, insert as router_insert, traverse_or_create, traverse_and_match,
  get_static, entry_or_default,
}
use barbacane.Validator.Operation.{new as new_validator}
use barbacane.Validator.Params.{pairs_of}
use barbacane.Gateway.Incoming.{parse_usize}
use barbacane.Gateway.Incoming.{Bytes, Incoming, collected, dispatched, panicked}
use barbacane.Gateway.Serving.{Libraries, handle_request}
use barbacane.Gateway.Serving.Admission.{Admitted, handle_request-Admitted}
use barbacane.Gateway.Serving.Loading.{load}
use barbacane.Compiler.Specs.{McpConfig}
use barbacane.Mcp.Arguments.{Writer}
use barbacane.Mcp.Sessions.{SessionStore, Reading}
use barbacane.Mcp.Server.{JsonRpcRequest}
use barbacane.Mcp.Endpoint.{mcp_panicked, load_mcp, handle_mcp_endpoint}
use barbacane.Gateway.Serving.Tools.{with_sessions}
use barbacane.Gateway.Serving.Bounds.{handle_request-load}

abbrev ascii : Char → Bool
ascii c = leb b'a' (code c) && leb (code c) b'z'

abbrev options : CompileOptions
options = record { allow_plaintext = false; max_schema_depth = 32; max_schema_properties = 256 }

abbrev api : List ApiSpec
api = spec_of (get_of "/users/{id}" ∷ get_of "/users" ∷ []) ∷ []

abbrev routes : List CompiledOperation
routes = accepted ascii options "/users" 0 ∷ accepted ascii options "/users/{id}" 1 ∷ []

compiles : compile_routes ascii api [] options ≡ ok routes
unfolding compile_routes compile_specs compile_operations get_pair validate_path_template scan
    normalize_path_template normalize_in resolve_middlewares resolve_mcp_config extract_upstream_url
    extract_root_mcp_config sort_operations reindex lookup get_field split
compiles = refl

abbrev no_json : Bytes → Result Value String
no_json bytes = ok null

abbrev same_text : ValidationError2 → String
same_text e = ""

abbrev libraries : Libraries
libraries = record { js = prefixes; utf8 = ascii_only; from_slice = no_json; debug = same_text }

abbrev get_user : Incoming
get_user = record {
  uri = "/users/a%20b";
  path = "/users/a%20b";
  query = none;
  method = "GET";
  raw_headers = record { name = "accept"; value_len = 3; text = some "*/*" } ∷ [];
  body = collected [];
}

abbrev mcp_config : McpConfig
mcp_config = record { enabled = true; server_name = none; server_version = none }

abbrev no_sessions : SessionStore
no_sessions = record { sessions = []; ttl = 60 }

abbrev reading : Reading
reading = record { evict_now = 1; active_now = 1; uuid = "s" }

abbrev json_writer : Writer
json_writer = record { to_string = λ v. ""; to_vec = λ fs. some [] }

abbrev call : JsonRpcRequest
call = record { jsonrpc = "2.0"; id = none; method = "tools/call"; params = none }

handle_request-load_example :
    ((handle_request libraries (load libraries default_limits routes) get_user).0 ≢ panicked)
    × ((handle_mcp_endpoint ascii_only json_writer
          (λ body. some call)
          default_limits
          routes
          get_user
          reading
          (with_sessions no_sessions (load_mcp routes mcp_config))).0
        ≢ mcp_panicked)
handle_request-load_example =
    handle_request-load ascii api [] options routes libraries default_limits get_user json_writer
      (λ body. some call) reading mcp_config no_sessions compiles

handle_request-Admitted_example :
    Admitted libraries
      (load libraries default_limits routes)
      get_user
      (handle_request libraries (load libraries default_limits routes) get_user).0
handle_request-Admitted_example =
    handle_request-Admitted libraries (load libraries default_limits routes) get_user

dispatches :
    (handle_request libraries (load libraries default_limits routes) get_user).0
    ≡ dispatched
        (accepted ascii options "/users/{id}" 1)
        "/users/a%20b"
        (("id", "a b") ∷ [])
        none
        []
        (("accept", "*/*") ∷ [])
        false
unfolding handle_request load register route_lookup traverse_or_create traverse_and_match get_static
    entry_or_default normalize_path parse_path_template parse_segment validate_request lookup insert
    split join sort to_uppercase to_lowercase strip_prefix decode_bytes hex_val parse_usize pairs_of
    router_insert new_validator
dispatches = refl
