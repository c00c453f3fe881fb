-- ===== src/Compiler/Settings.antt =====
-- crates/barbacane-compiler/src/artifact.rs: middleware chains, upstreams, secrets and MCP settings of
-- one operation.
use barbacane.Common.{
  String, Bool, true, false, not, ◌&&◌, ◌||◌, if◌then◌else◌, List, [], ◌∷◌, ◌++◌, map, Option, none,
  some, Dict, lookup, contains, is_empty, retain, split_once, str_empty, unwrap_or,
}
use barbacane.Common.Json.{
  Value, null, bool, number, string, array, object, Values, no_value, value, Fields, no_field,
  field, str_at, bool_at, starts_with,
}
use barbacane.Compiler.Errors.{format}
use barbacane.Compiler.Specs.{ApiSpec, MiddlewareConfig, CompileWarning, McpConfig}

abbrev pub names : List MiddlewareConfig → List String
names ms = map (λ m. m.name) ms

abbrev pub overlay : List MiddlewareConfig → List MiddlewareConfig → List MiddlewareConfig
overlay global op_mw = retain (λ m. not (contains m.name (names op_mw))) global ++ op_mw

-- No operation-level chain inherits the global one, an empty one opts out.
unfoldable pub resolve_middlewares :
    List MiddlewareConfig → Option (List MiddlewareConfig) → List MiddlewareConfig
resolve_middlewares global none = global
resolve_middlewares global (some op_mw) = if is_empty op_mw then [] else overlay global op_mw

abbrev pub url_like : Option String → Option String
url_like none = none
url_like (some upstream) =
    if starts_with "http://" upstream || starts_with "https://" upstream
    then some upstream
    else none

abbrev pub url_or : Option String → Option String → Option String
url_or (some url) other = some url
url_or none other = other

unfoldable pub extract_upstream_url : Value → Option String
extract_upstream_url config = url_or (str_at "url" config) (url_like (str_at "upstream" config))

unfoldable pub normalize_plugin_name : String → String
normalize_plugin_name name = base (split_once b'@' name)
  where
    base : Option (String × String) → String
    base none = name
    base (some (before, version)) = before

abbrev pub warning : String → String → Option String → CompileWarning
warning code message location = record {
  warning_code = code;
  message = message;
  location = location;
}

abbrev known_extensions : List String
known_extensions = "x-barbacane-dispatch" ∷ "x-barbacane-middlewares" ∷ "x-barbacane-mcp" ∷ []

-- E1015, at the root and at an operation.
abbrev pub unknown_extensions : String → Dict Value → List CompileWarning
unknown_extensions location [] = []
unknown_extensions location ((key, v) ∷ extensions) =
    if starts_with "x-barbacane-" key && not (contains key known_extensions)
    then warning "E1015" (format ("unknown extension: " ∷ key ∷ [])) (some location)
      ∷ unknown_extensions location extensions
    else unknown_extensions location extensions

abbrev pub is_secret_ref : String → Bool
is_secret_ref s = starts_with "env://" s || starts_with "file://" s

module _ (plugin : String) (secret_fields : List String) (location : String) where
  abbrev pub plaintext : String → CompileWarning
  plaintext key =
      warning "E1070"
        (format (
          "plugin '" ∷ plugin ∷ "' config field '" ∷ key
          ∷ "' is a secret but is set to a plaintext literal; use an env:// or file:// reference so it is resolved at runtime instead of baked into the artifact"
          ∷ []))
        (some location)

  abbrev pub scan_literal : String → Value → List CompileWarning
  scan_literal key (string s) =
      if contains key secret_fields && not (str_empty s) && not (is_secret_ref s)
      then plaintext key ∷ []
      else []
  scan_literal key _ = []

  -- The recursion below the test of `scan_plaintext_secrets` for an empty set of fields.
  unfoldable mutual
    pub scan_value : Value → List CompileWarning
    scan_value null = []
    scan_value (bool b) = []
    scan_value (number n) = []
    scan_value (string s) = []
    scan_value (array vs) = scan_items vs
    scan_value (object fs) = scan_fields fs

    pub scan_items : Values → List CompileWarning
    scan_items no_value = []
    scan_items (value v vs) = scan_value v ++ scan_items vs

    pub scan_fields : Fields → List CompileWarning
    scan_fields no_field = []
    scan_fields (field k v fs) = scan_literal k v ++ (scan_value v ++ scan_fields fs)

unfoldable pub scan_plaintext_secrets : Value → String → List String → String → List CompileWarning
scan_plaintext_secrets config plugin secret_fields location =
    if is_empty secret_fields then [] else scan_value plugin secret_fields location config

abbrev pub root_mcp : Value → McpConfig
root_mcp v = record {
  enabled = unwrap_or (bool_at "enabled" v) false;
  server_name = str_at "server_name" v;
  server_version = str_at "server_version" v;
}

abbrev pub root_mcp_or : Option Value → McpConfig → McpConfig
root_mcp_or (some v) other = root_mcp v
root_mcp_or none other = other

-- The first specification with the extension decides.
unfoldable pub extract_root_mcp_config : List ApiSpec → McpConfig
extract_root_mcp_config [] = record { enabled = false; server_name = none; server_version = none }
extract_root_mcp_config (spec ∷ specs) =
    root_mcp_or (lookup "x-barbacane-mcp" spec.extensions) (extract_root_mcp_config specs)

abbrev pub inherited : McpConfig → Option Bool
inherited root = if root.enabled then some true else none

abbrev pub enabled_or : Option Bool → Option Bool → Option Bool
enabled_or (some b) other = some b
enabled_or none other = other

unfoldable pub resolve_mcp_config : McpConfig → Option Value → Option Bool × Option String
resolve_mcp_config root none = (inherited root, none)
resolve_mcp_config root (some ext) =
    (enabled_or (bool_at "enabled" ext) (inherited root), str_at "description" ext)
