-- ===== src/Compiler/Routes/Collisions.antt =====
-- crates/barbacane-compiler/src/artifact.rs and crates/barbacane/src/router/trie.rs: paths that the
-- compiler tells apart and the router does not.
use Prim.Native.Char.{Char}
use Prim.Native.String.{[], ◌∷◌, ◌++◌ as text_append}
use text.Mathlib.TextLemmas.{append-nil}
use barbacane.Router.Trie.{new, insert}
use barbacane.Router.Path.{parse_segment, split_path, parse_path_template}
use barbacane.Router.Table.{
  template, shape_of, methods_at, methods_at-insert, methods_at-empty_node,
}
use barbacane.Compiler.Routes.Registered.{register, same_shape_refl}
use barbacane.Compiler.Settings.{
  extract_root_mcp_config, extract_upstream_url, resolve_middlewares, resolve_mcp_config,
}
use barbacane.Common.{
  ℕ, ◌++◌, String, ◌≡◌, refl, sym, ap, ◌∙◌, Bool, true, false, List, [], ◌∷◌, map, none, some,
  length, str_eq, lookup as dict_lookup, insert as dict_insert, to_uppercase, Bool-cases, inl, inr,
}
use barbacane.Common.Json.{null}
use barbacane.Common.Results.{ok}
use barbacane.Compiler.Specs.{ApiSpec, Operation, CompiledOperation, open_api}
use barbacane.Compiler.Specs.{McpConfig}
use barbacane.Compiler.Operations.{
  CompileOptions, Compilation, begin, get_pair, location_of, check_plaintext,
}
use barbacane.Compiler.Compile.{
  compile_routes, compile_specs, compile_operation, compile_operations, compiled, in_order, reindex,
  sort_operations,
}
use barbacane.Compiler.Templates.{
  start, scan, validate_path_template, normalize_in, normalize_path_template, last_segment,
}
use barbacane.Compiler.Routes.Segments.{no_braces, normalize_in-fixed, braces_parts}
use barbacane.Compiler.Routes.Shapes.{normalize_in-nil}

module _ (is_alphanumeric : Char → Bool) where
  scan-no_braces :
      (last location s : String)
      → no_braces s ≡ true
      → scan is_alphanumeric last location s start ≡ ok start
  unfolding scan
  scan-no_braces last location [] h = refl
  scan-no_braces last location (c ∷ s) h =
      (let parts = braces_parts c s h in
        rw (parts.0, parts.1) (scan-no_braces last location s parts.2))

  validate_path_template-no_braces :
      (path location : String)
      → no_braces path ≡ true
      → validate_path_template is_alphanumeric path location ≡ ok tt
  unfolding validate_path_template
  validate_path_template-no_braces path location h =
      rw (scan-no_braces (last_segment path) location path h) refl

normalize_path_template-no_braces :
    (path : String) → no_braces path ≡ true → normalize_path_template path ≡ path
unfolding normalize_path_template
normalize_path_template-no_braces path h =
    ap (normalize_in false false) (sym (append-nil path))
    ∙ normalize_in-fixed path [] h
    ∙ ap (text_append path) normalize_in-nil
    ∙ append-nil path

abbrev pub get_of : String → Operation
get_of path = record {
  path = path;
  method = "GET";
  operation_id = none;
  summary = none;
  description = none;
  parameters = [];
  request_body = none;
  dispatch = some (record { name = "mock"; config = null });
  middlewares = none;
  deprecated = false;
  sunset = none;
  extensions = [];
  messages = [];
  bindings = [];
  responses = [];
}

abbrev pub spec_of : List Operation → ApiSpec
spec_of ops = record {
  filename = some "api.yaml";
  spec_format = open_api;
  version = "3.1.0";
  title = "API";
  api_version = "1";
  operations = ops;
  global_middlewares = [];
  extensions = [];
}

abbrev root : McpConfig
root = record { enabled = false; server_name = none; server_version = none }

module _ (is_alphanumeric : Char → Bool) (options : CompileOptions) where
  abbrev pub accepted : String → ℕ → CompiledOperation
  accepted path index =
      compiled is_alphanumeric options [] root index (get_of path)
        (record { name = "mock"; config = null }) [] (none, none)

  abbrev after : String → Compilation → Compilation
  after path c = record {
    warnings = c.warnings ++ [];
    operations = c.operations ++ accepted path (length c.operations) ∷ [];
    seen_routes = ((path, "GET"), "api.yaml") ∷ c.seen_routes;
    seen_structural = ((path, "GET"), (path, "api.yaml")) ∷ c.seen_structural;
    seen_operation_ids = c.seen_operation_ids;
  }

  check_plaintext-mock :
      (location : String)
      → check_plaintext options location (record { name = "mock"; config = null }) ≡ ok tt
  unfolding extract_upstream_url
  check_plaintext-mock location = elim (Bool-cases options.allow_plaintext) [
    | inl e ↦ rw e refl
    | inr e ↦ rw e refl
  ]

  compile_operation-get_of :
      (path : String) (c : Compilation)
      → no_braces path ≡ true
      → get_pair (path, "GET") c.seen_routes ≡ none
      → get_pair (path, "GET") c.seen_structural ≡ none
      → compile_operation is_alphanumeric options [] root (spec_of []) "api.yaml" (get_of path) c
        ≡ ok (after path c)
  unfolding resolve_middlewares resolve_mcp_config dict_lookup
  compile_operation-get_of path c h r s =
      rw
        (
          validate_path_template-no_braces is_alphanumeric path
              (location_of "api.yaml" (get_of path)) h,
          r,
          normalize_path_template-no_braces path h,
          s,
          check_plaintext-mock (location_of "api.yaml" (get_of path)),
        )
        (ap
          (λ n. ok (record (after path c) {
            seen_structural = ((n, "GET"), (path, "api.yaml")) ∷ c.seen_structural;
          }))
          (normalize_path_template-no_braces path h))

  module _ (p q : String) (hp : no_braces p ≡ true) (hq : no_braces q ≡ true)
      (different : str_eq p q ≡ false) where
    abbrev specs : List ApiSpec
    specs = spec_of (get_of p ∷ get_of q ∷ []) ∷ []

    compile_specs-both :
        compile_specs is_alphanumeric options [] root specs begin ≡ ok (after q (after p begin))
    unfolding compile_specs compile_operations get_pair
    compile_specs-both = rw (compile_operation-get_of p begin hp refl refl) (
        rw (compile_operation-get_of q (after p begin) hq (rw different refl) (rw different refl))
          refl)

-- Two routes of one shape and one method: the second takes the place of the first.
register-overwrites :
    (x y : CompiledOperation)
    → (x.method ≡ "GET") × (y.method ≡ "GET")
    → template x.path ≡ template y.path
    → length (methods_at (template x.path) (register (x ∷ y ∷ []) new).root) ≡ 1
unfolding register to_uppercase dict_insert
register-overwrites x y m t =
    rw
      (
        m.0,
        m.1,
        methods_at-insert (insert new x.path "GET" (record { operation_index = x.index })) y.path
            "GET" (record { operation_index = y.index }) (template x.path),
        methods_at-insert new x.path "GET" (record { operation_index = x.index }) (template x.path),
        ← t,
        same_shape_refl (template x.path),
        methods_at-empty_node (template x.path),
      )
      refl

-- Two fixed paths of the same segments that differ in their slashes only, such as `/a` and `/a/`: the
-- compiler accepts both under one method, without a conflict or an ambiguity, and the router that
-- registers both routes of the artifact has one entry at their shape, so the other is lost.
pub colliding_paths_accepted :
    (is_alphanumeric : Char → Bool) (options : CompileOptions) (p q : String)
    → no_braces p ≡ true
    → no_braces q ≡ true
    → str_eq p q ≡ false
    → split_path p ≡ split_path q
    → (ops : List CompiledOperation) × (compile_routes is_alphanumeric
          (spec_of (get_of p ∷ get_of q ∷ []) ∷ [])
          []
          options
        ≡ ok ops)
      × (length ops ≡ 2)
      × (length (methods_at (template p) (register ops new).root) ≡ 1)
unfolding compile_routes sort_operations reindex extract_root_mcp_config dict_lookup
    parse_path_template
colliding_paths_accepted is_alphanumeric options p q hp hq different same =
    (let x = accepted is_alphanumeric options p 0 in
      let y = accepted is_alphanumeric options q 1 in
      elim (Bool-cases (in_order x y)) [
        | inl e ↦ (
          record x { index = 0 } ∷ record y { index = 1 } ∷ [],
          rw (compile_specs-both is_alphanumeric options p q hp hq different, e) refl,
          refl,
          register-overwrites (record x { index = 0 }) (record y { index = 1 }) (refl, refl)
              one_shape,
        )
        | inr e ↦ (
          record y { index = 0 } ∷ record x { index = 1 } ∷ [],
          rw (compile_specs-both is_alphanumeric options p q hp hq different, e) refl,
          refl,
          ap
                (λ t. length (
                  methods_at t
                    (register (record y { index = 0 } ∷ record x { index = 1 } ∷ []) new).root))
                one_shape
              ∙ register-overwrites (record y { index = 0 }) (record x { index = 1 }) (refl, refl)
                  (sym one_shape),
        )
      ])
  where
    one_shape : template p ≡ template q
    one_shape = ap (λ ss. map shape_of (map parse_segment ss)) same
