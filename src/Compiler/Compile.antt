-- ===== src/Compiler/Compile.antt =====
-- crates/barbacane-compiler/src/artifact.rs: `compile_inner` up to the sorted routes of the artifact.
use Prim.Native.Char.{Char}
use Prim.Native.Nat.{Ordering}
use Prim.Native.String.{compare}
use barbacane.Common.{
  ℕ, suc, String, Bool, true, false, if◌then◌else◌, List, [], ◌∷◌, ◌++◌, Option, Dict, lookup,
  insert, is_empty, length, unwrap_or,
}
use barbacane.Common.Results.{Result, ok, err}
use barbacane.Compiler.Errors.{CompileError, format}
use barbacane.Compiler.Specs.{
  ApiSpec, Operation, CompiledOperation, DispatchConfig, MiddlewareConfig, McpConfig,
}
use barbacane.Compiler.Settings.{
  resolve_middlewares, unknown_extensions, extract_root_mcp_config, resolve_mcp_config,
}
use barbacane.Compiler.Templates.{validate_path_template}
use barbacane.Compiler.Operations.{
  CompileOptions, PluginBundle, Compilation, begin, try_then, location_of, add_warnings,
  check_names, check_operation_id, check_route, check_structure, check_dispatch, check_plaintext,
  check_parameters, check_body, scan_plugin, scan_middlewares, mcp_warnings,
}

-- `plugin_secret_fields`: a later plugin of the same name takes the place of an earlier one.
abbrev pub secret_fields_in : List PluginBundle → Dict (List String) → Dict (List String)
secret_fields_in [] m = m
secret_fields_in (p ∷ ps) m =
    secret_fields_in ps (if is_empty p.secret_fields then m else insert p.name p.secret_fields m)

module _ (is_alphanumeric : Char → Bool) (options : CompileOptions)
    (plugin_secret_fields : Dict (List String)) (root_mcp_config : McpConfig) where
  abbrev pub compiled :
      ℕ
      → Operation
      → DispatchConfig
      → List MiddlewareConfig
      → Option Bool × Option String
      → CompiledOperation
  compiled index op dispatch middlewares (mcp_enabled, mcp_description) = record {
    index = index;
    path = op.path;
    method = op.method;
    operation_id = op.operation_id;
    summary = op.summary;
    description = op.description;
    parameters = op.parameters;
    request_body = op.request_body;
    dispatch = dispatch;
    middlewares = middlewares;
    deprecated = op.deprecated;
    sunset = op.sunset;
    messages = op.messages;
    bindings = op.bindings;
    responses = op.responses;
    mcp_enabled = mcp_enabled;
    mcp_description = mcp_description;
  }

  abbrev pub mcp_of : Operation → Option Bool × Option String
  mcp_of op = resolve_mcp_config root_mcp_config (lookup "x-barbacane-mcp" op.extensions)

  -- What an operation that passes every check adds.
  abbrev pub push_operation :
      String → Operation → DispatchConfig → List MiddlewareConfig → Compilation → Compilation
  push_operation location op dispatch middlewares c = record c {
    warnings =
        c.warnings
        ++ (unknown_extensions location op.extensions
            ++ (scan_plugin plugin_secret_fields dispatch.name dispatch.config location
                ++ (scan_middlewares plugin_secret_fields location middlewares
                    ++ mcp_warnings location op (mcp_of op).0)));
    operations =
        c.operations ++ compiled (length c.operations) op dispatch middlewares (mcp_of op) ∷ [];
  }

  -- The checks of the configuration of an operation that has its place in the maps.
  abbrev pub compile_config :
      ApiSpec → String → Operation → Compilation → Result Compilation CompileError
  compile_config spec location op c = try_then (check_dispatch location op.dispatch) (λ dispatch.
      try_then (check_plaintext options location dispatch) (λ _.
        let middlewares = resolve_middlewares spec.global_middlewares op.middlewares in
        try_then (check_names "middleware #" (format (" in " ∷ location ∷ [])) 0 middlewares) (λ _.
          try_then (check_parameters options location op.parameters) (λ _.
            try_then (check_body options location op.request_body)
              (λ _. ok (push_operation location op dispatch middlewares c))))))

  abbrev pub compile_operation :
      ApiSpec → String → Operation → Compilation → Result Compilation CompileError
  compile_operation spec spec_file op c =
      (let location = location_of spec_file op in
        try_then (validate_path_template is_alphanumeric op.path location) (λ _.
          try_then (check_operation_id location op.operation_id c) (λ c₁.
            try_then (check_route spec_file op c₁) (λ c₂.
              try_then (check_structure spec_file op c₂)
                (λ c₃. compile_config spec location op c₃)))))

  unfoldable pub compile_operations :
      ApiSpec → String → List Operation → Compilation → Result Compilation CompileError
  compile_operations spec spec_file [] c = ok c
  compile_operations spec spec_file (op ∷ ops) c =
      try_then (compile_operation spec spec_file op c) (compile_operations spec spec_file ops)

  abbrev pub compile_spec : ApiSpec → Compilation → Result Compilation CompileError
  compile_spec spec c =
      (let spec_file = unwrap_or spec.filename "unknown" in
        try_then
          (check_names "global middleware #" (format (" in '" ∷ spec_file ∷ "'" ∷ [])) 0
            spec.global_middlewares)
          (λ _.
            compile_operations spec spec_file spec.operations
              (add_warnings (unknown_extensions spec_file spec.extensions) c)))

  unfoldable pub compile_specs : List ApiSpec → Compilation → Result Compilation CompileError
  compile_specs [] c = ok c
  compile_specs (spec ∷ specs) c = try_then (compile_spec spec c) (compile_specs specs)

-- `(&a.path, &a.method).cmp(&(&b.path, &b.method))` is not greater.
abbrev pub in_order : CompiledOperation → CompiledOperation → Bool
in_order a b = elim (compare a.path b.path) [
  | Ordering.lt ↦ true
  | Ordering.gt ↦ false
  | Ordering.eq ↦ elim (compare a.method b.method) [ Ordering.gt ↦ false | _ ↦ true ]
]

abbrev pub sort_insert : CompiledOperation → List CompiledOperation → List CompiledOperation
sort_insert a [] = a ∷ []
sort_insert a (b ∷ bs) = if in_order a b then a ∷ (b ∷ bs) else b ∷ sort_insert a bs

-- A stable sort.
unfoldable pub sort_operations : List CompiledOperation → List CompiledOperation
sort_operations [] = []
sort_operations (a ∷ rest) = sort_insert a (sort_operations rest)

unfoldable pub reindex : ℕ → List CompiledOperation → List CompiledOperation
reindex i [] = []
reindex i (op ∷ ops) = record op { index = i } ∷ reindex (suc i) ops

abbrev pub finish : Result Compilation CompileError → Result (List CompiledOperation) CompileError
finish (err e) = err e
finish (ok c) = ok (reindex 0 (sort_operations c.operations))

unfoldable pub compile_routes :
    (Char → Bool)
    → List ApiSpec
    → List PluginBundle
    → CompileOptions
    → Result (List CompiledOperation) CompileError
compile_routes is_alphanumeric specs plugins options = finish (
    compile_specs is_alphanumeric options (secret_fields_in plugins [])
      (extract_root_mcp_config specs) specs begin)
