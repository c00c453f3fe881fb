-- ===== src/Compiler/Routes/Accepted.antt =====
-- crates/barbacane-compiler/src/artifact.rs: the operations of an artifact are those that the
-- specifications declare, no two with one structure and method.
use Prim.Native.Char.{Char}
use barbacane.Common.{
  ℕ, suc, String, ◌≡◌, refl, subst, Bool, List, [], ◌∷◌, All, All-append, Dict, Bool-cases, inl,
  inr,
}
use barbacane.Common.Results.{Result, ok, err}
use barbacane.Compiler.Errors.{CompileError, format}
use barbacane.Compiler.Specs.{ApiSpec, Operation, CompiledOperation, McpConfig, DispatchConfig}
use barbacane.Compiler.Settings.{resolve_middlewares}
use barbacane.Compiler.Templates.{validate_path_template}
use barbacane.Compiler.Operations.{
  CompileOptions, PluginBundle, Compilation, begin, location_of, check_operation_id, check_route,
  check_structure, check_dispatch, check_plaintext, check_names, check_parameters, check_body,
  add_warnings,
}
use barbacane.Compiler.Compile.{
  compile_config, compile_operation, compile_operations, compile_spec, compile_specs,
  push_operation, in_order, sort_insert, sort_operations, reindex, finish, compile_routes,
}
use barbacane.Compiler.Routes.Distinct.{
  Apart, Apart-sym, AllApart, AllApart-append, Inv, Pending, try_then_parts, check_operation_id-Inv,
  checks-Pending, ok_injective,
}

All-sort_insert :
    (P : CompiledOperation → Type 0) (op : CompiledOperation) (ops : List CompiledOperation)
    → P op
    → All P ops
    → All P (sort_insert op ops)
All-sort_insert P op [] p h = (p, tt)
All-sort_insert P op (e ∷ ops) p h = elim (Bool-cases (in_order op e)) [
  | inl q ↦ rw q (p, h)
  | inr q ↦ rw q (h.0, All-sort_insert P op ops p h.1)
]

pub All-sort_operations :
    (P : CompiledOperation → Type 0) (ops : List CompiledOperation)
    → All P ops
    → All P (sort_operations ops)
unfolding sort_operations
All-sort_operations P [] h = tt
All-sort_operations P (op ∷ ops) h =
    All-sort_insert P op (sort_operations ops) h.0 (All-sort_operations P ops h.1)

AllApart-sort_insert :
    (op : CompiledOperation) (ops : List CompiledOperation)
    → All (Apart op) ops
    → AllApart ops
    → AllApart (sort_insert op ops)
AllApart-sort_insert op [] p h = (tt, tt)
AllApart-sort_insert op (e ∷ ops) p h = elim (Bool-cases (in_order op e)) [
  | inl q ↦ rw q (p, h)
  | inr q ↦ rw q (
    All-sort_insert (Apart e) op ops (Apart-sym op e p.0) h.0,
    AllApart-sort_insert op ops p.1 h.1,
  )
]

AllApart-sort_operations :
    (ops : List CompiledOperation) → AllApart ops → AllApart (sort_operations ops)
unfolding sort_operations
AllApart-sort_operations [] h = tt
AllApart-sort_operations (op ∷ ops) h =
    AllApart-sort_insert op (sort_operations ops) (All-sort_operations (Apart op) ops h.0)
      (AllApart-sort_operations ops h.1)

-- A property that does not read the index.
pub All-reindex :
    (P : CompiledOperation → Type 0) (i : ℕ) (ops : List CompiledOperation)
    → ((op : CompiledOperation) (j : ℕ) → P op → P (record op { index = j }))
    → All P ops
    → All P (reindex i ops)
unfolding reindex
All-reindex P i [] k h = tt
All-reindex P i (op ∷ ops) k h = (k op i h.0, All-reindex P (suc i) ops k h.1)

AllApart-reindex : (i : ℕ) (ops : List CompiledOperation) → AllApart ops → AllApart (reindex i ops)
unfolding reindex
AllApart-reindex i [] h = tt
AllApart-reindex i (op ∷ ops) h =
    (All-reindex (Apart op) (suc i) ops (λ e j p. p) h.0, AllApart-reindex (suc i) ops h.1)

module _ (is_alphanumeric : Char → Bool) (options : CompileOptions)
    (secret_fields : Dict (List String)) (root : McpConfig) where
  compile_config-Inv :
      (spec : ApiSpec) (location : String) (op : Operation) (c c' : Compilation)
      → compile_config is_alphanumeric options secret_fields root spec location op c ≡ ok c'
      → Pending op c
      → Inv c'
  compile_config-Inv spec location op c c' e h =
      (let a = try_then_parts (check_dispatch location op.dispatch) _ c' e in
        let b = try_then_parts (check_plaintext options location a.0) _ c' a.2 in
        let d =
          try_then_parts
            (check_names "middleware #" (format (" in " ∷ location ∷ [])) 0
              (resolve_middlewares spec.global_middlewares op.middlewares))
            _ c' b.2 in
        let f = try_then_parts (check_parameters options location op.parameters) _ c' d.2 in
        let g = try_then_parts (check_body options location op.request_body) _ c' f.2 in
        subst Inv (ok_injective g.2) (pushed a.0))
    where
      pushed :
          (dispatch : DispatchConfig)
          → Inv (
              push_operation is_alphanumeric options secret_fields root location op dispatch
                (resolve_middlewares spec.global_middlewares op.middlewares)
                c)
      pushed dispatch = (
        All-append _ c.operations _ h.0.0 ((h.1, h.2), tt),
        AllApart-append c.operations _ h.0.1 h.3,
      )

  compile_operation-Inv :
      (spec : ApiSpec) (spec_file : String) (op : Operation) (c c' : Compilation)
      → compile_operation is_alphanumeric options secret_fields root spec spec_file op c ≡ ok c'
      → Inv c
      → Inv c'
  compile_operation-Inv spec spec_file op c c' e h =
      (let location = location_of spec_file op in
        let a = try_then_parts (validate_path_template is_alphanumeric op.path location) _ c' e in
        let b = try_then_parts (check_operation_id location op.operation_id c) _ c' a.2 in
        let d = try_then_parts (check_route spec_file op b.0) _ c' b.2 in
        let f = try_then_parts (check_structure spec_file op d.0) _ c' d.2 in
        compile_config-Inv spec location op f.0 c' f.2 (
          checks-Pending spec_file op b.0 d.0 f.0 d.1 f.1
            (check_operation_id-Inv location op.operation_id c b.0 b.1 h)))

  compile_operations-Inv :
      (spec : ApiSpec) (spec_file : String) (ops : List Operation) (c c' : Compilation)
      → compile_operations is_alphanumeric options secret_fields root spec spec_file ops c ≡ ok c'
      → Inv c
      → Inv c'
  unfolding compile_operations
  compile_operations-Inv spec spec_file [] c c' e h = subst Inv (ok_injective e) h
  compile_operations-Inv spec spec_file (op ∷ ops) c c' e h =
      (let a =
          try_then_parts
            (compile_operation is_alphanumeric options secret_fields root spec spec_file op c)
            (compile_operations is_alphanumeric options secret_fields root spec spec_file ops) c'
            e in
        compile_operations-Inv spec spec_file ops a.0 c' a.2
          (compile_operation-Inv spec spec_file op c a.0 a.1 h))

  compile_specs-Inv :
      (specs : List ApiSpec) (c c' : Compilation)
      → compile_specs is_alphanumeric options secret_fields root specs c ≡ ok c'
      → Inv c
      → Inv c'
  unfolding compile_specs
  compile_specs-Inv [] c c' e h = subst Inv (ok_injective e) h
  compile_specs-Inv (spec ∷ specs) c c' e h =
      (let a =
          try_then_parts (compile_spec is_alphanumeric options secret_fields root spec c)
            (compile_specs is_alphanumeric options secret_fields root specs) c' e in
        let b =
          try_then_parts (check_names "global middleware #" _ 0 spec.global_middlewares) _ a.0
            a.1 in
        compile_specs-Inv specs a.0 c' a.2
          (compile_operations-Inv spec _ spec.operations (add_warnings _ c) a.0 b.2 h))

-- No two operations of an artifact have the same method and the same path up to the names of
-- parameters.
pub compile_routes-AllApart :
    (is_alphanumeric : Char → Bool) (specs : List ApiSpec) (plugins : List PluginBundle)
    (options : CompileOptions) (ops : List CompiledOperation)
    → compile_routes is_alphanumeric specs plugins options ≡ ok ops
    → AllApart ops
unfolding compile_routes
compile_routes-AllApart is_alphanumeric specs plugins options ops e =
    of_result (compile_specs is_alphanumeric options _ _ specs begin) e
      (λ c q. compile_specs-Inv is_alphanumeric options _ _ specs begin c q (tt, tt))
  where
    of_result :
        (r : Result Compilation CompileError)
        → finish r ≡ ok ops
        → ((c : Compilation) → r ≡ ok c → Inv c)
        → AllApart ops
    of_result (err x) e h = absurd cc
    of_result (ok c) e h = subst AllApart (ok_injective e) (
        AllApart-reindex 0 (sort_operations c.operations)
          (AllApart-sort_operations c.operations (h c refl).1))
