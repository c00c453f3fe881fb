-- ===== src/Gateway/Serving/Bounds.antt =====
-- crates/barbacane/src/main.rs: a gateway that is loaded from an artifact's routes never indexes out of
-- bounds.
use Prim.Native.Char.{Char}
use barbacane.Common.{
  ℕ, suc, ◌+◌, ◌<◌, String, ◌≡◌, ◌≢◌, refl, ap, subst, Bool, true, false, List, [], ◌∷◌, map,
  Option, none, some, All, All-implies, Dict, length, str_eq, Bool-cases, inl, inr, arith,
}
use barbacane.Common.Json.{starts_with}
use barbacane.Common.Results.{Result, ok, err}
use barbacane.Compiler.Errors.{CompileError}
use barbacane.Compiler.Specs.{ApiSpec, CompiledOperation, MiddlewareConfig}
use barbacane.Compiler.Operations.{PluginBundle, CompileOptions, Compilation, begin}
use barbacane.Compiler.Compile.{compile_routes, compile_specs, finish, sort_operations, reindex}
use barbacane.Compiler.Routes.Distinct.{ok_injective}
use barbacane.Router.Trie.{RouteEntry, RouteMatch, found, method_not_allowed, not_found, lookup}
use barbacane.Validator.Limits.{RequestLimits, Checked, validate_uri, validate_body_size}
use barbacane.Validator.Operation.{OperationValidator, Validated}
use barbacane.Gateway.Incoming.{
  Bytes, Incoming, Collected, collected, over_limit, broken, Answer, panicked, header_limits,
  collapse_headers,
}
use barbacane.Gateway.Serving.{
  Libraries, Gateway, decode_params, is_ws_upgrade, serve, check_size, with_body, read_body,
  cors_of, preflight_or, preflight_match, preflight, is_preflight, route, with_length, with_headers,
  with_uri, handle_request,
}
use barbacane.Compiler.Specs.{McpConfig}
use barbacane.Mcp.Arguments.{Writer}
use barbacane.Mcp.Sessions.{SessionStore, Reading}
use barbacane.Mcp.Server.{JsonRpcRequest}
use barbacane.Mcp.Endpoint.{mcp_panicked, load_mcp, handle_mcp_endpoint}
use barbacane.Gateway.Serving.Tools.{get_elem?-lt, with_sessions, handle_mcp_endpoint_sound}
use barbacane.Gateway.Serving.Loading.{load, lookup-register}

reindex-indices :
    (i : ℕ) (ops : List CompiledOperation) → All (λ op. op.index < i + length ops) (reindex i ops)
unfolding reindex
reindex-indices i [] = tt
reindex-indices i (op ∷ ops) = (
  omega arith,
  All-implies _ _ (λ e h. omega (arith, h)) (reindex (suc i) ops) (reindex-indices (suc i) ops),
)

length-reindex : (i : ℕ) (ops : List CompiledOperation) → length (reindex i ops) ≡ length ops
unfolding reindex
length-reindex i [] = refl
length-reindex i (op ∷ ops) = ap suc (length-reindex (suc i) ops)

compile_routes-indices :
    (is_alphanumeric : Char → Bool) (specs : List ApiSpec) (plugins : List PluginBundle)
    (options : CompileOptions) (ops : List CompiledOperation)
    → compile_routes is_alphanumeric specs plugins options ≡ ok ops
    → All (λ op. op.index < length ops) ops
unfolding compile_routes
compile_routes-indices is_alphanumeric specs plugins options ops e =
    of_result (compile_specs is_alphanumeric options _ _ specs begin) e
  where
    of_result :
        (r : Result Compilation CompileError)
        → finish r ≡ ok ops
        → All (λ op. op.index < length ops) ops
    of_result (err x) e = absurd cc
    of_result (ok c) e =
        subst (λ l. All (λ op. op.index < length l) l) (ok_injective e)
          (All-implies _ _
            (λ op h. omega (arith, h, length-reindex 0 (sort_operations c.operations)))
            (reindex 0 (sort_operations c.operations))
            (reindex-indices 0 (sort_operations c.operations)))

length-map : {A B : Type 0} (f : A → B) (xs : List A) → length (map f xs) ≡ length xs
length-map f [] = refl
length-map f (x ∷ xs) = ap suc (length-map f xs)

abbrev Sound : Answer → Type 0
Sound panicked = ⊥
Sound _ = Unit

Sound-panicked : (answer : Answer) → Sound answer → answer ≢ panicked
Sound-panicked answer h e = subst Sound e h

module _ (lib : Libraries) (limits : RequestLimits) (ops : List CompiledOperation)
    (in_bounds : All (λ op. op.index < length ops) ops) (req : Incoming) where
  abbrev gateway : Gateway lib
  gateway = load lib limits ops

  serve-Sound :
      (operation : CompiledOperation) (params : List (String × String)) (headers : Dict String)
      (upgrade : Bool) (body : Bytes) (v : Validated)
      → Sound (serve lib gateway req operation params headers upgrade body v).0
  serve-Sound operation params headers upgrade body (err errors) = tt
  serve-Sound operation params headers upgrade body (ok u) = tt

  with_body-Sound :
      (operation : CompiledOperation) (validator : OperationValidator lib.js)
      (params : List (String × String)) (headers : Dict String) (upgrade : Bool) (body : Bytes)
      → Sound (with_body lib gateway req operation validator params headers upgrade body).0
  with_body-Sound operation validator params headers upgrade body =
      at_check (validate_body_size gateway.limits (length body))
    where
      at_check :
          (c : Checked)
          → Sound (check_size lib gateway req operation validator params headers upgrade body c).0
      at_check (err e) = tt
      at_check (ok u) = serve-Sound operation params headers upgrade body _

  read_body-Sound :
      (operation : CompiledOperation) (validator : OperationValidator lib.js)
      (params : List (String × String)) (headers : Dict String) (upgrade : Bool) (c : Collected)
      → Sound (read_body lib gateway req operation validator params headers upgrade c).0
  read_body-Sound operation validator params headers true c =
      with_body-Sound operation validator params headers true []
  read_body-Sound operation validator params headers false (collected bytes) =
      with_body-Sound operation validator params headers false bytes
  read_body-Sound operation validator params headers false over_limit = tt
  read_body-Sound operation validator params headers false broken = tt

  found_in_bounds :
      (method : String) (entry : RouteEntry) (params : List (String × String))
      → lookup gateway.router req.path method ≡ found entry params
      → entry.operation_index < length ops
  unfolding load
  found_in_bounds method entry params e =
      lookup-register (λ x. x.operation_index < length ops) ops req.path method entry params
        in_bounds e

  preflight-Sound :
      (allowed methods : List String) (headers : Dict String)
      → Sound (preflight lib gateway req allowed headers methods).0
  unfolding load
  preflight-Sound allowed [] headers = tt
  preflight-Sound allowed (m ∷ ms) headers = at_match (lookup gateway.router req.path m) refl
    where
      at_cors :
          (o : Option MiddlewareConfig) → Sound (preflight_or lib gateway req allowed headers o).0
      at_cors none = tt
      at_cors (some mw) = tt

      at_match :
          (r : RouteMatch)
          → lookup gateway.router req.path m ≡ r
          → Sound (preflight_match lib gateway req allowed headers r).0
      at_match (found entry params) e =
          (let op = get_elem?-lt ops entry.operation_index (found_in_bounds m entry params e) in
            rw op.1 (at_cors (cors_of lib gateway req op.0.middlewares)))
      at_match (method_not_allowed ms) e = tt
      at_match not_found e = tt

  route-Sound :
      (headers : Dict String) (r : RouteMatch)
      → lookup gateway.router req.path req.method ≡ r
      → Sound (route lib gateway req headers r).0
  unfolding load
  route-Sound headers not_found e = tt
  route-Sound headers (method_not_allowed allowed) e =
      elim (Bool-cases (is_preflight lib gateway req headers)) [
        | inl q ↦ rw q (preflight-Sound allowed allowed headers)
        | inr q ↦ rw q tt
      ]
  route-Sound headers (found entry params) e =
      (let b = found_in_bounds req.method entry params e in
        let op = get_elem?-lt ops entry.operation_index b in
        let v =
          get_elem?-lt gateway.validators entry.operation_index
            (omega (arith, b, length-map _ ops)) in
        rw (op.1, v.1)
          (read_body-Sound op.0 v.0 (decode_params lib gateway req params) headers
            (is_ws_upgrade lib gateway req headers) req.body))

  with_length-Sound :
      (headers : Dict String) (c : Checked) → Sound (with_length lib gateway req headers c).0
  with_length-Sound headers (err e) = tt
  with_length-Sound headers (ok u) =
      route-Sound headers (lookup gateway.router req.path req.method) refl

  with_headers-Sound : (c : Checked) → Sound (with_headers lib gateway req c).0
  with_headers-Sound (err e) = tt
  with_headers-Sound (ok u) = with_length-Sound (collapse_headers req.raw_headers []) _

  with_uri-Sound : (c : Checked) → Sound (with_uri lib gateway req c).0
  with_uri-Sound (err e) = tt
  with_uri-Sound (ok u) = elim (Bool-cases (str_eq req.path "/__barbacane/mcp")) [
    | inl m ↦ rw m tt
    | inr m ↦ elim (Bool-cases (starts_with "/__barbacane/" req.path)) [
      | inl p ↦ rw (m, p) tt
      | inr p ↦ rw (m, p) (with_headers-Sound (header_limits gateway.limits req.raw_headers))
    ]
  ]

-- A gateway that is loaded from routes that the compiler accepted never indexes its operations, its
-- validators or its MCP tools out of bounds, whatever the request: neither in `handle_request` nor,
-- whatever the sessions have become, in the MCP endpoint.
pub handle_request-load :
    (is_alphanumeric : Char → Bool) (specs : List ApiSpec) (plugins : List PluginBundle)
    (options : CompileOptions) (ops : List CompiledOperation) (lib : Libraries)
    (limits : RequestLimits) (req : Incoming) (writer : Writer)
    (rpc_from_slice : List ℕ → Option JsonRpcRequest) (rd : Reading) (config : McpConfig)
    (store : SessionStore)
    → compile_routes is_alphanumeric specs plugins options ≡ ok ops
    → ((handle_request lib (load lib limits ops) req).0 ≢ panicked)
      × ((handle_mcp_endpoint lib.utf8 writer rpc_from_slice limits ops req rd
            (with_sessions store (load_mcp ops config))).0
          ≢ mcp_panicked)
unfolding handle_request
handle_request-load is_alphanumeric specs plugins options ops lib limits req writer rpc_from_slice
      rd config store e =
    let in_bounds = compile_routes-indices is_alphanumeric specs plugins options ops e in
    (
      Sound-panicked _ (
          with_uri-Sound lib limits ops in_bounds req
            (validate_uri (load lib limits ops).limits req.uri)),
      handle_mcp_endpoint_sound lib.utf8 writer rpc_from_slice limits ops req rd in_bounds config
          store,
    )
