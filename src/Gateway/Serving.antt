-- ===== src/Gateway/Serving.antt =====
-- crates/barbacane/src/main.rs: `handle_request`, from the limits to the dispatch of an operation.
pub mod Admission
pub mod Loading
pub mod Tools
pub mod Bounds
mod Runs
use Prim.Native.String.{[], ◌∷◌}
use barbacane.Common.{
  ℕ, String, Bool, true, false, ◌&&◌, if◌then◌else◌, List, [], ◌∷◌, ◌++◌, map, Option, none, some,
  Dict, lookup as dict_lookup, contains_key, get_elem?, length, str_eq, to_lowercase,
}
use barbacane.Common.Json.{Value, starts_with}
use barbacane.Common.Results.{Result, ok, err}
use barbacane.Compiler.Specs.{CompiledOperation, MiddlewareConfig}
use barbacane.Router.Trie.{Router, RouteMatch, found, method_not_allowed, not_found, lookup}
use barbacane.Validator.Limits.{
  RequestLimits, ValidationError2, Checked, validate_uri, validate_body_size,
}
use barbacane.Validator.Decode.{Utf8, percent_decode}
use barbacane.Validator.Params.{Jsonschema}
use barbacane.Validator.Operation.{OperationValidator, Validated, validate_request}
use barbacane.Gateway.Incoming.{
  Bytes, Incoming, Collected, collected, over_limit, broken, Answer, validation_error,
  payload_too_large, bad_request, mcp_endpoint, reserved_endpoint, dispatched, cors_preflight,
  not_allowed, route_not_found, panicked, request, validation_failure, Handled,
  unmatched_route_label, validation_error_reason, header_limits, collapse_headers,
  content_length_of, declared_length,
}

-- The libraries that the checks call: JSON Schema, UTF-8, serde_json, and the derived `Debug`.
pub record Libraries : Type 1 where
  pub js : Jsonschema
  pub utf8 : Utf8
  pub from_slice : Bytes → Result Value String
  pub debug : ValidationError2 → String

module _ (lib : Libraries) where
  open lib use {js, utf8, from_slice, debug}

  pub record Gateway : Type 0 where
    pub router : Router
    pub operations : List CompiledOperation
    pub validators : List (OperationValidator js)
    pub limits : RequestLimits

  module _ (gateway : Gateway) (req : Incoming) where
    open gateway use {router, operations, validators, limits}

    abbrev pub unmatched : Answer → Handled
    unmatched answer = (answer, request req.method unmatched_route_label 0 ∷ [])

    abbrev pub too_large : String → ℕ → Handled
    too_large route_path request_size = (
      payload_too_large limits.max_body_size,
      validation_failure req.method route_path "body_too_large"
          ∷ (request req.method route_path request_size ∷ []),
    )

    abbrev pub decode_params : List (String × String) → List (String × String)
    decode_params params = map (λ p. (p.0, percent_decode utf8 p.1)) params

    abbrev pub is_ws_upgrade : Dict String → Bool
    is_ws_upgrade headers = is_websocket (dict_lookup "upgrade" headers)
      where
        is_websocket : Option String → Bool
        is_websocket none = false
        is_websocket (some v) = str_eq (to_lowercase v) "websocket"

    abbrev pub serve :
        CompiledOperation
        → List (String × String)
        → Dict String
        → Bool
        → Bytes
        → Validated
        → Handled
    serve operation params headers upgrade body (err errors) = (
      validation_error errors,
      map (λ e. validation_failure req.method operation.path (validation_error_reason e)) errors
          ++ request req.method operation.path (length body) ∷ [],
    )
    serve operation params headers upgrade body (ok u) = (
      dispatched operation req.path params req.query body headers upgrade,
      request req.method operation.path (length body) ∷ [],
    )

    abbrev pub check_size :
        CompiledOperation
        → OperationValidator js
        → List (String × String)
        → Dict String
        → Bool
        → Bytes
        → Checked
        → Handled
    check_size operation validator params headers upgrade body (err e) =
        too_large operation.path (length body)
    check_size operation validator params headers upgrade body (ok u) =
        serve operation params headers upgrade body (
          validate_request js from_slice utf8 debug validator params req.query headers
            (dict_lookup "content-type" headers) body)

    abbrev pub with_body :
        CompiledOperation
        → OperationValidator js
        → List (String × String)
        → Dict String
        → Bool
        → Bytes
        → Handled
    with_body operation validator params headers upgrade body =
        check_size operation validator params headers upgrade body
          (validate_body_size limits (length body))

    -- A WebSocket upgrade has no body to read.
    abbrev pub read_body :
        CompiledOperation
        → OperationValidator js
        → List (String × String)
        → Dict String
        → Bool
        → Collected
        → Handled
    read_body operation validator params headers true body =
        with_body operation validator params headers true []
    read_body operation validator params headers false (collected bytes) =
        with_body operation validator params headers false bytes
    read_body operation validator params headers false over_limit = too_large operation.path 0
    read_body operation validator params headers false broken =
        (bad_request "failed to read request body", request req.method operation.path 0 ∷ [])

    abbrev pub matched :
        Option CompiledOperation
        → Option (OperationValidator js)
        → List (String × String)
        → Dict String
        → Handled
    matched (some operation) (some validator) params headers =
        read_body operation validator (decode_params params) headers (is_ws_upgrade headers)
          req.body
    matched _ _ params headers = (panicked, [])

    abbrev pub cors_of : List MiddlewareConfig → Option MiddlewareConfig
    cors_of [] = none
    cors_of (mw ∷ mws) = if str_eq mw.name "cors" then some mw else cors_of mws

    abbrev pub preflight_or : List String → Dict String → Option MiddlewareConfig → Handled
    preflight_or allowed headers none = unmatched (not_allowed allowed req.method req.path)
    preflight_or allowed headers (some cors_mw) = unmatched (cors_preflight cors_mw headers)

    abbrev pub preflight_at : List String → Dict String → Option CompiledOperation → Handled
    preflight_at allowed headers none = (panicked, [])
    preflight_at allowed headers (some operation) =
        preflight_or allowed headers (cors_of operation.middlewares)

    abbrev pub preflight_match : List String → Dict String → RouteMatch → Handled
    preflight_match allowed headers (found entry params) =
        preflight_at allowed headers (get_elem? operations entry.operation_index)
    preflight_match allowed headers _ = preflight_or allowed headers none

    -- The first allowed method stands for the route.
    abbrev pub preflight : List String → Dict String → List String → Handled
    preflight allowed headers [] = preflight_or allowed headers none
    preflight allowed headers (first_method ∷ methods) =
        preflight_match allowed headers (lookup router req.path first_method)

    abbrev pub is_preflight : Dict String → Bool
    is_preflight headers =
        str_eq req.method "OPTIONS"
        && contains_key "origin" headers
        && contains_key "access-control-request-method" headers

    abbrev pub route : Dict String → RouteMatch → Handled
    route headers (found entry params) =
        matched (get_elem? operations entry.operation_index)
          (get_elem? validators entry.operation_index) params headers
    route headers (method_not_allowed allowed) =
        if is_preflight headers
        then preflight allowed headers allowed
        else preflight_or allowed headers none
    route headers not_found = unmatched route_not_found

    abbrev pub with_length : Dict String → Checked → Handled
    with_length headers (err e) = unmatched (payload_too_large limits.max_body_size)
    with_length headers (ok u) = route headers (lookup router req.path req.method)

    abbrev pub with_headers : Checked → Handled
    with_headers (err e) = unmatched (validation_error (e ∷ []))
    with_headers (ok u) =
        (let headers = collapse_headers req.raw_headers [] in
          with_length headers
            (declared_length limits (content_length_of (dict_lookup "content-length" headers))))

    abbrev pub with_uri : Checked → Handled
    with_uri (err e) = unmatched (validation_error (e ∷ []))
    with_uri (ok u) =
        if str_eq req.path "/__barbacane/mcp"
        then (mcp_endpoint, [])
        else if starts_with "/__barbacane/" req.path
        then (reserved_endpoint req.path req.method req.query, [])
        else with_headers (header_limits limits req.raw_headers)

    unfoldable pub handle_request : Handled
    handle_request = with_uri (validate_uri limits req.uri)
