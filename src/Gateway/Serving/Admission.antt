-- ===== src/Gateway/Serving/Admission.antt =====
-- crates/barbacane/src/main.rs: what a request has passed when `handle_request` dispatches it.
use Prim.Native.String.{len}
use barbacane.Common.{
  ◌+◌, ◌≤◌, ltb, String, ◌≡◌, refl, Bool, true, false, List, [], ◌∷◌, Option, none, some, All, Dict,
  get_elem?, lookup as dict_lookup, length, str_eq, Bool-cases, inl, inr, arith,
}
use barbacane.Common.Json.{starts_with}
use barbacane.Common.Results.{ok, err}
use barbacane.Compiler.Specs.{CompiledOperation, MiddlewareConfig}
use barbacane.Router.Trie.{RouteEntry, RouteMatch, found, method_not_allowed, not_found, lookup}
use barbacane.Validator.Limits.{RequestLimits, Checked, validate_uri}
use barbacane.Validator.Operation.{OperationValidator, Validated, validate_request}
use barbacane.Gateway.Incoming.{
  Bytes, HeaderLine, Incoming, Collected, collected, over_limit, broken, Answer, dispatched,
  header_limits, check_lines, collapse_headers,
}
use barbacane.Gateway.Serving.{
  Libraries, Gateway, decode_params, is_ws_upgrade, serve, with_body, read_body, matched, cors_of,
  preflight_or, preflight_at, preflight_match, preflight, is_preflight, route, with_length,
  with_headers, with_uri, handle_request,
}

-- The limits of the gateway hold for the request.
pub record Within (limits : RequestLimits) (req : Incoming) : Type 0 where
  pub uri_fits : len req.uri ≤ limits.max_uri_length
  pub count_fits : length req.raw_headers ≤ limits.max_headers
  pub lines_fit : All (λ h. len h.name + h.value_len ≤ limits.max_header_size) req.raw_headers

module _ (lib : Libraries) (gateway : Gateway lib) (req : Incoming) where
  open gateway use {router, operations, validators, limits}

  -- The route of the request, and that the operation's validator accepts what is dispatched.
  pub record Routed (operation : CompiledOperation) (params : List (String × String)) (body : Bytes)
      (headers : Dict String) : Type 0 where
    pub entry : RouteEntry
    pub raw_params : List (String × String)
    pub lookup_eq : lookup router req.path req.method ≡ found entry raw_params
    pub operation_eq : get_elem? operations entry.operation_index ≡ some operation
    pub params_eq : params ≡ decode_params lib gateway req raw_params
    pub validator : OperationValidator lib.js
    pub validator_eq : get_elem? validators entry.operation_index ≡ some validator
    pub body_fits : length body ≤ limits.max_body_size
    pub accepted :
        validate_request lib.js lib.from_slice lib.utf8 lib.debug validator params req.query headers
          (dict_lookup "content-type" headers)
          body
        ≡ ok tt

  -- What holds of an answer if it dispatches.
  abbrev pub Admitted : Answer → Type 0
  Admitted (dispatched operation path params query body headers upgrade) =
      Within limits req
      × (starts_with "/__barbacane/" req.path ≡ false)
      × (path ≡ req.path)
      × (query ≡ req.query)
      × (headers ≡ collapse_headers req.raw_headers [])
      × Routed operation params body headers
  Admitted _ = Unit

  module _ (within : Within limits req)
      (public : starts_with "/__barbacane/" req.path ≡ false) where
    abbrev headers_of : Dict String
    headers_of = collapse_headers req.raw_headers []

    module _ (entry : RouteEntry) (raw_params : List (String × String))
        (lookup_eq : lookup router req.path req.method ≡ found entry raw_params)
        (operation : CompiledOperation)
        (operation_eq : get_elem? operations entry.operation_index ≡ some operation)
        (validator : OperationValidator lib.js)
        (validator_eq : get_elem? validators entry.operation_index ≡ some validator) where
      abbrev params_of : List (String × String)
      params_of = decode_params lib gateway req raw_params

      serve-Admitted :
          (upgrade : Bool) (body : Bytes) (v : Validated)
          → length body ≤ limits.max_body_size
          → validate_request lib.js lib.from_slice lib.utf8 lib.debug validator params_of req.query
              headers_of
              (dict_lookup "content-type" headers_of)
              body
            ≡ v
          → Admitted (serve lib gateway req operation params_of headers_of upgrade body v).0
      serve-Admitted upgrade body (err errors) b e = tt
      serve-Admitted upgrade body (ok u) b e = (
        within,
        public,
        refl,
        refl,
        refl,
        record {
          entry = entry;
          raw_params = raw_params;
          lookup_eq = lookup_eq;
          operation_eq = operation_eq;
          params_eq = refl;
          validator = validator;
          validator_eq = validator_eq;
          body_fits = b;
          accepted = e;
        },
      )

      with_body-Admitted :
          (upgrade : Bool) (body : Bytes)
          → Admitted
              (with_body lib gateway req operation validator params_of headers_of upgrade body).0
      with_body-Admitted upgrade body = elim (Bool-cases (ltb limits.max_body_size (length body))) [
        | inl e ↦ rw e tt
        | inr e ↦ rw e (serve-Admitted upgrade body _ (ground (arith, e)) refl)
      ]

      read_body-Admitted :
          (upgrade : Bool) (c : Collected)
          → Admitted
              (read_body lib gateway req operation validator params_of headers_of upgrade c).0
      read_body-Admitted true c = with_body-Admitted true []
      read_body-Admitted false (collected bytes) = with_body-Admitted false bytes
      read_body-Admitted false over_limit = tt
      read_body-Admitted false broken = tt

    preflight-Admitted :
        (allowed methods : List String)
        → Admitted (preflight lib gateway req allowed headers_of methods).0
    preflight-Admitted allowed [] = tt
    preflight-Admitted allowed (m ∷ ms) = at_match (lookup router req.path m)
      where
        at_cors :
            (o : Option MiddlewareConfig)
            → Admitted (preflight_or lib gateway req allowed headers_of o).0
        at_cors none = tt
        at_cors (some mw) = tt

        at_operation :
            (o : Option CompiledOperation)
            → Admitted (preflight_at lib gateway req allowed headers_of o).0
        at_operation none = tt
        at_operation (some operation) = at_cors (cors_of lib gateway req operation.middlewares)

        at_match :
            (r : RouteMatch) → Admitted (preflight_match lib gateway req allowed headers_of r).0
        at_match (found entry params) = at_operation (get_elem? operations entry.operation_index)
        at_match (method_not_allowed ms) = tt
        at_match not_found = tt

    route-Admitted :
        (r : RouteMatch)
        → lookup router req.path req.method ≡ r
        → Admitted (route lib gateway req headers_of r).0
    route-Admitted not_found e = tt
    route-Admitted (method_not_allowed allowed) e =
        elim (Bool-cases (is_preflight lib gateway req headers_of)) [
          | inl q ↦ rw q (preflight-Admitted allowed allowed)
          | inr q ↦ rw q tt
        ]
    route-Admitted (found entry raw_params) e =
        at_operation (get_elem? operations entry.operation_index)
          (get_elem? validators entry.operation_index) refl refl
      where
        at_operation :
            (o : Option CompiledOperation) (v : Option (OperationValidator lib.js))
            → get_elem? operations entry.operation_index ≡ o
            → get_elem? validators entry.operation_index ≡ v
            → Admitted (matched lib gateway req o v raw_params headers_of).0
        at_operation none v p q = tt
        at_operation (some operation) none p q = tt
        at_operation (some operation) (some validator) p q =
            read_body-Admitted entry raw_params e operation p validator q
              (is_ws_upgrade lib gateway req headers_of) req.body

    with_length-Admitted : (c : Checked) → Admitted (with_length lib gateway req headers_of c).0
    with_length-Admitted (err e) = tt
    with_length-Admitted (ok u) = route-Admitted (lookup router req.path req.method) refl

  lines-fit :
      (hs : List HeaderLine)
      → check_lines limits hs ≡ ok tt
      → All (λ h. len h.name + h.value_len ≤ limits.max_header_size) hs
  lines-fit [] e = tt
  lines-fit (h ∷ hs) e = elim (Bool-cases (ltb limits.max_header_size (len h.name + h.value_len))) [
    | inl q ↦ absurd (cc (simp q at e))
    | inr q ↦ (ground (arith, q), lines-fit hs (simp q at e))
  ]

  with_headers-Admitted :
      (c : Checked)
      → header_limits limits req.raw_headers ≡ c
      → len req.uri ≤ limits.max_uri_length
      → starts_with "/__barbacane/" req.path ≡ false
      → Admitted (with_headers lib gateway req c).0
  with_headers-Admitted (err x) e u p = tt
  with_headers-Admitted (ok x) e u p =
      elim (Bool-cases (ltb limits.max_headers (length req.raw_headers))) [
        | inl q ↦ absurd (cc (simp q at e))
        | inr q ↦
            with_length-Admitted
              (record {
                uri_fits = u;
                count_fits = ground (arith, q);
                lines_fit = lines-fit req.raw_headers (simp q at e);
              })
              p _
      ]

  with_uri-Admitted :
      (c : Checked) → validate_uri limits req.uri ≡ c → Admitted (with_uri lib gateway req c).0
  with_uri-Admitted (err x) e = tt
  with_uri-Admitted (ok x) e = elim (Bool-cases (str_eq req.path "/__barbacane/mcp")) [
    | inl m ↦ rw m tt
    | inr m ↦ elim (Bool-cases (starts_with "/__barbacane/" req.path)) [
      | inl p ↦ rw (m, p) tt
      | inr p ↦ rw (m, p) (with_headers-Admitted (header_limits limits req.raw_headers) refl uri p)
    ]
  ]
    where
      uri : len req.uri ≤ limits.max_uri_length
      uri = elim (Bool-cases (ltb limits.max_uri_length (len req.uri))) [
        | inl q ↦ absurd (cc (simp q at e))
        | inr q ↦ ground (arith, q)
      ]

  -- When `handle_request` dispatches a request, the limits on its URI, on the number of its header
  -- lines and on the size of each hold, its path is not reserved, the router found the operation under
  -- its path and method, the dispatched parameters are the captured ones, decoded, the body is within
  -- its limit, and the operation's validator accepted these parameters, the query, the headers and the
  -- body.
  pub handle_request-Admitted : Admitted (handle_request lib gateway req).0
  unfolding handle_request
  handle_request-Admitted = with_uri-Admitted (validate_uri limits req.uri) refl
