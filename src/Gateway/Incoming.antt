-- ===== src/Gateway/Incoming.antt =====
-- crates/barbacane/src/main.rs: requests, answers and metrics of `handle_request`, and the checks of headers.
use Prim.Native.Char.{code}
use Prim.Native.String.{[], ◌∷◌, len}
use barbacane.Common.{
  ℕ, ◌+◌, ◌*◌, ◌-◌, ◌^◌, ltb, leb, String, Bool, ◌&&◌, ◌==◌, if◌then◌else◌, List, [], ◌∷◌, Option,
  none, some, Dict, insert as dict_insert, length,
}
use barbacane.Common.Results.{ok}
use barbacane.Compiler.Specs.{CompiledOperation, MiddlewareConfig}
use barbacane.Validator.Limits.{
  RequestLimits, ValidationError2, Checked, missing_required_parameter, invalid_parameter,
  missing_required_body, unsupported_content_type, invalid_body, body_too_large, too_many_headers,
  uri_too_long, header_too_large, check_each, validate_header_count, validate_header_size,
  validate_body_size,
}

abbrev pub Bytes : Type 0
Bytes = List ℕ

-- A line of the raw header map: its name, the length of its value, and the value if it is text.
pub record HeaderLine : Type 0 where
  pub name : String
  pub value_len : ℕ
  pub text : Option String

-- What reading the body through `Limited` gives.
pub data Collected : Type 0 where
  collected : Bytes → Collected
  over_limit : Collected
  broken : Collected

pub record Incoming : Type 0 where
  pub uri : String
  pub path : String
  pub query : Option String
  pub method : String
  pub raw_headers : List HeaderLine
  pub body : Collected

-- The answer, before it is given its standard headers.
pub data Answer : Type 0 where
  validation_error : List ValidationError2 → Answer
  payload_too_large : (limit : ℕ) → Answer
  bad_request : String → Answer
  mcp_endpoint : Answer
  reserved_endpoint : (path method : String) (query : Option String) → Answer
  dispatched :
      (operation : CompiledOperation) (path : String) (params : List (String × String))
      (query : Option String) (body : Bytes) (headers : Dict String) (upgrade : Bool)
      → Answer
  cors_preflight : MiddlewareConfig → Dict String → Answer
  not_allowed : (allowed : List String) (method path : String) → Answer
  route_not_found : Answer
  -- An index out of the bounds of `operations` or `validators`.
  panicked : Answer

-- What is recorded: a request under a label, or a failed validation.
pub data Metric : Type 0 where
  request : (method label : String) (request_size : ℕ) → Metric
  validation_failure : (method label reason : String) → Metric

abbrev pub Handled : Type 0
Handled = Answer × List Metric

abbrev pub unmatched_route_label : String
unmatched_route_label = "<unmatched>"

abbrev pub validation_error_reason : ValidationError2 → String
validation_error_reason (missing_required_parameter name location) = "missing_required_parameter"
validation_error_reason (invalid_parameter name location reason) = "invalid_parameter"
validation_error_reason missing_required_body = "missing_required_body"
validation_error_reason (unsupported_content_type t) = "unsupported_content_type"
validation_error_reason (invalid_body reason) = "invalid_body"
validation_error_reason (body_too_large size limit) = "body_too_large"
validation_error_reason (too_many_headers count limit) = "too_many_headers"
validation_error_reason (header_too_large name size limit) = "header_too_large"
validation_error_reason (uri_too_long length limit) = "uri_too_long"

-- The first line that is too large.
abbrev pub check_lines : RequestLimits → List HeaderLine → Checked
check_lines limits [] = ok tt
check_lines limits (h ∷ hs) =
    check_each (validate_header_size limits h.name (len h.name + h.value_len))
      (check_lines limits hs)

abbrev pub header_limits : RequestLimits → List HeaderLine → Checked
header_limits limits raw_headers =
    check_each (validate_header_count limits (length raw_headers)) (check_lines limits raw_headers)

abbrev pub insert_text : String → Option String → Dict String → Dict String
insert_text name none m = m
insert_text name (some value) m = dict_insert name value m

abbrev pub collapse_headers : List HeaderLine → Dict String → Dict String
collapse_headers [] m = m
collapse_headers (h ∷ hs) m = collapse_headers hs (insert_text h.name h.text m)

abbrev pub push_digit : ℕ → Option ℕ → Option ℕ
push_digit d none = none
push_digit d (some n) =
    if leb b'0' d && leb d b'9' && ltb (n * 10 + (d - b'0')) (2 ^ 64)
    then some (n * 10 + (d - b'0'))
    else none

digits_from : Option ℕ → String → Option ℕ
digits_from n [] = n
digits_from n (c ∷ s) = digits_from (push_digit (code c) n) s

-- `str::parse::<usize>`: digits after an optional plus sign, without overflow.
unfoldable pub parse_usize : String → Option ℕ
unfolding digits_from
parse_usize [] = none
parse_usize (c ∷ []) = if code c == b'+' then none else digits_from (some 0) (c ∷ [])
parse_usize (c ∷ (d ∷ s)) =
    if code c == b'+' then digits_from (some 0) (d ∷ s) else digits_from (some 0) (c ∷ (d ∷ s))

abbrev pub content_length_of : Option String → Option ℕ
content_length_of none = none
content_length_of (some text) = parse_usize text

abbrev pub declared_length : RequestLimits → Option ℕ → Checked
declared_length limits none = ok tt
declared_length limits (some n) = validate_body_size limits n
