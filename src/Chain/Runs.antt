-- ===== src/Chain/Runs.antt =====
-- Runs of the middleware chain, with a small runtime: a guest is a number that says what it does.
use barbacane.Common.{false, ℕ, ◌≡◌, refl, ◌==◌, if◌then◌else◌, [], ◌∷◌, Option, none, some, true}
use barbacane.Chain.Errors.{ok, err, trap}
use barbacane.Chain.Instance.{
  Bytes, RequestContext, Called, MiddlewareOutput, Response, Runtime, PluginInstance, set_context,
  on_response, call_handler,
}
use barbacane.Chain.Output.{
  parse_middleware_output, AgreesToContinue, parse_middleware_output_fail_safe,
}
use barbacane.Chain.Requests.{execute_on_request}
use barbacane.Chain.Passing.{Explains, execute_on_request-Explains}
use barbacane.Chain.Tolerance.{AlwaysFails}

abbrev pub no_context : RequestContext
no_context = record { values = []; last_get_result = none; trace_id = ""; request_id = "" }

-- Guest 0 puts a 1 before its input; guest 1 returns code 1; any other traps.
abbrev called : ℕ → RequestContext → Bytes → Called ℕ
called g context input = record {
  guest = g;
  output = if g == 0 then 1 ∷ input else if g == 1 then 9 ∷ [] else [];
  context = context;
  output_body = none;
  took_body = false;
  result = if g == 0 then ok 0 else if g == 1 then ok 1 else err (trap "unreachable");
}

-- Structured output is a 7, the action and the data.
abbrev structured : Bytes → Option (MiddlewareOutput Bytes)
structured (b ∷ (action ∷ rest)) =
    if b == 7 then some (record { action = action; payload = rest }) else none
structured _ = none

-- A response without headers is its status behind a 2.
abbrev parse_response : Bytes → Option Response
parse_response (b ∷ (status ∷ [])) =
    if b == 2 then some (record { status = status; headers = []; body = none }) else none
parse_response _ = none

abbrev print_response : Response → Option Bytes
print_response r = some (2 ∷ r.status ∷ [])

abbrev pub runtime : Runtime
runtime = record {
  Guest = ℕ;
  Json = Bytes;
  exports = λ g handler. true;
  call_guest = λ g handler fuel deadline context body input. called g context input;
  from_slice = structured;
  to_vec = λ json. some json;
  serialize_error = λ json. "";
  display = λ e. "error";
  response_from_slice = parse_response;
  response_error = λ bytes. "not a response";
  response_to_vec = print_response;
}

abbrev pub middleware : ℕ → PluginInstance runtime
middleware g = record {
  name = "middleware";
  guest = g;
  limits = record { max_fuel = 1000; max_execution_ms = 50 };
  output_buffer = [];
  context = no_context;
  request_body = none;
  output_body = none;
}

parse_middleware_output_fail_safe_example :
    ◌≡◌ {A = ℕ} 0 0 × AgreesToContinue runtime (structured (7 ∷ 0 ∷ 5 ∷ []))
unfolding parse_middleware_output
parse_middleware_output_fail_safe_example =
    parse_middleware_output_fail_safe runtime (7 ∷ 0 ∷ 5 ∷ []) 0 (5 ∷ []) refl refl

execute_on_request-Explains_example :
    let is = middleware 0 ∷ middleware 1 ∷ middleware 0 ∷ [] in
    let x = execute_on_request is (4 ∷ []) no_context in Explains 0 (4 ∷ []) no_context is x.1 x.0
execute_on_request-Explains_example =
    execute_on_request-Explains (middleware 0 ∷ middleware 1 ∷ middleware 0 ∷ []) (4 ∷ [])
      no_context

trapping-AlwaysFails : AlwaysFails no_context (middleware 2)
unfolding on_response call_handler set_context
trapping-AlwaysFails = λ r. (trap "unreachable", refl)
