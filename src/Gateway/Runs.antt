-- ===== src/Gateway/Runs.antt =====
-- Runs of the gateway's middlewares, on the runtime of the chain's runs.
use barbacane.Common.{
  if◌then◌else◌, not, str_empty, to_lowercase, All, arith, ℕ, String, ◌≡◌, refl, Bool, true, false,
  [], ◌∷◌, none, some,
}
use barbacane.Chain.Errors.{trap}
use barbacane.Chain.Instance.{Response, set_context, set_request_body, on_response, call_handler}
use barbacane.Chain.Runs.{runtime, middleware, no_context}
use barbacane.Gateway.Requests.{Middleware, execute_middleware_on_request}
use barbacane.Gateway.Responses.{execute_middleware_on_response}
use barbacane.Gateway.Isolation.{outcome_with, execute_middleware_on_request_isolated}
use barbacane.Gateway.Replies.{
  Http, IsSafe, build_response_from_plugin, response_headers, build_response_from_plugin-IsSafe,
}
use barbacane.Gateway.Tolerance.{FailsOnResponse, execute_middleware_on_response_tolerant}

abbrev blind : ℕ → Middleware runtime
blind g = record { body_access = false; plugin = middleware g }

abbrev nobody : String → Bool
nobody name = false

abbrev page : Response
page = record { status = 200; headers = []; body = some (5 ∷ []) }

execute_middleware_on_request_isolated_example :
    execute_middleware_on_request true (blind 0 ∷ blind 0 ∷ []) (4 ∷ []) (some (8 ∷ []))
    ≡ outcome_with
        (some (8 ∷ []))
        (execute_middleware_on_request true (blind 0 ∷ blind 0 ∷ []) (4 ∷ []) none)
execute_middleware_on_request_isolated_example =
    execute_middleware_on_request_isolated true (blind 0 ∷ blind 0 ∷ []) (4 ∷ []) (some (8 ∷ []))
      (refl, (refl, tt))

trapping-FailsOnResponse : FailsOnResponse nobody no_context (middleware 2)
unfolding on_response call_handler set_context set_request_body
trapping-FailsOnResponse = λ body json. (trap "unreachable", refl)

execute_middleware_on_response_tolerant_example :
    execute_middleware_on_response nobody
      (middleware 0 ∷ middleware 2 ∷ middleware 1 ∷ [])
      page
      no_context
    ≡ execute_middleware_on_response nobody (middleware 0 ∷ middleware 1 ∷ []) page no_context
execute_middleware_on_response_tolerant_example =
    execute_middleware_on_response_tolerant nobody no_context (middleware 0 ∷ [])
      (middleware 1 ∷ []) (middleware 2) page trapping-FailsOnResponse

abbrev http : Http
http = record {
  is_status = λ n. true;
  header_name = λ key. if str_empty key then none else some (to_lowercase key);
  is_header_value = λ val. not (str_empty val);
  fits = λ headers. true;
}

http_lower : (key name : String) → http.header_name key ≡ some name → name ≡ to_lowercase key
http_lower key name e = ground arith

abbrev framed : Response
framed = record {
  status = 200;
  headers = ("Content-Length", "9") ∷ ("X-Id", "7") ∷ ("", "a") ∷ ("x-b", "") ∷ [];
  body = none;
}

headers_example : (build_response_from_plugin http framed).headers ≡ ("x-id", "7") ∷ []
unfolding build_response_from_plugin response_headers to_lowercase
headers_example = refl

build_response_from_plugin-IsSafe_example :
    All (IsSafe http) (build_response_from_plugin http framed).headers
build_response_from_plugin-IsSafe_example = build_response_from_plugin-IsSafe http framed http_lower
