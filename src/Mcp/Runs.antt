-- ===== src/Mcp/Runs.antt =====
-- crates/barbacane/src/mcp/: tests, and the theorems applied at concrete inputs.
use Prim.Native.Char.{code}
use Prim.Native.String.{[], ◌∷◌}
use barbacane.Common.{
  ℕ, String, Memᴰ, ◌≡◌, ◌↔◌, refl, arith, true, false, List, [], ◌∷◌, Option, none, some, lookup,
  insert, from_secs,
}
use barbacane.Common.Text.{join, split}
use barbacane.Common.Json.{Value, null, string, object, no_field, field, get_field, strip_prefix}
use barbacane.Common.Results.{ok}
use barbacane.Compiler.Specs.{CompiledOperation, McpConfig, Parameter}
use barbacane.Validator.Decode.{Utf8}
use barbacane.Mcp.Sessions.{
  SessionStore, Reading, max_sessions, create, touch, evict_expired, remove_session,
}
use barbacane.Mcp.Sessions as sessions
use barbacane.Mcp.Sessions.Capacity.{
  creates, touches, evicts, run, Capped, live_sessions, run-new-create-none_iff,
}
use barbacane.Mcp.Arguments.{
  ToolEntry, Writer, contains_text, replace_after, has_code, encode_bytes, percent_encode,
  sanitize_path_param, substitute_params, decompose_arguments,
}
use barbacane.Mcp.Tools.{generate_tools, insert_field}
use barbacane.Mcp.Server.{JsonRpcRequest, McpServer, needs_dispatch, new, handle_request}
use barbacane.Gateway.Incoming.{Incoming, collected}
use barbacane.Validator.Limits.{default_limits}
use barbacane.Mcp.Endpoint.{
  handle_mcp_endpoint, tool_called, extract_from, extract_path_param, dispatch_call,
}
use barbacane.Mcp.Sanitized.{IsSafe, sanitize_path_param-IsSafe}
use barbacane.Mcp.Notifications.{tool_notification, notification_dispatches}
use barbacane.Mcp.Admission.{HasSession, Exposed, handle_request-Exposed}

codes : String → List ℕ
codes [] = []
codes (c ∷ s) = code c ∷ codes s

abbrev utf8 : Utf8
utf8 = record { as_bytes = codes; from_utf8_lossy = λ bytes. "" }

abbrev writer : Writer
writer = record { to_string = λ v. ""; to_vec = λ fs. some [] }

abbrev param : String → Parameter
param name = record { name = name; location = "path"; required = true; schema = none }

abbrev get_file : CompiledOperation
get_file = record {
  index = 3;
  path = "/{dir}/files/{rest+}";
  method = "GET";
  operation_id = some "getFile";
  summary = none;
  description = none;
  parameters = param "rest" ∷ param "dir" ∷ [];
  request_body = none;
  dispatch = record { name = "mock"; config = null };
  middlewares = [];
  deprecated = false;
  sunset = none;
  messages = [];
  bindings = [];
  responses = [];
  mcp_enabled = some true;
  mcp_description = none;
}

abbrev config : McpConfig
config = record { enabled = true; server_name = none; server_version = none }

abbrev call_of : Option Value → String → JsonRpcRequest
call_of id dir = record {
  jsonrpc = "2.0";
  id = id;
  method = "tools/call";
  params = some (
      object (
        field "name" (string "getFile") (
          field "arguments"
            (object (field "dir" (string dir) (field "rest" (string "a/b") no_field))) no_field)));
}

abbrev call : JsonRpcRequest
call = call_of (some (string "1")) "x y"

abbrev notification : JsonRpcRequest
notification = call_of none "x y"

abbrev reading : Reading
reading = record { evict_now = 5; active_now = 6; uuid = "s2" }

abbrev store : SessionStore
store = record { sessions = ("s1", 1) ∷ []; ttl = from_secs 1800 }

abbrev server : McpServer
server = record (new (get_file ∷ []) config) { session_store = store }

-- A call with a session, and a notification without one.
call_dispatched :
    (handle_request utf8 writer (λ body. some call) server [] (some "s1") reading).0
    ≡ needs_dispatch 3 "/x%20y/files/a/b" none none (some (string "1"))
unfolding handle_request generate_tools insert_field touch lookup insert get_field
    decompose_arguments substitute_params sanitize_path_param contains_text strip_prefix
    replace_after has_code percent_encode encode_bytes codes split
call_dispatched = refl

notification_dispatched :
    (handle_request utf8 writer (λ body. some notification) server [] none reading).0
    ≡ needs_dispatch 3 "/x%20y/files/a/b" none none none
unfolding handle_request generate_tools insert_field touch lookup insert get_field
    decompose_arguments substitute_params sanitize_path_param contains_text strip_prefix
    replace_after has_code percent_encode encode_bytes codes split
notification_dispatched = refl

-- The parameter that a call dispatches is still percent-encoded.
params_encoded :
    (dispatch_call get_file "/x%20y/files/a/b" none none []).params
    ≡ ("rest", "a/b") ∷ ("dir", "x%20y") ∷ []
unfolding extract_path_param extract_from split join
params_encoded = refl

-- A value of the wildcard parameter that holds the placeholder of a later parameter, which is then
-- replaced by nothing: the path goes upwards.
abbrev traversal : Value
traversal = object (field "dir" (string "") (field "rest" (string ".{dir}./secret") no_field))

traversed :
    (entry : ToolEntry)
    → entry.path ≡ "/{dir}/files/{rest+}"
    → entry.parameters ≡ param "rest" ∷ param "dir" ∷ []
    → decompose_arguments utf8 writer entry traversal
      ≡ ok (record { path = "//files/../secret"; query = none; body = none })
unfolding get_field decompose_arguments substitute_params sanitize_path_param contains_text
    strip_prefix replace_after has_code percent_encode encode_bytes codes split
traversed entry p q = rw (p, q) refl

handle_request-Exposed_example :
    HasSession store (some "s1") (some (string "1")) × Exposed (get_file ∷ []) 3
handle_request-Exposed_example =
    handle_request-Exposed utf8 writer (λ body. some call) (get_file ∷ []) config store []
      (some "s1") reading 3 "/x%20y/files/a/b" none none (some (string "1")) call_dispatched

notification_dispatches_example :
    (called : CompiledOperation) × Memᴰ called (get_file ∷ [])
    × (called.operation_id ≡ some "getFile")
    × ((handle_request utf8 writer
          (λ body. some (tool_notification "getFile"))
          server
          []
          none
          reading).0
        ≡ needs_dispatch called.index called.path none none none)
notification_dispatches_example =
    notification_dispatches utf8 writer (λ body. some (tool_notification "getFile")) (get_file ∷ [])
      config store [] none reading get_file "getFile" refl (Memᴰ.head refl) refl refl

run-new-create-none_iff_example :
    Capped (run (sessions.new 100) (creates reading ∷ touches "s2" 9 ∷ evicts 200 ∷ []))
    × (((create
            (run (sessions.new 100) (creates reading ∷ touches "s2" 9 ∷ evicts 200 ∷ []))
            reading).0
          ≡ none)
        ↔ (live_sessions
              (run (sessions.new 100) (creates reading ∷ touches "s2" 9 ∷ evicts 200 ∷ []))
              reading.evict_now
            ≡ max_sessions))
run-new-create-none_iff_example =
    run-new-create-none_iff 100 (creates reading ∷ touches "s2" 9 ∷ evicts 200 ∷ []) reading

sanitized_value : sanitize_path_param utf8 "dir" "a b" false ≡ ok "a%20b"
unfolding sanitize_path_param has_code percent_encode encode_bytes codes
sanitized_value = refl

sanitize_path_param-IsSafe_example :
    IsSafe "a%20b" × (false ≡ false → split b'/' "a%20b" ≡ "a%20b" ∷ [])
unfolding codes
sanitize_path_param-IsSafe_example =
    sanitize_path_param-IsSafe utf8 "dir" "a b" (omega arith, (omega arith, (omega arith, tt)))
      (λ e. cc e) false "a%20b" sanitized_value

-- The endpoint on a call of a tool that the session is for.
abbrev posted : Incoming
posted = record {
  uri = "/__barbacane/mcp";
  path = "/__barbacane/mcp";
  query = none;
  method = "POST";
  raw_headers = record { name = "mcp-session-id"; value_len = 2; text = some "s1" } ∷ [];
  body = collected (1 ∷ []);
}

abbrev first_op : CompiledOperation
first_op = record get_file { index = 0 }

endpoint_calls :
    (handle_mcp_endpoint utf8 writer
      (λ body. some call)
      default_limits
      (first_op ∷ [])
      posted
      reading
      (some (record (new (first_op ∷ []) config) { session_store = store }))).0
    ≡ tool_called
        (record {
          operation = first_op;
          path = "/x%20y/files/a/b";
          params = ("rest", "a/b") ∷ ("dir", "x%20y") ∷ [];
          query = none;
          body = [];
          headers = ("mcp-session-id", "s1") ∷ [];
        })
        (some (string "1"))
unfolding handle_mcp_endpoint handle_request generate_tools insert_field touch lookup insert
    get_field decompose_arguments substitute_params sanitize_path_param contains_text strip_prefix
    replace_after has_code percent_encode encode_bytes codes split extract_path_param extract_from
    join
endpoint_calls = refl
