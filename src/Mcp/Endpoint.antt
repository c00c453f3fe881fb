-- ===== src/Mcp/Endpoint.antt =====
-- crates/barbacane/src/main.rs: `handle_mcp_endpoint`, up to the dispatch of a tool's operation.
use Prim.Native.Nat.{suc}
use Prim.Native.String.{[]}
use barbacane.Common.{
  ℕ, String, true, false, ltb, not, if◌then◌else◌, List, [], ◌∷◌, ◌++◌, Option, none, some, Dict,
  insert, get_elem?, length, drop, is_empty, split, join, str_eq, unwrap_or,
}
use barbacane.Compiler.Specs.{CompiledOperation, Parameter}
use barbacane.Common.Json.{Value}
use barbacane.Common.Results.{ok, err}
use barbacane.Validator.Decode.{Utf8}
use barbacane.Validator.Limits.{RequestLimits, Checked}
use barbacane.Gateway.Incoming.{
  HeaderLine, Incoming, Collected, collected, over_limit, broken, collapse_headers,
  content_length_of, declared_length,
}
use barbacane.Compiler.Specs.{McpConfig}
use barbacane.Mcp.Sessions.{Reading, remove_session}
use barbacane.Mcp.Arguments.{Writer, placeholder}
use barbacane.Mcp.Server.{
  JsonRpcRequest, JsonRpcResponse, McpServer, McpResult, needs_dispatch, response, no_response,
  tool_panicked, new, handle_request,
}

-- From the i-th segment of the template on.
unfoldable pub extract_from : String → List String → ℕ → List String → Option String
extract_from param_name resolved_segments i [] = none
extract_from param_name resolved_segments i (t_seg ∷ t_segs) =
    let later = extract_from param_name resolved_segments (suc i) t_segs in
    if str_eq t_seg (placeholder param_name true)
    then (if ltb i (length resolved_segments)
        then some (join "/" (drop i resolved_segments))
        else none)
    else if str_eq t_seg (placeholder param_name false)
    then get_elem? resolved_segments i
    else later

unfoldable pub extract_path_param : String → String → String → Option String
extract_path_param template resolved param_name =
    extract_from param_name (split b'/' resolved) 0 (split b'/' template)

abbrev pub named : String → Option String → List (String × String)
named name none = []
named name (some v) = (name, v) ∷ []

abbrev pub path_params_of : String → String → List Parameter → List (String × String)
path_params_of template path [] = []
path_params_of template path (p ∷ ps) =
    if str_eq p.location "path"
    then named p.name (extract_path_param template path p.name) ++ path_params_of template path ps
    else path_params_of template path ps

-- The arguments of the call of `dispatch`; the operation's validator is not asked.
pub record DispatchCall : Type 0 where
  pub operation : CompiledOperation
  pub path : String
  pub params : List (String × String)
  pub query : Option String
  pub body : List ℕ
  pub headers : Dict String

abbrev pub with_content_type : List ℕ → Dict String → Dict String
with_content_type request_body headers =
    if is_empty request_body then headers else insert "content-type" "application/json" headers

abbrev pub dispatch_call :
    CompiledOperation → String → Option String → Option (List ℕ) → Dict String → DispatchCall
dispatch_call operation path query tool_body forwarded_headers = record {
  operation = operation;
  path = path;
  params = path_params_of operation.path path operation.parameters;
  query = query;
  body = unwrap_or tool_body [];
  headers = with_content_type (unwrap_or tool_body []) forwarded_headers;
}

-- The MCP server that `load` makes, if the artifact enables it.
abbrev pub load_mcp : List CompiledOperation → McpConfig → Option McpServer
load_mcp operations config = if config.enabled then some (new operations config) else none

-- The answer, before it is given its standard headers. A call of a tool is answered with its result.
pub data McpAnswer : Type 0 where
  mcp_disabled : McpAnswer
  cors_allowed : McpAnswer
  session_ended : McpAnswer
  method_refused : McpAnswer
  body_too_large : (limit : ℕ) → McpAnswer
  body_broken : McpAnswer
  tool_called : DispatchCall → Option Value → McpAnswer
  answered : JsonRpcResponse → Option String → McpAnswer
  no_content : McpAnswer
  -- An index out of the bounds of `operations` or of the tools.
  mcp_panicked : McpAnswer

-- `HeaderMap::get`, if the first value is text.
abbrev pub header_text : String → List HeaderLine → Option String
header_text name [] = none
header_text name (h ∷ hs) = if str_eq h.name name then h.text else header_text name hs

abbrev pub end_session : McpServer → Option String → McpServer
end_session server none = server
end_session server (some session_id) = record server {
  session_store = remove_session server.session_store session_id;
}

module _ (utf8 : Utf8) (writer : Writer) (from_slice : List ℕ → Option JsonRpcRequest)
    (limits : RequestLimits) (operations : List CompiledOperation) (req : Incoming)
    (rd : Reading) where
  abbrev pub dispatch_at :
      Option CompiledOperation → String → Option String → Option (List ℕ) → Option Value → McpAnswer
  dispatch_at none path query tool_body id = mcp_panicked
  dispatch_at (some operation) path query tool_body id =
      tool_called
        (dispatch_call operation path query tool_body (collapse_headers req.raw_headers [])) id

  abbrev pub answer_result : McpResult → McpAnswer
  answer_result (needs_dispatch i path query tool_body id) =
      dispatch_at (get_elem? operations i) path query tool_body id
  answer_result (response r session_id) = answered r session_id
  answer_result no_response = no_content
  answer_result tool_panicked = mcp_panicked

  abbrev pub answer_collected : McpServer → Collected → McpAnswer × Option McpServer
  answer_collected server over_limit = (body_too_large limits.max_body_size, some server)
  answer_collected server broken = (body_broken, some server)
  answer_collected server (collected bytes) =
      let handled =
        handle_request utf8 writer from_slice server bytes
          (header_text "mcp-session-id" req.raw_headers) rd in
      (answer_result handled.0, some handled.1)

  abbrev pub answer_checked : McpServer → Checked → McpAnswer × Option McpServer
  answer_checked server (err e) = (body_too_large limits.max_body_size, some server)
  answer_checked server (ok u) = answer_collected server req.body

  abbrev pub with_server : McpServer → McpAnswer × Option McpServer
  with_server server =
      if str_eq req.method "OPTIONS"
      then (cors_allowed, some server)
      else if str_eq req.method "DELETE"
      then (session_ended, some (end_session server (header_text "mcp-session-id" req.raw_headers)))
      else if not (str_eq req.method "POST")
      then (method_refused, some server)
      else answer_checked server (
          declared_length limits (content_length_of (header_text "content-length" req.raw_headers)))

  unfoldable pub handle_mcp_endpoint : Option McpServer → McpAnswer × Option McpServer
  handle_mcp_endpoint none = (mcp_disabled, none)
  handle_mcp_endpoint (some server) = with_server server
