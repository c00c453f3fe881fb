-- ===== src/Mcp/Server.antt =====
-- crates/barbacane/src/mcp/mod.rs and jsonrpc.rs: the server that answers JSON-RPC requests.
use Prim.Native.Nat.{suc}
use Prim.Native.String.{[]}
use barbacane.Common.{
  ℕ, String, ◌-◌, Bool, true, false, not, ◌&&◌, leb, if◌then◌else◌, List, [], ◌∷◌, Option, none,
  some, get_elem?, Dict, insert, lookup, is_some, str_eq, unwrap_or, from_secs,
}
use barbacane.Common.Json.{
  Value, bool, string, array, object, no_value, value, Fields, no_field, field, get_key, str_at,
}
use barbacane.Common.Results.{Result, ok, err}
use barbacane.Compiler.Specs.{CompiledOperation, McpConfig}
use barbacane.Compiler.Errors.{format}
use barbacane.Validator.Decode.{Utf8}
use barbacane.Mcp.Sessions.{SessionStore, Reading, create, touch}
use barbacane.Mcp.Sessions as sessions
use barbacane.Mcp.Arguments.{McpTool, ToolEntry, Writer, Decomposed, decompose_arguments}
use barbacane.Mcp.Tools.{generate_tools, to_values}

pub record JsonRpcRequest : Type 0 where
  pub jsonrpc : String
  pub id : Option Value
  pub method : String
  pub params : Option Value

pub record JsonRpcError : Type 0 where
  pub error_code : ℕ
  pub message : String
  pub error_data : Option Value

pub record JsonRpcResponse : Type 0 where
  pub jsonrpc : String
  pub id : Option Value
  pub result : Option Value
  pub error : Option JsonRpcError

-- The error codes, as the bits of an `i32`.
abbrev pub parse_error_code : ℕ
parse_error_code = 4294967296 - 32700

abbrev pub invalid_request : ℕ
invalid_request = 4294967296 - 32600

abbrev pub method_not_found : ℕ
method_not_found = 4294967296 - 32601

abbrev pub invalid_params : ℕ
invalid_params = 4294967296 - 32602

abbrev pub internal_error : ℕ
internal_error = 4294967296 - 32603

abbrev pub success : Option Value → Value → JsonRpcResponse
success id result = record { jsonrpc = "2.0"; id = id; result = some result; error = none }

abbrev pub error_response : Option Value → ℕ → String → JsonRpcResponse
error_response id error_code message = record {
  jsonrpc = "2.0";
  id = id;
  result = none;
  error = some (record { error_code = error_code; message = message; error_data = none });
}

pub record McpServer : Type 0 where
  pub tool_entries : List ToolEntry
  pub tool_index : Dict ℕ
  pub session_store : SessionStore
  pub server_name : String
  pub server_version : String

-- A response is given before it is written as bytes.
pub data McpResult : Type 0 where
  needs_dispatch : ℕ → String → Option String → Option (List ℕ) → Option Value → McpResult
  response : JsonRpcResponse → Option String → McpResult
  no_response : McpResult
  -- An index out of the bounds of the tools.
  tool_panicked : McpResult

-- The index of each tool's name, from a position: a later one of a name wins.
abbrev pub index_tools : ℕ → List ToolEntry → Dict ℕ → Dict ℕ
index_tools i [] index = index
index_tools i (entry ∷ entries) index = index_tools (suc i) entries (insert entry.tool.name i index)

abbrev pub new : List CompiledOperation → McpConfig → McpServer
new operations config = record {
  tool_entries = generate_tools operations;
  tool_index = index_tools 0 (generate_tools operations) [];
  session_store = sessions.new (from_secs 1800);
  server_name = unwrap_or config.server_name "Barbacane MCP Server";
  server_version = unwrap_or config.server_version "1.0.0";
}

abbrev refuse : Option Value → ℕ → String → McpResult
refuse id error_code message = response (error_response id error_code message) none

abbrev pub initialized : McpServer → Option Value → Value
initialized server id = object (
    field "protocolVersion" (string "2025-11-25") (
      field "capabilities"
        (object (field "tools" (object (field "listChanged" (bool false) no_field)) no_field))
        (field "serverInfo"
          (object (
            field "name" (string server.server_name)
              (field "version" (string server.server_version) no_field)))
          no_field)))

abbrev pub initialize :
    McpServer → Option Value → Option String × SessionStore → McpResult × SessionStore
initialize server id (none, store) =
    (refuse id internal_error "session capacity reached; retry later", store)
initialize server id (some new_session_id, store) =
    (response (success id (initialized server id)) (some new_session_id), store)

abbrev pub output_field : Option Value → Fields
output_field none = no_field
output_field (some schema) = field "outputSchema" schema no_field

-- The tool as serde writes it.
abbrev pub tool_value : McpTool → Value
tool_value tool = object (
    field "name" (string tool.name) (
      field "description" (string tool.description)
        (field "inputSchema" tool.input_schema (output_field tool.output_schema))))

abbrev pub tool_values : List ToolEntry → List Value
tool_values [] = []
tool_values (entry ∷ entries) = tool_value entry.tool ∷ tool_values entries

abbrev pub tools_list : McpServer → Value
tools_list server =
    object (field "tools" (array (to_values (tool_values server.tool_entries))) no_field)

abbrev pub session_checked : Option String → ℕ → SessionStore → Bool × SessionStore
session_checked none now store = (false, store)
session_checked (some sid) now store = touch store sid now

module _ (utf8 : Utf8) (writer : Writer) where
  abbrev pub call_result : Option Value → ToolEntry → Result Decomposed String → McpResult
  call_result id entry (err msg) = refuse id invalid_params msg
  call_result id entry (ok parts) =
      needs_dispatch entry.operation_index parts.path parts.query parts.body id

  abbrev pub call_entry : Option Value → Value → ToolEntry → McpResult
  call_entry id params entry = call_result id entry (
      decompose_arguments utf8 writer entry
        (unwrap_or (get_key "arguments" params) (object no_field)))

  abbrev pub call_at : McpServer → Option Value → Value → String → Option ℕ → McpResult
  call_at server id params tool_name none =
      refuse id invalid_params (format ("unknown tool: " ∷ tool_name ∷ []))
  call_at server id params tool_name (some i) = entry_at (get_elem? server.tool_entries i)
    where
      entry_at : Option ToolEntry → McpResult
      entry_at none = tool_panicked
      entry_at (some entry) = call_entry id params entry

  abbrev pub call_named : McpServer → Option Value → Value → Option String → McpResult
  call_named server id params none = refuse id invalid_params "missing tool name"
  call_named server id params (some tool_name) =
      call_at server id params tool_name (lookup tool_name server.tool_index)

  abbrev pub handle_tools_call : McpServer → JsonRpcRequest → McpResult
  handle_tools_call server req =
      let params = unwrap_or req.params (object no_field) in
      call_named server req.id params (str_at "name" params)

  abbrev pub answer_unknown : JsonRpcRequest → McpResult
  answer_unknown req =
      if is_some req.id
      then refuse req.id method_not_found (format ("unknown method: " ∷ req.method ∷ []))
      else no_response

  -- The methods other than `initialize`.
  abbrev pub handle_other : McpServer → JsonRpcRequest → SessionStore → McpResult × SessionStore
  handle_other server req store =
      if str_eq req.method "notifications/initialized"
      then (no_response, store)
      else if str_eq req.method "ping"
      then (response (success req.id (object no_field)) none, store)
      else if str_eq req.method "tools/list"
      then (response (success req.id (tools_list server)) none, store)
      else if str_eq req.method "tools/call"
      then (handle_tools_call server req, store)
      else (answer_unknown req, store)

  abbrev pub handle_method :
      McpServer → JsonRpcRequest → Reading → SessionStore → McpResult × SessionStore
  handle_method server req rd store =
      if str_eq req.method "initialize"
      then initialize server req.id (create store rd)
      else handle_other server req store

  abbrev pub with_session :
      McpServer → JsonRpcRequest → Reading → Bool × SessionStore → McpResult × SessionStore
  with_session server req rd (true, store) = handle_method server req rd store
  with_session server req rd (false, store) = (
    refuse req.id invalid_request "missing, invalid, or expired session; call initialize first",
    store,
  )

  abbrev pub handle_parsed :
      McpServer → Option String → Reading → Option JsonRpcRequest → McpResult × SessionStore
  handle_parsed server session_id rd none =
      (refuse none parse_error_code "invalid JSON", server.session_store)
  handle_parsed server session_id rd (some req) =
      if not (str_eq req.jsonrpc "2.0")
      then (refuse req.id invalid_request "jsonrpc must be \"2.0\"", server.session_store)
      else if not (str_eq req.method "initialize") && is_some req.id
      then with_session server req rd
          (session_checked session_id rd.active_now server.session_store)
      else handle_method server req rd server.session_store

  -- With the reading of a request by serde.
  unfoldable pub handle_request :
      (List ℕ → Option JsonRpcRequest)
      → McpServer
      → List ℕ
      → Option String
      → Reading
      → McpResult × McpServer
  handle_request from_slice server body session_id rd =
      let (result, store) = handle_parsed server session_id rd (from_slice body) in
      (result, record server { session_store = store })

-- The text of the result of a call, and whether it is an error.
abbrev pub format_tool_result :
    (List ℕ → Option String) → Option Value → ℕ → Option (List ℕ) → JsonRpcResponse
format_tool_result from_utf8 id status body = success id (
    object (
      field "content"
        (array (
          value
            (object (field "type" (string "text") (field "text" (string (text_of body)) no_field)))
            no_value))
        (field "isError" (bool (leb 400 status)) no_field)))
  where
    text_of : Option (List ℕ) → String
    text_of none = ""
    text_of (some b) = unwrap_or (from_utf8 b) ""
