-- ===== src/Mcp/Notifications.antt =====
-- crates/barbacane/src/mcp/mod.rs: a notification is handled without a session.
use Prim.Native.Nat.{zero}
use Prim.Native.String.{[]}
use barbacane.Common.{
  ℕ, String, ◌≡◌, refl, ◌∙◌, ap, inl, inr, true, List, [], ◌∷◌, Option, none, some, get_elem?,
  lookup, Memᴰ, str_eq, Bool-cases,
}
use barbacane.Common.Json.{string, object, no_field, field, get_field}
use barbacane.Common.Results.{ok}
use barbacane.Compiler.Specs.{CompiledOperation, McpConfig, Parameter}
use barbacane.Validator.Decode.{Utf8}
use barbacane.Mcp.Sessions.{SessionStore, Reading}
use barbacane.Mcp.Arguments.{
  ToolEntry, Writer, Substituted, substitute_param, substitute_params, decompose_arguments,
}
use barbacane.Mcp.Tools.{generate_tools, tool_entry}
use barbacane.Mcp.Server.{
  JsonRpcRequest, McpServer, needs_dispatch, new, handle_tools_call, handle_request,
}
use barbacane.Mcp.Calls.{get_elem?-Memᴰ}
use barbacane.Mcp.Indexed.{
  index_tools-IsNamed, index_tools_complete, generate_tools-IsToolOf, generate_tools_complete,
}

-- A call of a tool by its name, without arguments and without an id.
abbrev pub tool_notification : String → JsonRpcRequest
tool_notification name = record {
  jsonrpc = "2.0";
  id = none;
  method = "tools/call";
  params = some (object (field "name" (string name) no_field));
}

module _ (utf8 : Utf8) (writer : Writer) where
  substitute_param-no_field :
      (st : Substituted) (param : Parameter)
      → substitute_param utf8 writer no_field st param ≡ ok st
  unfolding get_field
  substitute_param-no_field st param = elim (Bool-cases (str_eq param.location "path")) [
    | inl e ↦ rw e refl
    | inr e ↦ elim (Bool-cases (str_eq param.location "query")) [
      | inl q ↦ rw (e, q) refl
      | inr q ↦ rw (e, q) refl
    ]
  ]

  substitute_params-no_field :
      (params : List Parameter) (st : Substituted)
      → substitute_params utf8 writer no_field params (ok st) ≡ ok st
  unfolding substitute_params
  substitute_params-no_field [] st = refl
  substitute_params-no_field (param ∷ params) st =
      ap (substitute_params utf8 writer no_field params) (substitute_param-no_field st param)
      ∙ substitute_params-no_field params st

  -- Without arguments, the path is the template.
  decompose_arguments-no_field :
      (entry : ToolEntry)
      → decompose_arguments utf8 writer entry (object no_field)
        ≡ ok (record { path = entry.path; query = none; body = none })
  unfolding decompose_arguments
  decompose_arguments-no_field entry = rw (substitute_params-no_field entry.parameters _) refl

  handle_tools_call_named :
      (server : McpServer) (name : String) (i : ℕ) (entry : ToolEntry)
      → lookup name server.tool_index ≡ some i
      → get_elem? server.tool_entries i ≡ some entry
      → handle_tools_call utf8 writer server (tool_notification name)
        ≡ needs_dispatch entry.operation_index entry.path none none none
  unfolding get_field
  handle_tools_call_named server name i entry p q =
      rw (p, q, decompose_arguments-no_field entry) refl

  notification-handle_tools_call :
      (from_slice : List ℕ → Option JsonRpcRequest) (server : McpServer) (request : List ℕ)
      (session_id : Option String) (rd : Reading) (name : String)
      → from_slice request ≡ some (tool_notification name)
      → (handle_request utf8 writer from_slice server request session_id rd).0
        ≡ handle_tools_call utf8 writer server (tool_notification name)
  unfolding handle_request
  notification-handle_tools_call from_slice server request session_id rd name parsed =
      rw parsed refl

-- Every operation that is enabled for MCP and has an id can be dispatched without a session: whatever
-- sessions there are and whatever session is named, or none, a notification that calls the tool of that
-- name without arguments dispatches a compiled operation with this id, on its path.
pub notification_dispatches :
    (utf8 : Utf8) (writer : Writer) (from_slice : List ℕ → Option JsonRpcRequest)
    (operations : List CompiledOperation) (config : McpConfig) (store : SessionStore)
    (request : List ℕ) (session_id : Option String) (rd : Reading) (op : CompiledOperation)
    (name : String)
    → from_slice request ≡ some (tool_notification name)
    → Memᴰ op operations
    → op.mcp_enabled ≡ some true
    → op.operation_id ≡ some name
    → (called : CompiledOperation) × Memᴰ called operations
      × (called.operation_id ≡ some name)
      × ((handle_request utf8 writer from_slice
            (record (new operations config) { session_store = store })
            request
            session_id
            rd).0
          ≡ needs_dispatch called.index called.path none none none)
notification_dispatches utf8 writer from_slice operations config store request session_id rd op name
      parsed compiled enabled id =
    let entries = generate_tools operations in
    let server = record (new operations config) { session_store = store } in
    let (i, p) =
      index_tools_complete (tool_entry op name) zero entries []
        (generate_tools_complete operations op name compiled enabled id) in
    let found = index_tools-IsNamed entries name i p in
    let tool =
      generate_tools-IsToolOf operations found.entry
        (get_elem?-Memᴰ entries i found.entry found.at) in
    let dispatched =
      notification-handle_tools_call utf8 writer from_slice server request session_id rd name parsed
      ∙ handle_tools_call_named utf8 writer server name i found.entry p found.at in
    (
      tool.op,
      tool.compiled,
      rw (← found.name_eq) tool.named,
      rw (tool.index_eq, tool.path_eq) dispatched,
    )
