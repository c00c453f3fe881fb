-- ===== src/Mcp/Admission.antt =====
-- crates/barbacane/src/mcp/mod.rs and tools.rs: which calls of tools are dispatched.
use barbacane.Common.{
  ℕ, String, ◌≡◌, refl, subst, ◌⊎◌, inl, inr, Bool, true, false, not, ◌&&◌, List, Option, none,
  some, lookup, Memᴰ, arith, is_some, str_eq, Bool-cases,
}
use barbacane.Common.Json.{Value}
use barbacane.Compiler.Specs.{CompiledOperation, McpConfig}
use barbacane.Validator.Decode.{Utf8}
use barbacane.Mcp.Sessions.{SessionStore, Reading, touch, touch_found}
use barbacane.Mcp.Arguments.{ToolEntry, Writer}
use barbacane.Mcp.Tools.{generate_tools}
use barbacane.Mcp.Indexed.{generate_tools-IsToolOf, index_tools-IsNamed}
use barbacane.Mcp.Server.{
  JsonRpcRequest, McpServer, needs_dispatch, new, session_checked, handle_method, with_session,
  handle_parsed, handle_request,
}
use barbacane.Mcp.Calls.{
  Dispatches, Dispatches-map, IsIndexed, Listed, Handled, handle_method-Handled,
}

-- The request is a notification, or comes with the id of a session that is in the store.
abbrev pub HasSession : SessionStore → Option String → Option Value → Type 0
HasSession store session_id id =
    (id ≡ none)
    ⊎ ((sid : String) × (last : ℕ) × (session_id ≡ some sid)
        × (lookup sid store.sessions ≡ some last))

session_checked-lookup :
    (session_id : Option String) (now : ℕ) (store : SessionStore)
    → (session_checked session_id now store).0 ≡ true
    → (sid : String) × (last : ℕ) × (session_id ≡ some sid)
      × (lookup sid store.sessions ≡ some last)
unfolding touch
session_checked-lookup none now store e = cc
session_checked-lookup (some sid) now store e = found (lookup sid store.sessions) refl e
  where
    found :
        (o : Option ℕ)
        → lookup sid store.sessions ≡ o
        → (touch_found store sid now o).0 ≡ true
        → (id : String) × (last : ℕ) × (some sid ≡ some id) × (lookup id store.sessions ≡ some last)
    found none p q = cc
    found (some last) p q = (sid, last, refl, p)

module _ (utf8 : Utf8) (writer : Writer) (server : McpServer) (indexed : IsIndexed server)
    (session_id : Option String) where
  abbrev Justified : ℕ → Option Value → Type 0
  Justified i id = HasSession server.session_store session_id id × Listed server i

  with_session-Justified :
      (req : JsonRpcRequest) (rd : Reading) (checked : Bool × SessionStore)
      → (checked.0 ≡ true → (id : Option Value) → HasSession server.session_store session_id id)
      → Dispatches Justified (with_session utf8 writer server req rd checked).0
  with_session-Justified req rd (false, store) h = tt
  with_session-Justified req rd (true, store) h =
      Dispatches-map (Handled utf8 writer server indexed req) Justified
        (λ i id g. (h refl id, g.1.1)) (handle_method utf8 writer server req rd store).0
        (handle_method-Handled utf8 writer server indexed req rd store)

  -- Without the check, the request is an `initialize` or a notification.
  unchecked-Justified :
      (req : JsonRpcRequest) (rd : Reading)
      → (not (str_eq req.method "initialize") && is_some req.id) ≡ false
      → Dispatches Justified (handle_method utf8 writer server req rd server.session_store).0
  unchecked-Justified req rd e =
      Dispatches-map (Handled utf8 writer server indexed req) Justified notified
        (handle_method utf8 writer server req rd server.session_store).0
        (handle_method-Handled utf8 writer server indexed req rd server.session_store)
    where
      no_id : (o : Option Value) → is_some o ≡ false → o ≡ none
      no_id none p = refl
      no_id (some v) p = cc

      notified :
          (i : ℕ) (id : Option Value) → Handled utf8 writer server indexed req i id → Justified i id
      notified i id (other, (same, listed)) =
          (inl (rw same (no_id req.id (ground (arith, e, other)))), listed)

  handle_parsed-Justified :
      (rd : Reading) (parsed : Option JsonRpcRequest)
      → Dispatches Justified (handle_parsed utf8 writer server session_id rd parsed).0
  handle_parsed-Justified rd none = tt
  handle_parsed-Justified rd (some req) = elim (Bool-cases (not (str_eq req.jsonrpc "2.0"))) [
    | inl e ↦ rw e tt
    | inr e ↦ rw e (elim (Bool-cases (not (str_eq req.method "initialize") && is_some req.id)) [
      | inl c ↦ rw c (
          with_session-Justified req rd
            (session_checked session_id rd.active_now server.session_store)
            (λ p id. inr (session_checked-lookup session_id rd.active_now server.session_store p)))
      | inr c ↦ rw c (unchecked-Justified req rd c)
    ])
  ]

-- The operation is one of those compiled that are exposed as a tool.
pub record Exposed (operations : List CompiledOperation) (i : ℕ) : Type 0 where
  pub op : CompiledOperation
  pub compiled : Memᴰ op operations
  pub enabled : op.mcp_enabled ≡ some true
  pub index_eq : op.index ≡ i

generate_tools-Exposed :
    (ops : List CompiledOperation) (entry : ToolEntry)
    → Memᴰ entry (generate_tools ops)
    → Exposed ops entry.operation_index
generate_tools-Exposed ops entry h =
    let t = generate_tools-IsToolOf ops entry h in
    record { op = t.op; compiled = t.compiled; enabled = t.enabled; index_eq = t.index_eq }

pub new-IsIndexed :
    (operations : List CompiledOperation) (config : McpConfig) → IsIndexed (new operations config)
new-IsIndexed operations config name i e =
    let named = index_tools-IsNamed (generate_tools operations) name i e in (named.entry, named.at)

module _ (utf8 : Utf8) (writer : Writer) (from_slice : List ℕ → Option JsonRpcRequest)
    (operations : List CompiledOperation) (config : McpConfig) (store : SessionStore) where
  abbrev serving : McpServer
  serving = record (new operations config) { session_store = store }

  abbrev pub Admits : Option String → ℕ → Option Value → Type 0
  Admits session_id i id = HasSession store session_id id × Exposed operations i

  -- What the server does with a request: no index is out of bounds, and what is dispatched is admitted.
  pub handle_request-Dispatches :
      (request : List ℕ) (session_id : Option String) (rd : Reading)
      → Dispatches
          (Admits session_id)
          (handle_request utf8 writer from_slice serving request session_id rd).0
  unfolding handle_request
  handle_request-Dispatches request session_id rd =
      Dispatches-map (Justified utf8 writer serving (new-IsIndexed operations config) session_id)
        (Admits session_id)
        (λ i id j. (
          j.0,
          subst (Exposed operations) j.1.index_eq
              (generate_tools-Exposed operations j.1.entry j.1.listed),
        ))
        (handle_parsed utf8 writer serving session_id rd (from_slice request)).0
        (handle_parsed-Justified utf8 writer serving (new-IsIndexed operations config) session_id rd
          (from_slice request))

-- A server of compiled operations, whatever its sessions have become, dispatches only operations that
-- are enabled for MCP, and only for a notification or with the id of a session that is in the store.
pub handle_request-Exposed :
    (utf8 : Utf8) (writer : Writer) (from_slice : List ℕ → Option JsonRpcRequest)
    (operations : List CompiledOperation) (config : McpConfig) (store : SessionStore)
    (request : List ℕ) (session_id : Option String) (rd : Reading) (i : ℕ) (path : String)
    (query : Option String) (body : Option (List ℕ)) (id : Option Value)
    → (handle_request utf8 writer from_slice
        (record (new operations config) { session_store = store })
        request
        session_id
        rd).0
      ≡ needs_dispatch i path query body id
    → HasSession store session_id id × Exposed operations i
handle_request-Exposed utf8 writer from_slice operations config store request session_id rd i path
      query body id e =
    subst (Dispatches (Admits utf8 writer from_slice operations config store session_id)) e (
      handle_request-Dispatches utf8 writer from_slice operations config store request session_id
        rd)
