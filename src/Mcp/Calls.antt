-- ===== src/Mcp/Calls.antt =====
-- crates/barbacane/src/mcp/mod.rs: what the handling of a method dispatches.
use Prim.Native.Nat.{zero, suc}
use Prim.Native.String.{[]}
use barbacane.Common.{
  ℕ, String, ◌≡◌, refl, inl, inr, Bool, true, false, if◌then◌else◌, List, [], ◌∷◌, Option, none,
  some, get_elem?, lookup, Memᴰ, is_some, str_eq, Bool-cases, unwrap_or,
}
use barbacane.Common.Json.{Value, object, no_field, get_key, str_at}
use barbacane.Common.Results.{Result, ok, err}
use barbacane.Validator.Decode.{Utf8}
use barbacane.Mcp.Sessions.{SessionStore, Reading, create}
use barbacane.Mcp.Arguments.{ToolEntry, Writer, Decomposed, decompose_arguments}
use barbacane.Mcp.Server.{
  JsonRpcRequest, McpServer, McpResult, needs_dispatch, response, no_response, tool_panicked,
  initialize, call_result, call_at, call_named, handle_tools_call, answer_unknown, handle_method,
  handle_other, tools_list, success,
}

-- A property of what is dispatched, if anything is; an index out of bounds has none.
abbrev pub Dispatches : (ℕ → Option Value → Type 0) → McpResult → Type 0
Dispatches P (needs_dispatch i path query body id) = P i id
Dispatches P (response r session_id) = Unit
Dispatches P no_response = Unit
Dispatches P tool_panicked = ⊥

pub Dispatches-map :
    (P Q : ℕ → Option Value → Type 0)
    → ((i : ℕ) (id : Option Value) → P i id → Q i id)
    → (r : McpResult) → Dispatches P r
    → Dispatches Q r
Dispatches-map P Q f (needs_dispatch i path query body id) h = f i id h
Dispatches-map P Q f (response r session_id) h = tt
Dispatches-map P Q f no_response h = tt
Dispatches-map P Q f tool_panicked h = h

Dispatches-if :
    (P : ℕ → Option Value → Type 0) (b : Bool) (x y : McpResult × SessionStore)
    → Dispatches P x.0
    → Dispatches P y.0
    → Dispatches P (if b then x else y).0
Dispatches-if P true x y h g = h
Dispatches-if P false x y h g = g

-- A tool of the server has the operation.
pub record Listed (server : McpServer) (i : ℕ) : Type 0 where
  pub entry : ToolEntry
  pub listed : Memᴰ entry server.tool_entries
  pub index_eq : entry.operation_index ≡ i

pub get_elem?-Memᴰ :
    (xs : List ToolEntry) (i : ℕ) (x : ToolEntry) → get_elem? xs i ≡ some x → Memᴰ x xs
get_elem?-Memᴰ [] i x e = cc
get_elem?-Memᴰ (y ∷ ys) zero x e = Memᴰ.head (some-injective e)
  where
    some-injective : {a b : ToolEntry} → some a ≡ some b → b ≡ a
    some-injective p = cc
get_elem?-Memᴰ (y ∷ ys) (suc i) x e = Memᴰ.tail (get_elem?-Memᴰ ys i x e)

-- Every index that the server has for a name is the position of one of its tools.
abbrev pub IsIndexed : McpServer → Type 0
IsIndexed server =
    (name : String) (i : ℕ)
    → lookup name server.tool_index ≡ some i
    → (entry : ToolEntry) × (get_elem? server.tool_entries i ≡ some entry)

module _ (utf8 : Utf8) (writer : Writer) (server : McpServer) (indexed : IsIndexed server) where
  -- What a call dispatches has the request's id.
  abbrev pub Called : Option Value → ℕ → Option Value → Type 0
  Called id i called_id = (called_id ≡ id) × Listed server i

  call_entry-Called :
      (id : Option Value) (params : Value) (entry : ToolEntry)
      → Memᴰ entry server.tool_entries
      → (parts : Result Decomposed String)
      → Dispatches (Called id) (call_result utf8 writer id entry parts)
  call_entry-Called id params entry h (err msg) = tt
  call_entry-Called id params entry h (ok parts) =
      (refl, record { entry = entry; listed = h; index_eq = refl })

  call_at-Called :
      (id : Option Value) (params : Value) (name : String) (index : Option ℕ)
      → lookup name server.tool_index ≡ index
      → Dispatches (Called id) (call_at utf8 writer server id params name index)
  call_at-Called id params name none p = tt
  call_at-Called id params name (some i) p =
      let (entry, e) = indexed name i p in
      rw e (
        call_entry-Called id params entry (get_elem?-Memᴰ server.tool_entries i entry e) (
          decompose_arguments utf8 writer entry
            (unwrap_or (get_key "arguments" params) (object no_field))))

  call_named-Called :
      (id : Option Value) (params : Value) (name : Option String)
      → Dispatches (Called id) (call_named utf8 writer server id params name)
  call_named-Called id params none = tt
  call_named-Called id params (some name) =
      call_at-Called id params name (lookup name server.tool_index) refl

  handle_tools_call-Called :
      (req : JsonRpcRequest) → Dispatches (Called req.id) (handle_tools_call utf8 writer server req)
  handle_tools_call-Called req =
      call_named-Called req.id (unwrap_or req.params (object no_field))
        (str_at "name" (unwrap_or req.params (object no_field)))

  answer_unknown-Called :
      (req : JsonRpcRequest) → Dispatches (Called req.id) (answer_unknown utf8 writer req)
  answer_unknown-Called req = elim (Bool-cases (is_some req.id)) [
    | inl e ↦ rw e tt
    | inr e ↦ rw e tt
  ]

  handle_other-Called :
      (req : JsonRpcRequest) (store : SessionStore)
      → Dispatches (Called req.id) (handle_other utf8 writer server req store).0
  handle_other-Called req store =
      skip "notifications/initialized" (no_response, store) _ tt
        (skip "ping" (response (success req.id (object no_field)) none, store) _ tt
          (skip "tools/list" (response (success req.id (tools_list server)) none, store) _ tt
            (skip "tools/call" (handle_tools_call utf8 writer server req, store)
              (answer_unknown utf8 writer req, store) (handle_tools_call-Called req)
              (answer_unknown-Called req))))
    where
      skip :
          (method : String) (x y : McpResult × SessionStore)
          → Dispatches (Called req.id) x.0
          → Dispatches (Called req.id) y.0
          → Dispatches (Called req.id) (if str_eq req.method method then x else y).0
      skip method x y h g = Dispatches-if (Called req.id) (str_eq req.method method) x y h g

  abbrev pub Handled : JsonRpcRequest → ℕ → Option Value → Type 0
  Handled req i id = (str_eq req.method "initialize" ≡ false) × Called req.id i id

  pub handle_method-Handled :
      (req : JsonRpcRequest) (rd : Reading) (store : SessionStore)
      → Dispatches (Handled req) (handle_method utf8 writer server req rd store).0
  handle_method-Handled req rd store = elim (Bool-cases (str_eq req.method "initialize")) [
    | inl e ↦ rw e (created (create store rd))
    | inr e ↦ rw e (
        Dispatches-map (Called req.id) (Handled req) (λ i id h. (e, h))
          (handle_other utf8 writer server req store).0 (handle_other-Called req store))
  ]
    where
      created :
          (r : Option String × SessionStore)
          → Dispatches (Handled req) (initialize server req.id r).0
      created (none, s) = tt
      created (some id, s) = tt
