-- ===== src/Gateway/Serving/Tools.antt =====
-- crates/barbacane/src/main.rs: `handle_mcp_endpoint` never indexes the operations or the tools out of
-- bounds, when they are those of one artifact.
use barbacane.Common.{
  ℕ, zero, suc, arith, ◌<◌, ◌≡◌, ◌≢◌, refl, sym, subst, List, [], ◌∷◌, Option, none, some, All,
  Memᴰ, get_elem?, length, str_eq, not, Bool-cases, inl, inr,
}
use barbacane.Common.Json.{Value}
use barbacane.Common.Results.{ok, err}
use barbacane.Compiler.Specs.{CompiledOperation, McpConfig}
use barbacane.Validator.Decode.{Utf8}
use barbacane.Validator.Limits.{RequestLimits, Checked}
use barbacane.Gateway.Incoming.{
  Incoming, Collected, collected, over_limit, broken, content_length_of, declared_length,
}
use barbacane.Mcp.Arguments.{Writer}
use barbacane.Mcp.Sessions.{SessionStore, Reading}
use barbacane.Mcp.Server.{
  JsonRpcRequest, McpServer, McpResult, needs_dispatch, response, no_response, tool_panicked, new,
  handle_request,
}
use barbacane.Mcp.Calls.{Dispatches}
use barbacane.Mcp.Admission.{Exposed, handle_request-Dispatches}
use barbacane.Mcp.Endpoint.{
  McpAnswer, mcp_panicked, header_text, load_mcp, answer_result, answer_collected, answer_checked,
  with_server, handle_mcp_endpoint,
}

-- The server, with its sessions as they have become.
abbrev pub with_sessions : SessionStore → Option McpServer → Option McpServer
with_sessions store none = none
with_sessions store (some server) = some (record server { session_store = store })

abbrev Sound : McpAnswer → Type 0
Sound mcp_panicked = ⊥
Sound _ = Unit

Sound-mcp_panicked : (answer : McpAnswer) → Sound answer → answer ≢ mcp_panicked
Sound-mcp_panicked answer h e = subst Sound e h

pub get_elem?-lt :
    {A : Type 0} (xs : List A) (i : ℕ) → i < length xs → (a : A) × (get_elem? xs i ≡ some a)
get_elem?-lt [] i h = absurd (omega arith)
get_elem?-lt (x ∷ xs) zero h = (x, refl)
get_elem?-lt (x ∷ xs) (suc i) h = get_elem?-lt xs i (omega (arith, h))

All_Memᴰ : {A : Type 0} (P : A → Type 0) (xs : List A) (x : A) → All P xs → Memᴰ x xs → P x
All_Memᴰ P (y ∷ ys) x h (Memᴰ.head p) = subst P (sym p) h.0
All_Memᴰ P (y ∷ ys) x h (Memᴰ.tail m) = All_Memᴰ P ys x h.1 m
All_Memᴰ P [] x h m = elim m [ ]

module _ (utf8 : Utf8) (writer : Writer) (from_slice : List ℕ → Option JsonRpcRequest)
    (limits : RequestLimits) (ops : List CompiledOperation) (req : Incoming) (rd : Reading)
    (in_bounds : All (λ op. op.index < length ops) ops) where
  Exposed-in_bounds : (i : ℕ) → Exposed ops i → i < length ops
  Exposed-in_bounds i x =
      subst (λ n. n < length ops) x.index_eq
        (All_Memᴰ (λ op. op.index < length ops) ops x.op in_bounds x.compiled)

  answer_result-Sound :
      (session : Option Value → Type 0) (result : McpResult)
      → Dispatches (λ i id. session id × Exposed ops i) result
      → Sound (answer_result utf8 writer from_slice limits ops req rd result)
  answer_result-Sound session (needs_dispatch i path query body id) h =
      let (op, e) = get_elem?-lt ops i (Exposed-in_bounds i h.1) in rw e tt
  answer_result-Sound session (response r sid) h = tt
  answer_result-Sound session no_response h = tt
  answer_result-Sound session tool_panicked h = h

  module _ (config : McpConfig) (store : SessionStore) where
    abbrev server : McpServer
    server = record (new ops config) { session_store = store }

    answer_collected-Sound :
        (body : Collected)
        → Sound (answer_collected utf8 writer from_slice limits ops req rd server body).0
    answer_collected-Sound over_limit = tt
    answer_collected-Sound broken = tt
    answer_collected-Sound (collected bytes) =
        let session_id = header_text "mcp-session-id" req.raw_headers in
        answer_result-Sound _ (handle_request utf8 writer from_slice server bytes session_id rd).0
          (handle_request-Dispatches utf8 writer from_slice ops config store bytes session_id rd)

    answer_checked-Sound :
        (c : Checked) → Sound (answer_checked utf8 writer from_slice limits ops req rd server c).0
    answer_checked-Sound (err e) = tt
    answer_checked-Sound (ok u) = answer_collected-Sound req.body

    with_server-Sound : Sound (with_server utf8 writer from_slice limits ops req rd server).0
    with_server-Sound = elim (Bool-cases (str_eq req.method "OPTIONS")) [
      | inl e ↦ rw e tt
      | inr e ↦ elim (Bool-cases (str_eq req.method "DELETE")) [
        | inl d ↦ rw (e, d) tt
        | inr d ↦ elim (Bool-cases (not (str_eq req.method "POST"))) [
          | inl p ↦ rw (e, d, p) tt
          | inr p ↦
              rw (e, d, p)
                (answer_checked-Sound (
                  declared_length limits
                    (content_length_of (header_text "content-length" req.raw_headers))))
        ]
      ]
    ]

    pub handle_mcp_endpoint_sound :
        (handle_mcp_endpoint utf8 writer from_slice limits ops req rd
          (with_sessions store (load_mcp ops config))).0
        ≢ mcp_panicked
    unfolding handle_mcp_endpoint
    handle_mcp_endpoint_sound = elim (Bool-cases config.enabled) [
      | inl e ↦ rw e (Sound-mcp_panicked _ with_server-Sound)
      | inr e ↦ rw e (λ p. cc p)
    ]
