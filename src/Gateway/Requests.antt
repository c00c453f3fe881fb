-- ===== src/Gateway/Requests.antt =====
-- crates/barbacane/src/main.rs: `execute_middleware_on_request`, from the instances on.
use Prim.Native.String.{◌++◌}
use barbacane.Common.{
  ℕ, suc, String, Bool, true, false, if◌then◌else◌, List, [], ◌∷◌, Option, none, some, unwrap_or,
}
use barbacane.Chain.Errors.{WasmError, Result, ok, err}
use barbacane.Chain.Instance.{
  Bytes, RequestContext, Response, Runtime, PluginInstance, get_context, take_output_body,
}
use barbacane.Chain.Output.{OnRequestResult, continue, short_circuit}
use barbacane.Chain.Requests.{Metric, metric, visit}
use barbacane.Chain.Responses.{execute_on_response_partial}
use barbacane.Chain.Body.{BodyAccessControl, prepare_instance, collect_after, finalize}
use barbacane.Chain.Body

-- An instance, and whether its middleware declares body access.
pub record Middleware (rt : Runtime) : Type 0 where
  pub body_access : Bool
  pub plugin : PluginInstance rt

-- `RequestContext::default()`
abbrev pub default_context : RequestContext
default_context = record { values = []; last_get_result = none; trace_id = ""; request_id = "" }

-- Where the loop ends.
pub data Ending : Type 0 where
  finished : BodyAccessControl → RequestContext → Ending
  stopped :
      (response : Bytes) (sc_body : Option Bytes) (index : ℕ) (final_context : RequestContext)
      → Ending
  failed : WasmError → Ending

-- The ending, the instances afterwards, and the metrics recorded.
abbrev pub Looped : Runtime → Type 0
Looped rt = Ending × List (PluginInstance rt) × List Metric

-- The response to the client: a plugin's, or the gateway's own with a detail in dev mode.
pub data Reply : Type 0 where
  plugin_response : Response → Reply
  internal_error : (detail : Option String) → Reply

-- `dev_error_response`
abbrev pub dev_error_response : Bool → String → Reply
dev_error_response dev_mode msg = internal_error (if dev_mode then some msg else none)

-- What goes on to the dispatcher, or the reply to the client.
pub data Outcome (rt : Runtime) : Type 0 where
  proceed :
      (metadata : Bytes) (body : Option Bytes)
      → List (PluginInstance rt)
      → RequestContext
      → Outcome rt
  reply : Reply → Outcome rt

-- A short-circuit response that went through the middlewares before it, with its body.
abbrev pub short_circuit_reply :
    Bool → (parse_error : String) → Option Bytes → Option Response → Reply
short_circuit_reply dev_mode parse_error sc_body none =
    dev_error_response dev_mode ("failed to parse middleware response: " ++ parse_error)
short_circuit_reply dev_mode parse_error sc_body (some response) =
    plugin_response (record response { body = sc_body })

module _ {rt : Runtime} where
  open rt use {display, response_from_slice, response_error}

  abbrev pub instances : List (Middleware rt) → List (PluginInstance rt)
  instances [] = []
  instances (m ∷ ms) = m.plugin ∷ instances ms

  -- The call of one middleware: prepared, with its context, and its output parsed.
  unfoldable pub call :
      Middleware rt
      → BodyAccessControl
      → RequestContext
      → Result OnRequestResult × PluginInstance rt
  unfolding prepare_instance
  call m body_ctrl context =
      let (request_for_wasm, i) = prepare_instance body_ctrl m.plugin m.body_access in
      visit i context request_for_wasm

  abbrev pub before : PluginInstance rt → Metric → Looped rt → Looped rt
  before i x (e, is, xs) = (e, i ∷ is, x ∷ xs)

  -- The middleware continues: its output is collected, and the loop goes on.
  abbrev pub collect :
      Middleware rt
      → BodyAccessControl
      → Bytes
      → PluginInstance rt
      → (BodyAccessControl → RequestContext → Looped rt)
      → Looped rt
  collect m body_ctrl new_request i go =
      let (body_ctrl', i') = collect_after body_ctrl i new_request m.body_access in
      before i' (metric m.plugin "request" false) (go body_ctrl' (get_context i))

  -- The middleware short-circuits: its output body is taken, whatever its body access.
  abbrev pub stop :
      Middleware rt → Bytes → ℕ → List (PluginInstance rt) → PluginInstance rt → Looped rt
  stop m response index rest i =
      let (sc_body, i') = take_output_body i in
      (
        stopped response (unwrap_or sc_body none) index (get_context i),
        i' ∷ rest,
        metric m.plugin "request" true ∷ [],
      )

  -- The body of the loop, where `go` is the loop on the middlewares behind.
  abbrev pub act :
      ℕ
      → Middleware rt
      → List (PluginInstance rt)
      → BodyAccessControl
      → Result OnRequestResult × PluginInstance rt
      → (BodyAccessControl → RequestContext → Looped rt)
      → Looped rt
  act index m rest body_ctrl (err e, i) go =
      (failed e, i ∷ rest, metric m.plugin "request" false ∷ [])
  act index m rest body_ctrl (ok (continue new_request), i) go =
      collect m body_ctrl new_request i go
  act index m rest body_ctrl (ok (short_circuit response), i) go = stop m response index rest i

  -- The loop over the instances, from an index on.
  unfoldable pub middleware_loop :
      ℕ → BodyAccessControl → RequestContext → List (Middleware rt) → Looped rt
  middleware_loop index body_ctrl context [] = (finished body_ctrl context, [], [])
  middleware_loop index body_ctrl context (m ∷ ms) =
      act index m (instances ms) body_ctrl (call m body_ctrl context)
        λ body_ctrl' context'. middleware_loop (suc index) body_ctrl' context' ms

  abbrev pub conclude : Bool → Ending → List (PluginInstance rt) → Outcome rt
  conclude dev_mode (finished body_ctrl context) is =
      let (metadata, body) = finalize body_ctrl in proceed metadata body is context
  conclude dev_mode (stopped response sc_body index final_context) is =
      let final_response = (execute_on_response_partial is response index final_context).0 in
      reply (
        short_circuit_reply dev_mode (response_error final_response) sc_body
          (response_from_slice final_response))
  conclude dev_mode (failed e) is =
      reply (dev_error_response dev_mode ("middleware chain error: " ++ display e))

  unfoldable pub execute_middleware_on_request :
      Bool → List (Middleware rt) → Bytes → Option Bytes → Outcome rt
  execute_middleware_on_request dev_mode [] request_json raw_body =
      proceed request_json raw_body [] default_context
  execute_middleware_on_request dev_mode (m ∷ ms) request_json raw_body =
      let (ending, is, metrics) =
        middleware_loop 0 (Body.new request_json raw_body) default_context (m ∷ ms) in
      conclude dev_mode ending is
