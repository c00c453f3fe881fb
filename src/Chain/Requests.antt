-- ===== src/Chain/Requests.antt =====
-- crates/barbacane-wasm/src/chain.rs: the on_request chain.
use barbacane.Common.{ℕ, suc, String, Bool, true, false, List, [], ◌∷◌}
use barbacane.Chain.Errors.{WasmError, Result, ok, err, TrapResult, from_error}
use barbacane.Chain.Errors
use barbacane.Chain.Instance.{
  Bytes, RequestContext, Runtime, PluginInstance, set_context, get_context, take_output, on_request,
}
use barbacane.Chain.Output.{OnRequestResult, continue, short_circuit, parse_middleware_output}

pub data ChainResult : Type 0 where
  continued : (request : Bytes) (context : RequestContext) → ChainResult
  short_circuited :
      (response : Bytes) (middleware_index : ℕ) (context : RequestContext) → ChainResult
  failed : (error : WasmError) (trap_result : TrapResult) → ChainResult

-- One call of the metrics callback, without the measured time.
pub record Metric : Type 0 where
  pub middleware : String
  pub phase : String
  pub short_circuit : Bool

-- The result, the instances afterwards, and the metrics recorded.
abbrev pub Executed : Runtime → Type 0
Executed rt = ChainResult × List (PluginInstance rt) × List Metric

module _ {rt : Runtime} where
  open rt use {display}

  -- What one middleware makes of the request, before the chain acts on it.
  abbrev parse_result : Result ℕ × PluginInstance rt → Result OnRequestResult × PluginInstance rt
  parse_result (err e, i) = (err e, i)
  parse_result (ok result_code, i) =
      let (output, i') = take_output i in (parse_middleware_output rt output result_code, i')

  unfoldable pub visit :
      PluginInstance rt → RequestContext → Bytes → Result OnRequestResult × PluginInstance rt
  visit i context request = parse_result (on_request (set_context i context) request)

  abbrev pub metric : PluginInstance rt → String → Bool → Metric
  metric i phase sc = record { middleware = i.name; phase = phase; short_circuit = sc }

  -- Put a visited middleware and its metric before what the rest of the chain did.
  abbrev pub before : PluginInstance rt → Metric → Executed rt → Executed rt
  before i m (r, is, ms) = (r, i ∷ is, m ∷ ms)

  -- The body of the loop, where `go` is the loop on the middlewares behind.
  abbrev pub act :
      ℕ
      → PluginInstance rt
      → List (PluginInstance rt)
      → Result OnRequestResult × PluginInstance rt
      → (Bytes → RequestContext → Executed rt)
      → Executed rt
  act index i rest (err e, i') go = (
    failed e (from_error (display e) Errors.TrapContext.on_request),
    i' ∷ rest,
    metric i "request" false ∷ [],
  )
  act index i rest (ok (continue new_request), i') go =
      before i' (metric i "request" false) (go new_request (get_context i'))
  act index i rest (ok (short_circuit response), i') go =
      (short_circuited response index (get_context i'), i' ∷ rest, metric i "request" true ∷ [])

  -- The loop of `execute_on_request_with_metrics`, from a middleware's index on.
  unfoldable pub request_loop : ℕ → Bytes → RequestContext → List (PluginInstance rt) → Executed rt
  request_loop index request context [] = (continued request context, [], [])
  request_loop index request context (i ∷ rest) =
      act index i rest (visit i context request)
        λ new_request new_context. request_loop (suc index) new_request new_context rest

  unfoldable pub execute_on_request :
      List (PluginInstance rt) → Bytes → RequestContext → Executed rt
  unfolding request_loop
  execute_on_request instances initial_request context =
      request_loop 0 initial_request context instances
