-- ===== src/Chain/Responses.antt =====
-- crates/barbacane-wasm/src/chain.rs: the on_response chain.
use barbacane.Common.{ℕ, zero, suc, false, if◌then◌else◌, List, [], ◌∷◌, ◌++◌, is_empty, take, drop}
use mathlib.Core.List.{reverse}
use barbacane.Chain.Errors.{Result, ok, err}
use barbacane.Chain.Instance.{
  Bytes, RequestContext, Runtime, PluginInstance, set_context, take_output, on_response,
}
use barbacane.Chain.Requests.{Metric, metric}

-- The response, the instances afterwards, and the metrics recorded.
abbrev pub Responded : Runtime → Type 0
Responded rt = Bytes × List (PluginInstance rt) × List Metric

-- A middleware that gives no output leaves the response.
abbrev pub nonempty_or : Bytes → Bytes → Bytes
nonempty_or output old = if is_empty output then old else output

module _ {rt : Runtime} where
  abbrev pub take_response : Bytes → Result ℕ × PluginInstance rt → Bytes × PluginInstance rt
  take_response response (err e, i) = (response, i)
  take_response response (ok result_code, i) =
      let (output, i') = take_output i in (nonempty_or output response, i')

  -- One middleware's turn: an error is logged, and the response stays as it was.
  unfoldable pub respond : PluginInstance rt → RequestContext → Bytes → Bytes × PluginInstance rt
  respond i context response = take_response response (on_response (set_context i context) response)

  -- The loop over the reversed instances; it gives them back in the order of the loop.
  unfoldable pub response_loop : RequestContext → Bytes → List (PluginInstance rt) → Responded rt
  response_loop context response [] = (response, [], [])
  response_loop context response (i ∷ rest) =
      let (response', i') = respond i context response in
      let (final, rest', metrics) = response_loop context response' rest in
      (final, i' ∷ rest', metric i "response" false ∷ metrics)

  unfoldable pub execute_on_response :
      List (PluginInstance rt) → Bytes → RequestContext → Responded rt
  execute_on_response instances initial_response context =
      let (final, visited, metrics) = response_loop context initial_response (reverse instances) in
      (final, reverse visited, metrics)

  -- The slice `instances[..short_circuit_index]` is in range where the chain calls this.
  unfoldable pub execute_on_response_partial :
      List (PluginInstance rt) → Bytes → ℕ → RequestContext → Responded rt
  execute_on_response_partial instances response zero context = (response, instances, [])
  execute_on_response_partial instances response (suc k) context =
      let (final, visited, metrics) =
        execute_on_response (take (suc k) instances) response context in
      (final, visited ++ drop (suc k) instances, metrics)
