-- ===== src/Gateway/Responses.antt =====
-- crates/barbacane/src/main.rs: `execute_middleware_on_response`.
use barbacane.Common.{ℕ, String, Bool, List, [], ◌∷◌, Option, none, some}
use mathlib.Core.List.{reverse}
use barbacane.Chain.Errors.{Result, ok, err}
use barbacane.Chain.Instance.{
  Bytes, RequestContext, Response, Runtime, PluginInstance, set_context, take_output, on_response,
}
use barbacane.Chain.Body.{BodyAccessControl, prepare_instance, collect_after, finalize}
use barbacane.Chain.Body

-- The response is put together from the metadata and the body; the original one if that fails.
abbrev pub reconstruct : Response → Option Response → Option Bytes → Response
reconstruct response none final_body = response
reconstruct response (some resp) final_body = record resp { body = final_body }

module _ {rt : Runtime} where
  open rt use {response_from_slice, response_to_vec}

  -- An error is logged, and nothing is collected.
  abbrev pub collect_output :
      BodyAccessControl → Result ℕ × PluginInstance rt → Bool → BodyAccessControl
  collect_output body_ctrl (err e, i) has_body_access = body_ctrl
  collect_output body_ctrl (ok result_code, i) has_body_access =
      let (output, i') = take_output i in (collect_after body_ctrl i' output has_body_access).0

  -- One middleware's turn; `body_access` is the plugin pool's, by the plugin's name.
  unfoldable pub turn :
      (String → Bool) → RequestContext → BodyAccessControl → PluginInstance rt → BodyAccessControl
  unfolding prepare_instance
  turn body_access context body_ctrl i =
      let has_body_access = body_access i.name in
      let (response_for_wasm, i') = prepare_instance body_ctrl i has_body_access in
      collect_output body_ctrl (on_response (set_context i' context) response_for_wasm)
        has_body_access

  -- The loop; the instances are dropped after it.
  unfoldable pub turns :
      (String → Bool)
      → RequestContext
      → BodyAccessControl
      → List (PluginInstance rt)
      → BodyAccessControl
  turns body_access context body_ctrl [] = body_ctrl
  turns body_access context body_ctrl (i ∷ is) =
      turns body_access context (turn body_access context body_ctrl i) is

  abbrev pub transform :
      (String → Bool)
      → List (PluginInstance rt)
      → Response
      → RequestContext
      → Option Bytes
      → Response
  transform body_access instances response context none = response
  transform body_access instances response context (some response_json) =
      let body_ctrl =
        turns body_access context (Body.new response_json response.body) (reverse instances) in
      let (final_json, final_body) = finalize body_ctrl in
      reconstruct response (response_from_slice final_json) final_body

  unfoldable pub execute_middleware_on_response :
      (String → Bool) → List (PluginInstance rt) → Response → RequestContext → Response
  execute_middleware_on_response body_access instances response context =
      transform body_access instances response context
        (response_to_vec (record response { body = none }))
