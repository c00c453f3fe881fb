-- ===== src/Gateway/Tolerance.antt =====
-- crates/barbacane/src/main.rs: the response survives the middlewares that fail on it.
use barbacane.Common.{
  String, ◌≡◌, refl, ap, sym, ◌∙◌, Bool, List, [], ◌∷◌, ◌++◌, Option, none, some, ℕ,
}
use mathlib.Core.List.{reverse, reverse-cons, reverse-append, append_assoc}
use barbacane.Chain.Errors.{WasmError, Result, ok, err}
use barbacane.Chain.Instance.{
  Bytes, RequestContext, Response, Runtime, PluginInstance, set_context, set_request_body,
  on_response,
}
use barbacane.Chain.Body.{BodyAccessControl, prepare_instance}
use barbacane.Chain.Body
use barbacane.Gateway.Responses.{
  collect_output, turn, turns, transform, reconstruct, execute_middleware_on_response,
}

module _ {rt : Runtime} (access : String → Bool) (c : RequestContext) where
  -- The middleware fails on every response, whatever body it is given.
  abbrev pub FailsOnResponse : PluginInstance rt → Type 0
  FailsOnResponse i =
      (body : Option Bytes) (json : Bytes)
      → (e : WasmError) × ((on_response (set_context (set_request_body i body) c) json).0 ≡ err e)

  collect_output_err :
      (b : BodyAccessControl) (o : Result ℕ × PluginInstance rt) (has_body_access : Bool)
      (e : WasmError)
      → o.0 ≡ err e
      → collect_output b o has_body_access ≡ b
  collect_output_err b (err x, i) has_body_access e h = refl
  collect_output_err b (ok n, i) has_body_access e h = cc

  turn_fails :
      (b : BodyAccessControl) (i : PluginInstance rt) → FailsOnResponse i → turn access c b i ≡ b
  unfolding turn prepare_instance
  turn_fails b i h = let (e, p) = h _ _ in collect_output_err b _ _ e p

  turns-append :
      (b : BodyAccessControl) (is js : List (PluginInstance rt))
      → turns access c b (is ++ js) ≡ turns access c (turns access c b is) js
  unfolding turns
  turns-append b [] js = refl
  turns-append b (i ∷ is) js = turns-append (turn access c b i) is js

  turns_without :
      (b : BodyAccessControl) (is js : List (PluginInstance rt)) (i : PluginInstance rt)
      → FailsOnResponse i
      → turns access c b (is ++ i ∷ js) ≡ turns access c b (is ++ js)
  unfolding turns
  turns_without b [] js i h = ap (λ b'. turns access c b' js) (turn_fails b i h)
  turns_without b (k ∷ is) js i h = turns_without (turn access c b k) is js i h

  reverse_middle :
      (is js : List (PluginInstance rt)) (i : PluginInstance rt)
      → reverse (is ++ i ∷ js) ≡ reverse js ++ i ∷ reverse is
  reverse_middle is js i =
      reverse-append is (i ∷ js)
      ∙ ap (λ l. l ++ reverse is) (reverse-cons i js)
      ∙ append_assoc (reverse js) (i ∷ []) (reverse is)

  turns-reverse_without :
      (b : BodyAccessControl) (is js : List (PluginInstance rt)) (i : PluginInstance rt)
      → FailsOnResponse i
      → turns access c b (reverse (is ++ i ∷ js)) ≡ turns access c b (reverse (is ++ js))
  turns-reverse_without b is js i h =
      ap (turns access c b) (reverse_middle is js i)
      ∙ turns_without b (reverse js) (reverse is) i h
      ∙ ap (turns access c b) (sym (reverse-append is js))

  -- A middleware whose on_response fails changes neither the response nor its body: the gateway
  -- answers as it does without that middleware.
  pub execute_middleware_on_response_tolerant :
      (is js : List (PluginInstance rt)) (i : PluginInstance rt) (r : Response)
      → FailsOnResponse i
      → execute_middleware_on_response access (is ++ i ∷ js) r c
        ≡ execute_middleware_on_response access (is ++ js) r c
  unfolding execute_middleware_on_response
  execute_middleware_on_response_tolerant is js i r h = transform_without _
    where
      transform_without :
          (json : Option Bytes)
          → transform access (is ++ i ∷ js) r c json ≡ transform access (is ++ js) r c json
      transform_without none = refl
      transform_without (some json) =
          ap (λ b. reconstruct r (rt.response_from_slice b.metadata_json) b.held_body)
            (turns-reverse_without (Body.new json r.body) is js i h)
