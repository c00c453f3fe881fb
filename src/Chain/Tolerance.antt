-- ===== src/Chain/Tolerance.antt =====
-- crates/barbacane-wasm/src/chain.rs: the on_response chain runs backwards and survives errors.
use barbacane.Common.{
  ℕ, zero, suc, ◌≤◌, ◌≡◌, refl, sym, ap, ◌∙◌, List, [], ◌∷◌, ◌++◌, length, take, drop,
  length-reverse, length-take_le, drop-append_length,
}
use mathlib.Core.List.{reverse, reverse-cons}
use barbacane.Chain.Errors.{WasmError, Result, ok, err}
use barbacane.Chain.Instance.{
  Bytes, RequestContext, Runtime, PluginInstance, set_context, on_response,
}
use barbacane.Chain.Responses.{
  take_response, respond, response_loop, execute_on_response, execute_on_response_partial,
}

module _ {rt : Runtime} (c : RequestContext) where
  -- The last middleware transforms the response first.
  pub respond_backwards : List (PluginInstance rt) → Bytes → Bytes
  respond_backwards [] r = r
  respond_backwards (i ∷ is) r = (respond i c (respond_backwards is r)).0

  response_loop-append :
      (is js : List (PluginInstance rt)) (r : Bytes)
      → (response_loop c r (is ++ js)).0 ≡ (response_loop c (response_loop c r is).0 js).0
  unfolding response_loop
  response_loop-append [] js r = refl
  response_loop-append (i ∷ is) js r = response_loop-append is js (respond i c r).0

  response_loop-reverse :
      (is : List (PluginInstance rt)) (r : Bytes)
      → (response_loop c r (reverse is)).0 ≡ respond_backwards is r
  unfolding respond_backwards response_loop
  response_loop-reverse [] r = refl
  response_loop-reverse (i ∷ is) r =
      ap (λ js. (response_loop c r js).0) (reverse-cons i is)
      ∙ response_loop-append (reverse is) (i ∷ []) r
      ∙ ap (λ r'. (respond i c r').0) (response_loop-reverse is r)

  -- The response goes through the middlewares from the last to the first.
  pub execute_on_response-backwards :
      (is : List (PluginInstance rt)) (r : Bytes)
      → (execute_on_response is r c).0 ≡ respond_backwards is r
  unfolding execute_on_response
  execute_on_response-backwards is r = response_loop-reverse is r

  -- The middleware fails on every response.
  abbrev pub AlwaysFails : PluginInstance rt → Type 0
  AlwaysFails i = (r : Bytes) → (e : WasmError) × ((on_response (set_context i c) r).0 ≡ err e)

  take_response_err :
      (r : Bytes) (o : Result ℕ × PluginInstance rt) (e : WasmError)
      → o.0 ≡ err e
      → (take_response r o).0 ≡ r
  take_response_err r (err x, i) e h = refl
  take_response_err r (ok n, i) e h = cc

  respond_fails : (i : PluginInstance rt) (r : Bytes) → AlwaysFails i → (respond i c r).0 ≡ r
  unfolding respond
  respond_fails i r h = let (e, p) = h r in take_response_err r _ e p

  respond_backwards_without :
      (is js : List (PluginInstance rt)) (i : PluginInstance rt) (r : Bytes)
      → AlwaysFails i
      → respond_backwards (is ++ i ∷ js) r ≡ respond_backwards (is ++ js) r
  unfolding respond_backwards
  respond_backwards_without [] js i r h = respond_fails i _ h
  respond_backwards_without (k ∷ is) js i r h =
      ap (λ r'. (respond k c r').0) (respond_backwards_without is js i r h)

  -- A middleware whose on_response fails does not change the response: it is what the chain
  -- without that middleware gives.
  pub execute_on_response_tolerant :
      (is js : List (PluginInstance rt)) (i : PluginInstance rt) (r : Bytes)
      → AlwaysFails i
      → (execute_on_response (is ++ i ∷ js) r c).0 ≡ (execute_on_response (is ++ js) r c).0
  execute_on_response_tolerant is js i r h =
      execute_on_response-backwards (is ++ i ∷ js) r
      ∙ respond_backwards_without is js i r h
      ∙ sym (execute_on_response-backwards (is ++ js) r)

  length-response_loop :
      (is : List (PluginInstance rt)) (r : Bytes) → length (response_loop c r is).1 ≡ length is
  unfolding response_loop
  length-response_loop [] r = refl
  length-response_loop (i ∷ is) r = ap suc (length-response_loop is (respond i c r).0)

  length-execute_on_response :
      (is : List (PluginInstance rt)) (r : Bytes)
      → length (execute_on_response is r c).1 ≡ length is
  unfolding execute_on_response
  length-execute_on_response is r =
      length-reverse (response_loop c r (reverse is)).1
      ∙ length-response_loop (reverse is) r
      ∙ length-reverse is

  -- After a short circuit at an index within the chain the middlewares before it see the response,
  -- from the last to the first; the one that short-circuited and those behind it are left as they
  -- were.
  execute_on_response_partial_lem :
      (is : List (PluginInstance rt)) (k : ℕ) (r : Bytes)
      → k ≤ length is
      → ((execute_on_response_partial is r k c).0 ≡ respond_backwards (take k is) r)
        × (drop k (execute_on_response_partial is r k c).1 ≡ drop k is)
  unfolding execute_on_response_partial respond_backwards
  execute_on_response_partial_lem is zero r h = (refl, refl)
  execute_on_response_partial_lem is (suc k) r h = (
    execute_on_response-backwards (take (suc k) is) r,
    drop-append_length (suc k) (execute_on_response (take (suc k) is) r c).1 (drop (suc k) is)
        (length-execute_on_response (take (suc k) is) r ∙ length-take_le (suc k) is h),
  )
