-- ===== src/Gateway/Isolation.antt =====
-- crates/barbacane/src/main.rs: middlewares without body access can neither see nor change a body.
use barbacane.Common.{
  ℕ, suc, String, ◌≡◌, refl, ap, ◌∙◌, Bool, false, List, [], ◌∷◌, Option, none, some, All,
  All-reverse,
}
use mathlib.Core.List.{reverse}
use barbacane.Chain.Errors.{Result, ok, err}
use barbacane.Chain.Instance.{Bytes, RequestContext, Response, Runtime, PluginInstance, get_context}
use barbacane.Chain.Output.{OnRequestResult, continue, short_circuit}
use barbacane.Chain.Body.{BodyAccessControl, keep_metadata, prepare_instance, collect_after}
use barbacane.Chain.Requests.{metric}
use barbacane.Chain.Body
use barbacane.Gateway.Requests.{
  Middleware, Looped, Ending, finished, stopped, failed, Outcome, proceed, reply, instances, call,
  act, before, middleware_loop, conclude, execute_middleware_on_request,
}
use barbacane.Gateway.Responses.{
  collect_output, turn, turns, transform, reconstruct, execute_middleware_on_response,
}

-- The same ending, but that another body is held at the end of a loop that finishes.
abbrev end_with : Option Bytes → Ending → Ending
end_with body (finished b c) = finished (record b { held_body = body }) c
end_with body (stopped response sc_body index c) = stopped response sc_body index c
end_with body (failed e) = failed e

reconstruct_isolated :
    (r : Response) (body : Option Bytes) (parsed : Option Response)
    → reconstruct (record r { body = body }) parsed body
      ≡ record (reconstruct (record r { body = none }) parsed none) { body = body }
reconstruct_isolated r body none = refl
reconstruct_isolated r body (some p) = refl

module _ {rt : Runtime} where
  abbrev loop_with : Option Bytes → Looped rt → Looped rt
  loop_with body (e, is, xs) = (end_with body e, is, xs)

  abbrev HasNoAccess : Middleware rt → Type 0
  HasNoAccess m = m.body_access ≡ false

  call_isolated :
      (m : Middleware rt) (b : BodyAccessControl) (c : RequestContext) (body : Option Bytes)
      → HasNoAccess m
      → call m (record b { held_body = body }) c ≡ call m b c
  unfolding call prepare_instance
  call_isolated m b c body h = rw h

  act_isolated :
      (n : ℕ) (m : Middleware rt) (rest : List (PluginInstance rt)) (b : BodyAccessControl)
      (o : Result OnRequestResult × PluginInstance rt)
      (go : BodyAccessControl → RequestContext → Looped rt) (body : Option Bytes)
      → HasNoAccess m
      → ((b' : BodyAccessControl) (c' : RequestContext)
          → go (record b' { held_body = body }) c' ≡ loop_with body (go b' c'))
      → act n m rest (record b { held_body = body }) o go ≡ loop_with body (act n m rest b o go)
  unfolding collect_after
  act_isolated n m rest b (err e, i) go body h ih = refl
  act_isolated n m rest b (ok (continue r), i) go body h ih =
      rw h
        (ap (before i (metric m.plugin "request" false)) (ih (keep_metadata b r) (get_context i)))
  act_isolated n m rest b (ok (short_circuit r), i) go body h ih = refl

  middleware_loop_isolated :
      (n : ℕ) (b : BodyAccessControl) (c : RequestContext) (ms : List (Middleware rt))
      (body : Option Bytes)
      → All HasNoAccess ms
      → middleware_loop n (record b { held_body = body }) c ms
        ≡ loop_with body (middleware_loop n b c ms)
  unfolding middleware_loop
  middleware_loop_isolated n b c [] body h = refl
  middleware_loop_isolated n b c (m ∷ ms) body h = rw (call_isolated m b c body h.0) (
      act_isolated n m (instances ms) b (call m b c) _ body h.0
        λ b' c'. middleware_loop_isolated (suc n) b' c' ms body h.1)

  -- The same outcome, but that another body goes on to the dispatcher.
  abbrev pub outcome_with : Option Bytes → Outcome rt → Outcome rt
  outcome_with body (proceed metadata old is c) = proceed metadata body is c
  outcome_with body (reply r) = reply r

  conclude_isolated :
      (dev_mode : Bool) (body : Option Bytes) (e : Ending) (is : List (PluginInstance rt))
      → conclude dev_mode (end_with body e) is ≡ outcome_with body (conclude dev_mode e is)
  conclude_isolated dev_mode body (finished b c) is = refl
  conclude_isolated dev_mode body (stopped response sc_body index c) is = refl
  conclude_isolated dev_mode body (failed e) is = refl

  -- If no middleware has body access, the request body has no influence on them and they have none
  -- on it: with the body, the outcome is what it is without one, and the body goes on unchanged.
  pub execute_middleware_on_request_isolated :
      (dev_mode : Bool) (ms : List (Middleware rt)) (request_json : Bytes) (raw_body : Option Bytes)
      → All HasNoAccess ms
      → execute_middleware_on_request dev_mode ms request_json raw_body
        ≡ outcome_with raw_body (execute_middleware_on_request dev_mode ms request_json none)
  unfolding execute_middleware_on_request
  execute_middleware_on_request_isolated dev_mode [] request_json raw_body h = refl
  execute_middleware_on_request_isolated dev_mode (m ∷ ms) request_json raw_body h =
      ap (λ (x : Looped rt). conclude dev_mode x.0 x.1)
        (middleware_loop_isolated 0 _ _ (m ∷ ms) raw_body h)
      ∙ conclude_isolated dev_mode raw_body _ _

  -- The named plugin has no body access.
  abbrev pub IsBlind : (String → Bool) → PluginInstance rt → Type 0
  IsBlind body_access i = body_access i.name ≡ false

  collect_output_blind :
      (b : BodyAccessControl) (body : Option Bytes) (o : Result ℕ × PluginInstance rt)
      → collect_output (record b { held_body = body }) o false
        ≡ record (collect_output b o false) { held_body = body }
  unfolding collect_after
  collect_output_blind b body (err e, i) = refl
  collect_output_blind b body (ok n, i) = refl

  turn_blind :
      (access : String → Bool) (c : RequestContext) (b : BodyAccessControl) (i : PluginInstance rt)
      (body : Option Bytes)
      → IsBlind access i
      → turn access c (record b { held_body = body }) i
        ≡ record (turn access c b i) { held_body = body }
  unfolding turn prepare_instance
  turn_blind access c b i body h = rw h (collect_output_blind b body _)

  turns_blind :
      (access : String → Bool) (c : RequestContext) (b : BodyAccessControl)
      (is : List (PluginInstance rt)) (body : Option Bytes)
      → All (IsBlind access) is
      → turns access c (record b { held_body = body }) is
        ≡ record (turns access c b is) { held_body = body }
  unfolding turns
  turns_blind access c b [] body h = refl
  turns_blind access c b (i ∷ is) body h =
      rw (turn_blind access c b i body h.0) (turns_blind access c (turn access c b i) is body h.1)

  transform_isolated :
      (access : String → Bool) (is : List (PluginInstance rt)) (r : Response) (c : RequestContext)
      (body : Option Bytes) (json : Option Bytes)
      → All (IsBlind access) (reverse is)
      → transform access is (record r { body = body }) c json
        ≡ record (transform access is (record r { body = none }) c json) { body = body }
  transform_isolated access is r c body none h = refl
  transform_isolated access is r c body (some json) h =
      rw (turns_blind access c (Body.new json none) (reverse is) body h) (
        rw (turns_blind access c (Body.new json none) (reverse is) none h) (
          reconstruct_isolated r body (
            rt.response_from_slice
              (turns access c (Body.new json none) (reverse is)).metadata_json)))

  -- If no middleware has body access, the response body has no influence on what they make of the
  -- response and they have none on it: the result is what it is without a body, and has the body.
  execute_middleware_on_response_isolated :
      (access : String → Bool) (is : List (PluginInstance rt)) (r : Response) (c : RequestContext)
      → All (IsBlind access) is
      → execute_middleware_on_response access is r c
        ≡ record (execute_middleware_on_response access is (record r { body = none }) c) {
          body = r.body;
        }
  unfolding execute_middleware_on_response
  execute_middleware_on_response_isolated access is r c h =
      transform_isolated access is r c r.body (rt.response_to_vec (record r { body = none }))
        (All-reverse (IsBlind access) is h)
