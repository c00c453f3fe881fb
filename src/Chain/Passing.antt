-- ===== src/Chain/Passing.antt =====
-- crates/barbacane-wasm/src/chain.rs: what a result of the on_request chain says of the middlewares.
use barbacane.Common.{ℕ, suc, ◌+◌, ◌≡◌, refl, ap, List, [], ◌∷◌, ◌++◌, length, arith}
use barbacane.Chain.Errors.{WasmError, Result, ok, err, TrapResult, fatal}
use barbacane.Chain.Errors
use barbacane.Chain.Instance.{Bytes, RequestContext, Runtime, PluginInstance, get_context}
use barbacane.Chain.Output.{OnRequestResult, continue, short_circuit}
use barbacane.Chain.Requests.{
  ChainResult, continued, short_circuited, failed, visit, act, Executed, request_loop,
  execute_on_request,
}

-- A request passes middlewares in order: each is given what the one before it made of the request
-- and of the context, and continues.
pub data Passes {rt : Runtime}
    : Bytes
      → RequestContext
      → List (PluginInstance rt)
      → List (PluginInstance rt)
      → Bytes
      → RequestContext
      → Type 0 where
  through : {r : Bytes} {c : RequestContext} → Passes r c [] [] r c
  next :
      {r r' r'' : Bytes} {c c'' : RequestContext} {i i' : PluginInstance rt}
      {is is' : List (PluginInstance rt)}
      → visit i c r ≡ (ok (continue r'), i')
      → Passes r' (get_context i') is is' r'' c''
      → Passes r c (i ∷ is) (i' ∷ is') r'' c''

-- The request passed the first middlewares, and the next one gave the outcome; those behind it were
-- not called.
pub record Stopped {rt : Runtime} (outcome : Result OnRequestResult) (n : ℕ) (r : Bytes)
    (c : RequestContext) (is is' : List (PluginInstance rt)) (index : ℕ) (context : RequestContext)
    : Type 0 where
  pub first : List (PluginInstance rt)
  pub first' : List (PluginInstance rt)
  pub rest : List (PluginInstance rt)
  pub stopper : PluginInstance rt
  pub stopper' : PluginInstance rt
  pub request' : Bytes
  pub context' : RequestContext
  pub split_eq : is ≡ first ++ stopper ∷ rest
  pub split_eq' : is' ≡ first' ++ stopper' ∷ rest
  pub passed : Passes r c first first' request' context'
  pub stops : visit stopper context' request' ≡ (outcome, stopper')
  pub index_eq : index ≡ n + length first
  pub context_eq : context ≡ get_context stopper'

module _ {rt : Runtime} where
  open rt use {display}

  abbrev pub Explains :
      ℕ
      → Bytes
      → RequestContext
      → List (PluginInstance rt)
      → List (PluginInstance rt)
      → ChainResult
      → Type 0
  Explains n r c is is' (continued r' c') = Passes r c is is' r' c'
  Explains n r c is is' (short_circuited response index c') =
      Stopped (ok (short_circuit response)) n r c is is' index c'
  Explains n r c is is' (failed e t) =
      ((index : ℕ) × (c' : RequestContext) × Stopped (err e) n r c is is' index c')
      × (t ≡ fatal (display e) Errors.TrapContext.on_request)

  here-Stopped :
      {outcome : Result OnRequestResult} (n : ℕ) (r : Bytes) (c : RequestContext)
      (i i' : PluginInstance rt) (is : List (PluginInstance rt))
      → visit i c r ≡ (outcome, i')
      → Stopped outcome n r c (i ∷ is) (i' ∷ is) n (get_context i')
  here-Stopped n r c i i' is e = record {
    first = [];
    first' = [];
    rest = is;
    stopper = i;
    stopper' = i';
    request' = r;
    context' = c;
    split_eq = refl;
    split_eq' = refl;
    passed = through;
    stops = e;
    index_eq = omega arith;
    context_eq = refl;
  }

  later-Stopped :
      {outcome : Result OnRequestResult} {r' : Bytes} {is' : List (PluginInstance rt)} {index : ℕ}
      {c' : RequestContext} (n : ℕ) (r : Bytes) (c : RequestContext) (i i' : PluginInstance rt)
      (is : List (PluginInstance rt))
      → visit i c r ≡ (ok (continue r'), i')
      → Stopped outcome (suc n) r' (get_context i') is is' index c'
      → Stopped outcome n r c (i ∷ is) (i' ∷ is') index c'
  later-Stopped n r c i i' is e s = record {
    first = i ∷ s.first;
    first' = i' ∷ s.first';
    rest = s.rest;
    stopper = s.stopper;
    stopper' = s.stopper';
    request' = s.request';
    context' = s.context';
    split_eq = ap (◌∷◌ i) s.split_eq;
    split_eq' = ap (◌∷◌ i') s.split_eq';
    passed = next e s.passed;
    stops = s.stops;
    index_eq = omega (arith, s.index_eq);
    context_eq = s.context_eq;
  }

  later-Explains :
      (n : ℕ) (r r' : Bytes) (c : RequestContext) (i i' : PluginInstance rt)
      (is is' : List (PluginInstance rt)) (result : ChainResult)
      → visit i c r ≡ (ok (continue r'), i')
      → Explains (suc n) r' (get_context i') is is' result
      → Explains n r c (i ∷ is) (i' ∷ is') result
  later-Explains n r r' c i i' is is' (continued r'' c'') e h = next e h
  later-Explains n r r' c i i' is is' (short_circuited response index c') e h =
      later-Stopped n r c i i' is e h
  later-Explains n r r' c i i' is is' (failed x t) e h =
      let (stop, fatal_eq) = h in ((stop.0, stop.1, later-Stopped n r c i i' is e stop.2), fatal_eq)

  act-Explains :
      (n : ℕ) (r : Bytes) (c : RequestContext) (i : PluginInstance rt)
      (is : List (PluginInstance rt)) (o : Result OnRequestResult × PluginInstance rt)
      (go : Bytes → RequestContext → Executed rt)
      → visit i c r ≡ o
      → ((r' : Bytes) (c' : RequestContext) → Explains (suc n) r' c' is (go r' c').1 (go r' c').0)
      → let x = act n i is o go in Explains n r c (i ∷ is) x.1 x.0
  act-Explains n r c i is (err e, i') go p ih =
      ((n, get_context i', here-Stopped n r c i i' is p), refl)
  act-Explains n r c i is (ok (continue r'), i') go p ih =
      later-Explains n r r' c i i' is _ (go r' (get_context i')).0 p (ih r' (get_context i'))
  act-Explains n r c i is (ok (short_circuit response), i') go p ih = here-Stopped n r c i i' is p

  request_loop-Explains :
      (n : ℕ) (r : Bytes) (c : RequestContext) (is : List (PluginInstance rt))
      → let x = request_loop n r c is in Explains n r c is x.1 x.0
  unfolding request_loop
  request_loop-Explains n r c [] = through
  request_loop-Explains n r c (i ∷ is) =
      act-Explains n r c i is (visit i c r) _ refl λ r' c'. request_loop-Explains (suc n) r' c' is

-- What the chain returns explains what happened. A request that is continued passed every
-- middleware in order. A short circuit is the response of the middleware at its index, all before
-- it passed, and none behind it was called. An error is that of one middleware, all before it
-- passed, none behind it was called, and it is fatal.
pub execute_on_request-Explains :
    {rt : Runtime} (is : List (PluginInstance rt)) (r : Bytes) (c : RequestContext)
    → let x = execute_on_request is r c in Explains 0 r c is x.1 x.0
unfolding execute_on_request
execute_on_request-Explains is r c = request_loop-Explains 0 r c is
