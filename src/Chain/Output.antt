-- ===== src/Chain/Output.antt =====
-- crates/barbacane-wasm/src/chain.rs: what a middleware's output asks for.
use Prim.Native.String.{◌++◌}
use barbacane.Common.{
  ℕ, ◌≡◌, false, not, ◌||◌, ◌==◌, if◌then◌else◌, [], is_empty, Option, none, some, Option-cases,
  inl, inr, arith,
}
use barbacane.Chain.Errors.{Result, ok, err, init_failed}
use barbacane.Chain.Instance.{Bytes, MiddlewareOutput, Runtime}

pub data OnRequestResult : Type 0 where
  continue short_circuit : Bytes → OnRequestResult

module _ (rt : Runtime) where
  open rt use {Json, from_slice, to_vec, serialize_error}

  -- No output: the return code alone says what to do.
  abbrev no_output : ℕ → Result OnRequestResult
  no_output result_code =
      if result_code == 0
      then ok (continue [])
      else err (init_failed "middleware returned short-circuit without output")

  -- Structured output: it continues only if the action and the return code agree on that.
  abbrev structured : ℕ → ℕ → Json → Option Bytes → Result OnRequestResult
  structured action result_code json none =
      err (init_failed ("failed to serialize output: " ++ serialize_error json))
  structured action result_code json (some bytes) =
      if not (action == 0) || not (result_code == 0)
      then ok (short_circuit bytes)
      else ok (continue bytes)

  -- Any other output is taken as it is.
  abbrev raw : Bytes → ℕ → Result OnRequestResult
  raw output result_code =
      if result_code == 0 then ok (continue output) else ok (short_circuit output)

  abbrev parsed : Option (MiddlewareOutput Json) → Bytes → ℕ → Result OnRequestResult
  parsed none output result_code = raw output result_code
  parsed (some p) output result_code = structured p.action result_code p.payload (to_vec p.payload)

  unfoldable pub parse_middleware_output : Bytes → ℕ → Result OnRequestResult
  parse_middleware_output output result_code =
      if is_empty output
      then no_output result_code
      else parsed (from_slice output) output result_code

  -- The structured action of an output asks to continue, or there is none.
  abbrev pub AgreesToContinue : Option (MiddlewareOutput Json) → Type 0
  AgreesToContinue none = Unit
  AgreesToContinue (some p) = p.action ≡ 0

  -- A request with output goes on only if the return code says so and the structured action, if
  -- the output has one, says so too: a denial in either is never downgraded.
  pub parse_middleware_output_fail_safe :
      (output : Bytes) (result_code : ℕ) (request : Bytes)
      → is_empty output ≡ false
      → parse_middleware_output output result_code ≡ ok (continue request)
      → (result_code ≡ 0) × AgreesToContinue (from_slice output)
  unfolding parse_middleware_output
  parse_middleware_output_fail_safe output result_code request some_output e =
      elim (Option-cases (from_slice output)) [
        | inl unstructured ↦ rw unstructured (ground arith)
        | inr (p, structured_output) ↦ rw structured_output (ground arith)
      ]
