-- ===== src/Chain/Instance.antt =====
-- crates/barbacane-wasm/src/instance.rs: a plugin instance as the chain uses it.
use barbacane.Common.{
  ◌*◌, ◌/◌, ◌%◌, ◌^◌, min, max, length, ℕ, String, Bool, if◌then◌else◌, List, [], Option, none,
  some, Dict,
}
use barbacane.Chain.Errors.{WasmError, Result, err, missing_export}

abbrev pub Bytes : Type 0
Bytes = List ℕ

pub record RequestContext : Type 0 where
  pub values : Dict String
  pub last_get_result : Option String
  pub trace_id : String
  pub request_id : String

-- The limits that a call depends on (limits.rs).
pub record PluginLimits : Type 0 where
  pub max_fuel : ℕ
  pub max_execution_ms : ℕ

pub data Handler : Type 0 where
  on_request_handler on_response_handler dispatch_handler : Handler

-- What a call of an exported handler leaves: the guest's memory, the output buffer, the context,
-- the output body that the guest set or cleared, whether it took the request body by reading it, and a
-- return code or an error.
pub record Called (Guest : Type 0) : Type 0 where
  pub guest : Guest
  pub output : Bytes
  pub context : RequestContext
  pub output_body : Option (Option Bytes)
  pub took_body : Bool
  pub result : Result ℕ

-- A JSON document with the fields of `MiddlewareOutput`; an `i32` is given by its bits.
pub record MiddlewareOutput (Json : Type 0) : Type 0 where
  pub action : ℕ
  pub payload : Json

-- `Response` of the plugin SDK; serde skips the body.
pub record Response : Type 0 where
  pub status : ℕ
  pub headers : Dict String
  pub body : Option Bytes

-- wasmtime with the guest in it, serde_json, and the messages that thiserror derives.
pub record Runtime : Type 1 where
  pub Guest : Type 0
  pub Json : Type 0
  pub exports : Guest → Handler → Bool
  pub call_guest :
      Guest → Handler → (fuel deadline : ℕ) → RequestContext → Option Bytes → Bytes → Called Guest
  pub from_slice : Bytes → Option (MiddlewareOutput Json)
  pub to_vec : Json → Option Bytes
  pub serialize_error : Json → String
  pub display : WasmError → String
  pub response_from_slice : Bytes → Option Response
  pub response_error : Bytes → String
  pub response_to_vec : Response → Option Bytes

module _ (rt : Runtime) where
  open rt use {Guest, exports, call_guest}

  -- The part of `PluginInstance` and its `PluginState` that the chain can see.
  pub record PluginInstance : Type 0 where
    pub name : String
    pub guest : Guest
    pub limits : PluginLimits
    pub output_buffer : Bytes
    pub context : RequestContext
    pub request_body : Option Bytes
    pub output_body : Option (Option Bytes)

-- The fuel of a call grows with its payload.
abbrev pub fuel_for : PluginLimits → Bytes → ℕ
fuel_for limits payload = max limits.max_fuel (length payload * 100 % 2 ^ 64)

-- The wall-clock deadline grows by the same factor.
abbrev pub deadline_for : PluginLimits → ℕ → ℕ
deadline_for limits fuel =
    let fuel_ratio = max (fuel / max limits.max_fuel 1) 1 in
    min (max limits.max_execution_ms 1 * fuel_ratio) 18446744073709551615

-- A body that the guest set or cleared replaces one that was not taken.
abbrev or_kept : Option (Option Bytes) → Option (Option Bytes) → Option (Option Bytes)
or_kept none old = old
or_kept (some body) old = some body

module _ {rt : Runtime} where
  open rt use {Guest, exports, call_guest}

  unfoldable pub set_context : PluginInstance rt → RequestContext → PluginInstance rt
  set_context i context = record i { context = context }

  unfoldable pub get_context : PluginInstance rt → RequestContext
  get_context i = i.context

  -- `std::mem::take`
  unfoldable pub take_output : PluginInstance rt → Bytes × PluginInstance rt
  take_output i = (i.output_buffer, record i { output_buffer = [] })

  unfoldable pub set_request_body : PluginInstance rt → Option Bytes → PluginInstance rt
  set_request_body i body = record i { request_body = body }

  unfoldable pub take_output_body : PluginInstance rt → Option (Option Bytes) × PluginInstance rt
  take_output_body i = (i.output_body, record i { output_body = none })

  -- The output buffer is cleared, and the guest runs with its fuel and deadline. That the fuel could
  -- not be set is only logged.
  unfoldable pub call_handler : PluginInstance rt → Handler → Bytes → Result ℕ × PluginInstance rt
  call_handler i handler payload =
      let fuel = fuel_for i.limits payload in
      let c =
        call_guest i.guest handler fuel (deadline_for i.limits fuel) i.context i.request_body
          payload in
      (
        c.result,
        record i {
          guest = c.guest;
          output_buffer = c.output;
          context = c.context;
          request_body = if c.took_body then none else i.request_body;
          output_body = or_kept c.output_body i.output_body;
        },
      )

  unfoldable pub on_request : PluginInstance rt → Bytes → Result ℕ × PluginInstance rt
  unfolding call_handler
  on_request i request_json =
      if exports i.guest on_request_handler
      then call_handler i on_request_handler request_json
      else (err (missing_export "on_request"), i)

  unfoldable pub on_response : PluginInstance rt → Bytes → Result ℕ × PluginInstance rt
  unfolding call_handler
  on_response i response_json =
      if exports i.guest on_response_handler
      then call_handler i on_response_handler response_json
      else (err (missing_export "on_response"), i)
