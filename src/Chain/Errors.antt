-- ===== src/Chain/Errors.antt =====
-- crates/barbacane-wasm/src/error.rs and trap.rs: the errors of the WASM runtime, and what becomes of
-- an error in each phase of a request.
use barbacane.Common.{ℕ, String, Bool, true, false, if◌then◌else◌}

-- An `std::io::Error` is given by its message.
pub data WasmError : Type 0 where
  engine_creation compilation instantiation trap : String → WasmError
  timeout : ℕ → WasmError
  memory_limit_exceeded : (requested limit : ℕ) → WasmError
  missing_export : String → WasmError
  invalid_export_signature : (name expected actual : String) → WasmError
  undeclared_import unknown_capability manifest_parse manifest_validation : String → WasmError
  schema_parse config_validation init_failed : String → WasmError
  invalid_return_code : ℕ → WasmError
  serialization io : String → WasmError

pub data Result (A : Type 0) : Type 0 where
  ok : A → Result A
  err : WasmError → Result A

pub data TrapContext : Type 0 where
  init on_request on_response dispatch : TrapContext

abbrev pub is_fault_tolerant : TrapContext → Bool
is_fault_tolerant on_response = true
is_fault_tolerant _ = false

pub data TrapResult : Type 0 where
  fatal : String → TrapContext → TrapResult
  fault_tolerant : String → TrapResult

-- `TrapResult::from_error`, from the error's message.
abbrev pub from_error : String → TrapContext → TrapResult
from_error message context =
    if is_fault_tolerant context then fault_tolerant message else fatal message context

abbrev pub is_fatal : TrapResult → Bool
is_fatal (fatal message context) = true
is_fatal (fault_tolerant message) = false

abbrev pub message : TrapResult → String
message (fatal m context) = m
message (fault_tolerant m) = m
