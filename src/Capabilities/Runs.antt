-- ===== src/Capabilities/Runs.antt =====
-- crates/barbacane-wasm/src/validate.rs: tests, and the theorem applied at a concrete input.
use Prim.Native.String.{[]}
use barbacane.Common.{String, ◌≡◌, ◌↔◌, refl, [], ◌∷◌, All}
use barbacane.Common.Results.{ok, err}
use barbacane.Chain.Errors.{undeclared_import}
use barbacane.Capabilities.{
  Module, Import, func, not_func, i32_type, Export, middleware, capability_to_imports,
  declared_imports, check_imports, validate_imports, validate_exports,
}
use barbacane.Capabilities.Imports.{IsAllowed, validate_imports-iff-IsAllowed}

abbrev host : String → Import
host name = record { module_name = "barbacane"; name = name }

abbrev handler : String → Export
handler name = record { name = name; ty = func (i32_type ∷ i32_type ∷ []) (i32_type ∷ []) }

abbrev plugin : Module
plugin = record {
  exports =
      handler "init"
      ∷ handler "on_request"
      ∷ handler "on_response"
      ∷ record { name = "memory"; ty = not_func }
      ∷ [];
  imports =
      host "host_log" ∷ host "host_body_read" ∷ record { module_name = "env"; name = "abort" } ∷ [];
}

exports_accepted : validate_exports (λ ty. "") plugin middleware ≡ ok tt
unfolding validate_exports
exports_accepted = refl

imports_accepted : validate_imports plugin ("log" ∷ []) ≡ ok tt
unfolding validate_imports check_imports declared_imports capability_to_imports
imports_accepted = refl

imports_refused : validate_imports plugin ("cache" ∷ []) ≡ err (undeclared_import "host_log")
unfolding validate_imports check_imports declared_imports capability_to_imports
imports_refused = refl

validate_imports-iff-IsAllowed_example :
    (validate_imports plugin ("log" ∷ []) ≡ ok tt) ↔ All (IsAllowed ("log" ∷ [])) plugin.imports
validate_imports-iff-IsAllowed_example = validate_imports-iff-IsAllowed plugin ("log" ∷ [])
