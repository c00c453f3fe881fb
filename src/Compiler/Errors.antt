-- ===== src/Compiler/Errors.antt =====
-- crates/barbacane-compiler/src/error.rs, and the texts of messages.
use Prim.Native.Nat.{◌/◌, ◌%◌}
use Prim.Native.String.{[], ◌∷◌, ◌++◌ as text_append, char_at}
use barbacane.Common.{◌≡◌, refl, ℕ, zero, suc, String, List, [], ◌∷◌, ltb, if◌then◌else◌}
use barbacane.Compiler.Refs.{ParseError}

-- The errors of the standard library and of serde are given by their messages.
pub data CompileError : Type 0 where
  parse : ParseError → CompileError
  routing_conflict missing_dispatch plaintext_upstream undeclared_plugin missing_middleware_name :
      String → CompileError
  ambiguous_route schema_too_deep schema_too_complex invalid_path_template : String → CompileError
  duplicate_operation_id : String → String → CompileError
  manifest_error plugin_resolution io json signing : String → CompileError

-- `format!`: the pieces one after the other.
abbrev pub format : List String → String
format [] = []
format (s ∷ ss) = text_append s (format ss)

abbrev digit : ℕ → String
digit n = char_at "0123456789" n ∷ []

decimal_in : ℕ → ℕ → String
decimal_in zero n = []
decimal_in (suc fuel) n =
    let before = decimal_in fuel (n / 10) in
    if ltb n 10 then digit n else text_append before (digit (n % 10))

-- A number has at most as many digits as its value, and one more for zero.
unfoldable pub decimal : ℕ → String
unfolding decimal_in
decimal n = decimal_in (suc n) n

decimal_example : decimal 1207 ≡ "1207"
unfolding decimal decimal_in
decimal_example = refl
