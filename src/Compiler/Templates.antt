-- ===== src/Compiler/Templates.antt =====
-- crates/barbacane-compiler/src/artifact.rs: the syntax and the normal form of path templates.
use Prim.Native.Char.{Char, code}
use Prim.Native.String.{[], ◌∷◌, ◌++◌ as text_append}
use barbacane.Common.{
  ℕ, ◌+◌, ◌-◌, String, Bool, true, false, not, ◌&&◌, ◌==◌, if◌then◌else◌, List, [], ◌∷◌, contains,
  drop_last, ends_with_char, retain, split, str_empty, str_eq,
}
use barbacane.Common.Results.{Result, ok, err}
use barbacane.Compiler.Errors.{CompileError, invalid_path_template, format}

-- The variables of the loop in `validate_path_template`.
pub record Scan : Type 0 where
  pub seen_params : List String
  pub brace_depth : ℕ
  pub current_param : String
  pub in_param : Bool
  pub has_wildcard : Bool

abbrev pub start : Scan
start = record {
  seen_params = [];
  brace_depth = 0;
  current_param = [];
  in_param = false;
  has_wildcard = false;
}

abbrev last_of : String → List String → String
last_of last [] = last
last_of last (s ∷ ss) = last_of s ss

-- `segments.last().copied().unwrap_or("")`, where the empty segments are left out.
abbrev pub last_segment : String → String
last_segment path = last_of "" (retain (λ s. not (str_empty s)) (split b'/' path))

abbrev pub refuse : {A : Type 0} → String → String → Result A CompileError
refuse location what = err (invalid_path_template (format (location ∷ what ∷ [])))

abbrev pub open_brace : String → Scan → Result Scan CompileError
open_brace location s =
    if s.in_param
    then refuse location " - nested braces not allowed"
    else ok (record s { brace_depth = s.brace_depth + 1; in_param = true })

abbrev pub base_name : String → String
base_name param = if ends_with_char b'+' param then drop_last param else param

-- The parameter that ends at a closing brace, once its name and its wildcard are accepted.
abbrev pub add_param : String → Scan → Result Scan CompileError
add_param location s =
    if contains (base_name s.current_param) s.seen_params
    then refuse location
        (format (" - duplicate parameter '" ∷ base_name s.current_param ∷ "'" ∷ []))
    else ok (record s {
      brace_depth = s.brace_depth - 1;
      in_param = false;
      seen_params = base_name s.current_param ∷ s.seen_params;
      current_param = [];
    })

abbrev pub check_wildcard : String → String → Scan → Result Scan CompileError
check_wildcard last location s =
    if ends_with_char b'+' s.current_param
    then (if s.has_wildcard
        then refuse location " - at most one wildcard parameter ({name+}) allowed per path"
        else if not (str_eq last (format ("{" ∷ s.current_param ∷ "}" ∷ [])))
        then refuse location (
            format (
              " - wildcard parameter '{" ∷ s.current_param ∷ "}' must be the last path segment"
              ∷ []))
        else add_param location (record s { has_wildcard = true }))
    else add_param location s

abbrev pub close_brace : String → String → Scan → Result Scan CompileError
close_brace last location s =
    if not s.in_param
    then refuse location " - unmatched closing brace"
    else if str_empty (base_name s.current_param)
    then refuse location " - empty parameter name"
    else check_wildcard last location s

abbrev push : Scan → Char → Scan
push s ch = record s { current_param = text_append s.current_param (ch ∷ []) }

-- `char::is_alphanumeric` is Unicode's table.
module _ (is_alphanumeric : Char → Bool) where
  abbrev pub name_char : String → Scan → Char → Result Scan CompileError
  name_char location s ch =
      if code ch == b'+'
      then ok (push s ch)
      else if not (is_alphanumeric ch) && not (code ch == b'_')
      then refuse location
          (format (" - invalid character '" ∷ (ch ∷ []) ∷ "' in parameter name" ∷ []))
      else if ends_with_char b'+' s.current_param
      then refuse location
          " - '+' is only allowed as the last character of a wildcard parameter name (e.g. {key+})"
      else ok (push s ch)

  abbrev pub scan_char : String → String → Scan → Char → Result Scan CompileError
  scan_char last location s ch =
      if code ch == b'{'
      then open_brace location s
      else if code ch == b'}'
      then close_brace last location s
      else if s.in_param
      then name_char location s ch
      else ok s

  abbrev pub scan_on :
      (Scan → Result Scan CompileError) → Result Scan CompileError → Result Scan CompileError
  scan_on go (err e) = err e
  scan_on go (ok s) = go s

  unfoldable pub scan : String → String → String → Scan → Result Scan CompileError
  scan last location [] s = ok s
  scan last location (ch ∷ rest) s =
      scan_on (scan last location rest) (scan_char last location s ch)

  abbrev pub conclude : String → Result Scan CompileError → Result Unit CompileError
  conclude location (err e) = err e
  conclude location (ok s) =
      if not (s.brace_depth == 0) then refuse location " - unclosed brace" else ok tt

  unfoldable pub validate_path_template : String → String → Result Unit CompileError
  validate_path_template path location =
      conclude location (scan (last_segment path) location path start)

-- The loop of `normalize_path_template`; what it pushes is the head of the result.
unfoldable pub normalize_in : Bool → Bool → String → String
normalize_in in_param is_wildcard [] = []
normalize_in in_param is_wildcard (ch ∷ s) =
    let opened = normalize_in true false s in
    let closed = normalize_in false false s in
    let marked = normalize_in in_param true s in
    let rest = normalize_in in_param is_wildcard s in
    if code ch == b'{'
    then "{" ∷ ("_" ∷ opened)
    else if code ch == b'}'
    then (if is_wildcard then "+" ∷ ("}" ∷ closed) else "}" ∷ closed)
    else if code ch == b'+' && in_param
    then marked
    else if in_param
    then rest
    else ch ∷ rest

unfoldable pub normalize_path_template : String → String
normalize_path_template path = normalize_in false false path
