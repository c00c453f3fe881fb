-- ===== src/Mcp/Arguments.antt =====
-- crates/barbacane/src/mcp/tools.rs: the arguments of a tool as a path, a query and a body.
use Prim.Native.Char.{code}
use Prim.Native.Nat.{zero, suc}
use Prim.Native.String.{[], ◌∷◌, ◌++◌ as text_append, char_at}
use barbacane.Common.{
  ℕ, String, ◌-◌, ◌/◌, ◌%◌, Bool, true, false, ◌&&◌, ◌||◌, ◌==◌, leb, if◌then◌else◌, List, [], ◌∷◌,
  ◌++◌, Option, none, some, any, split, join, str_eq, contains, char_count, unwrap_or,
}
use barbacane.Common.Json.{Value, string, object, Fields, no_field, field, get_field, starts_with}
use barbacane.Common.Results.{Result, ok, err}
use barbacane.Compiler.Specs.{Parameter}
use barbacane.Compiler.Errors.{format}
use barbacane.Validator.Decode.{Utf8}

pub record McpTool : Type 0 where
  pub name : String
  pub description : String
  pub input_schema : Value
  pub output_schema : Option Value

pub record ToolEntry : Type 0 where
  pub tool : McpTool
  pub operation_index : ℕ
  pub method : String
  pub path : String
  pub parameters : List Parameter

-- `str::contains` and `str::replace` of a text that is not empty.
unfoldable pub contains_text : String → String → Bool
contains_text pattern [] = starts_with pattern []
contains_text pattern (c ∷ s) = starts_with pattern (c ∷ s) || contains_text pattern s

-- The replacement, after so many characters of an occurrence.
unfoldable pub replace_after : ℕ → String → String → String → String
replace_after skipped pattern to [] = []
replace_after (suc n) pattern to (c ∷ s) = replace_after n pattern to s
replace_after zero pattern to (c ∷ s) = elim (starts_with pattern (c ∷ s)) [
  | true ↦ text_append to (replace_after (char_count pattern - 1) pattern to s)
  | false ↦ c ∷ replace_after zero pattern to s
]

abbrev pub replace : String → String → String → String
replace pattern to s = replace_after zero pattern to s

-- Whether a character with the code is in the text.
unfoldable pub has_code : (ℕ → Bool) → String → Bool
has_code p [] = false
has_code p (c ∷ s) = p (code c) || has_code p s

-- `char::is_control`, by code.
abbrev pub is_control : ℕ → Bool
is_control k = leb k 31 || (leb 127 k && leb k 159)

abbrev pub is_disallowed : ℕ → Bool
is_disallowed k = k == b'?' || k == b'#' || k == b'\\'

abbrev pub is_slash : ℕ → Bool
is_slash k = k == b'/'

abbrev pub hex : String
hex = "0123456789ABCDEF"

abbrev pub upper_letters : String
upper_letters = "ABCDEFGHIJKLMNOPQRSTUVWXYZ"

abbrev lower_letters : String
lower_letters = "abcdefghijklmnopqrstuvwxyz"

-- The bytes that stay, as the texts of one character; a byte that does not is none.
abbrev pub unreserved : ℕ → Option String
unreserved b =
    if leb b'A' b && leb b b'Z'
    then some (char_at upper_letters (b - b'A') ∷ [])
    else if leb b'a' b && leb b b'z'
    then some (char_at lower_letters (b - b'a') ∷ [])
    else if leb b'0' b && leb b b'9'
    then some (char_at hex (b - b'0') ∷ [])
    else if b == b'-'
    then some "-"
    else if b == b'_'
    then some "_"
    else if b == b'.'
    then some "."
    else if b == b'~'
    then some "~"
    else none

abbrev pub encode_byte : ℕ → String
encode_byte b =
    unwrap_or (unreserved b) (text_append "%" (char_at hex (b / 16) ∷ char_at hex (b % 16) ∷ []))

unfoldable pub encode_bytes : List ℕ → String
encode_bytes [] = []
encode_bytes (b ∷ bytes) = text_append (encode_byte b) (encode_bytes bytes)

abbrev pub is_dot_dot : String → Bool
is_dot_dot segment = str_eq segment ".."

-- serde_json's writing of a value and of the map that is left.
pub record Writer : Type 0 where
  pub to_string : Value → String
  pub to_vec : Fields → Option (List ℕ)

abbrev pub as_text : Writer → Value → String
as_text writer (string s) = s
as_text writer other = writer.to_string other

abbrev pub remaining : List String → Fields → Fields
remaining consumed_keys no_field = no_field
remaining consumed_keys (field k v fs) =
    let rest = remaining consumed_keys fs in
    if contains k consumed_keys then rest else field k v rest

abbrev pub body_of : Writer → Fields → Option (List ℕ)
body_of writer no_field = none
body_of writer (field k v fs) = writer.to_vec (field k v fs)

abbrev pub query_of : List String → Option String
query_of [] = none
query_of (part ∷ parts) = some (join "&" (part ∷ parts))

-- The loop's state: the path, the parts of the query and the keys that are consumed.
pub record Substituted : Type 0 where
  pub path : String
  pub query_parts : List String
  pub consumed_keys : List String

pub record Decomposed : Type 0 where
  pub path : String
  pub query : Option String
  pub body : Option (List ℕ)

abbrev pub placeholder : String → Bool → String
placeholder name true = format ("{" ∷ name ∷ "+}" ∷ [])
placeholder name false = format ("{" ∷ name ∷ "}" ∷ [])

module _ (utf8 : Utf8) where
  unfoldable pub percent_encode : String → String
  percent_encode s = encode_bytes (utf8.as_bytes s)

  unfoldable pub sanitize_path_param : String → String → Bool → Result String String
  sanitize_path_param name value is_wildcard =
      if has_code is_control value
      then err (format ("path parameter '" ∷ name ∷ "' contains control characters" ∷ []))
      else if has_code is_disallowed value
      then err (
          format
            ("path parameter '" ∷ name ∷ "' contains a disallowed character (?, #, or \\)" ∷ []))
      else if is_wildcard
      then (if any is_dot_dot (split b'/' value)
          then err (format ("path parameter '" ∷ name ∷ "' contains a '..' path segment" ∷ []))
          else ok value)
      else if has_code is_slash value
      then err (format ("path parameter '" ∷ name ∷ "' must not contain '/'" ∷ []))
      else if str_eq value ".." || str_eq value "."
      then err (format ("path parameter '" ∷ name ∷ "' must not be '.' or '..'" ∷ []))
      else ok (percent_encode value)

  abbrev pub put_path :
      Substituted → String → Bool → Result String String → Result Substituted String
  put_path st name is_wildcard (err e) = err e
  put_path st name is_wildcard (ok substituted) = ok (record st {
    path = replace (placeholder name is_wildcard) substituted st.path;
    consumed_keys = name ∷ st.consumed_keys;
  })

  abbrev pub path_param : Writer → Substituted → String → Option Value → Result Substituted String
  path_param writer st name none = ok st
  path_param writer st name (some val) =
      let is_wildcard = contains_text (placeholder name true) st.path in
      put_path st name is_wildcard (sanitize_path_param name (as_text writer val) is_wildcard)

  abbrev pub query_param : Writer → Substituted → String → Option Value → Substituted
  query_param writer st name none = st
  query_param writer st name (some val) = record st {
    query_parts =
        st.query_parts
        ++ (format (percent_encode name ∷ "=" ∷ percent_encode (as_text writer val) ∷ []) ∷ []);
    consumed_keys = name ∷ st.consumed_keys;
  }

  abbrev pub substitute_param :
      Writer → Fields → Substituted → Parameter → Result Substituted String
  substitute_param writer args st param =
      if str_eq param.location "path"
      then path_param writer st param.name (get_field param.name args)
      else if str_eq param.location "query"
      then ok (query_param writer st param.name (get_field param.name args))
      else ok st

  unfoldable pub substitute_params :
      Writer → Fields → List Parameter → Result Substituted String → Result Substituted String
  substitute_params writer args params (err e) = err e
  substitute_params writer args [] (ok st) = ok st
  substitute_params writer args (param ∷ params) (ok st) =
      substitute_params writer args params (substitute_param writer args st param)

  abbrev pub decomposed : Writer → Fields → Result Substituted String → Result Decomposed String
  decomposed writer args (err e) = err e
  decomposed writer args (ok st) = ok (record {
    path = st.path;
    query = query_of st.query_parts;
    body = body_of writer (remaining st.consumed_keys args);
  })

  abbrev pub object_fields : Value → Fields
  object_fields (object fs) = fs
  object_fields _ = no_field

  unfoldable pub decompose_arguments : Writer → ToolEntry → Value → Result Decomposed String
  decompose_arguments writer entry arguments = decomposed writer (object_fields arguments) (
      substitute_params writer (object_fields arguments) entry.parameters
        (ok (record { path = entry.path; query_parts = []; consumed_keys = [] })))
