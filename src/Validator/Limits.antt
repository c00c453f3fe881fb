-- ===== src/Validator/Limits.antt =====
-- crates/barbacane/src/validator.rs: errors and `RequestLimits`.
use Prim.Native.String.{len}
use barbacane.Common.{
  ℕ, ◌+◌, ◌*◌, String, ltb, if◌then◌else◌, List, [], ◌∷◌, ◌++◌, Dict, length, is_empty,
}
use barbacane.Common.Results.{Result, ok, err}

pub data ValidationError2 : Type 0 where
  missing_required_parameter : String → String → ValidationError2
  invalid_parameter : String → String → String → ValidationError2
  missing_required_body : ValidationError2
  unsupported_content_type invalid_body : String → ValidationError2
  body_too_large too_many_headers uri_too_long : ℕ → ℕ → ValidationError2
  header_too_large : String → ℕ → ℕ → ValidationError2

pub record RequestLimits : Type 0 where
  pub max_body_size : ℕ
  pub max_headers : ℕ
  pub max_header_size : ℕ
  pub max_uri_length : ℕ

abbrev pub default_limits : RequestLimits
default_limits = record {
  max_body_size = 1024 * 1024;
  max_headers = 100;
  max_header_size = 8 * 1024;
  max_uri_length = 8 * 1024;
}

abbrev pub Checked : Type 0
Checked = Result Unit ValidationError2

abbrev pub check_each : Checked → Checked → Checked
check_each (err e) other = err e
check_each (ok u) other = other

abbrev pub push_error : Checked → List ValidationError2 → List ValidationError2
push_error (ok u) errors = errors
push_error (err e) errors = errors ++ e ∷ []

abbrev pub result_of : List ValidationError2 → Result Unit (List ValidationError2)
result_of errors = if is_empty errors then ok tt else err errors

module _ (limits : RequestLimits) where
  open limits use {max_body_size, max_headers, max_header_size, max_uri_length}

  abbrev pub validate_uri : String → Checked
  validate_uri uri =
      if ltb max_uri_length (len uri) then err (uri_too_long (len uri) max_uri_length) else ok tt

  abbrev pub validate_header_count : ℕ → Checked
  validate_header_count count =
      if ltb max_headers count then err (too_many_headers count max_headers) else ok tt

  abbrev pub validate_header_size : String → ℕ → Checked
  validate_header_size name size =
      if ltb max_header_size size then err (header_too_large name size max_header_size) else ok tt

  -- The loop of `validate_headers`.
  abbrev pub validate_sizes : Dict String → Checked
  validate_sizes [] = ok tt
  validate_sizes ((name, value) ∷ headers) =
      check_each (validate_header_size name (len name + len value)) (validate_sizes headers)

  abbrev pub validate_headers : Dict String → Checked
  validate_headers headers =
      check_each (validate_header_count (length headers)) (validate_sizes headers)

  abbrev pub validate_body_size : ℕ → Checked
  validate_body_size body_len =
      if ltb max_body_size body_len then err (body_too_large body_len max_body_size) else ok tt

  unfoldable pub validate_all : String → Dict String → ℕ → Result Unit (List ValidationError2)
  validate_all uri headers body_len = result_of (
      push_error (validate_body_size body_len)
        (push_error (validate_headers headers) (push_error (validate_uri uri) [])))
