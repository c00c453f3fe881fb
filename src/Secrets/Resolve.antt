-- ===== src/Secrets/Resolve.antt =====
-- crates/barbacane-wasm/src/secrets.rs: resolving references from the environment and from files.
use Prim.Native.String.{[], ◌∷◌, ◌++◌ as text_append}
use barbacane.Common.{
  String, Bool, true, false, not, ◌&&◌, if◌then◌else◌, List, [], ◌∷◌, ◌++◌, Option, none, some,
  is_empty, retain, split, str_empty, str_eq, trim, starts_with_char, Dict, insert, sort,
}
pub use barbacane.Common.Results.{Result, ok, err}
use barbacane.Secrets.Json.{Value, strip_prefix, starts_with, collect_secret_references}
use barbacane.Secrets.Store.{SecretsStore}

pub data SecretsError : Type 0 where
  env_not_found file_not_found file_read_error unsupported_scheme invalid_reference :
      String → SecretsError

-- An `io::Error` of kind NotFound, or another with its message.
pub data IoError : Type 0 where
  not_found : IoError
  other : String → IoError

-- The process's environment and file system. A path is its text.
pub record Host : Type 0 where
  pub env_var : String → Option String
  pub canonicalize : String → Result String IoError
  pub read_to_string : String → Result String IoError
  pub io_message : IoError → String

abbrev components : String → List String
components path = retain (λ s. not (str_empty s)) (split b'/' path)

abbrev is_prefix : List String → List String → Bool
is_prefix [] ys = true
is_prefix (x ∷ xs) [] = false
is_prefix (x ∷ xs) (y ∷ ys) = str_eq x y && is_prefix xs ys

-- `Path::starts_with` on canonical paths: whole components.
abbrev pub path_starts_with : String → String → Bool
path_starts_with path base = is_prefix (components base) (components path)

-- `base.join(requested)`, unless the path is absolute.
abbrev pub join_unless_absolute : String → String → String
join_unless_absolute base path =
    if starts_with_char b'/' path then path else text_append base (text_append "/" path)

module _ (h : Host) where
  open h use {env_var, canonicalize, read_to_string, io_message}

  -- The message names the path, which is `path` as it was given.
  abbrev pub file_error : String → IoError → SecretsError
  file_error path not_found = file_not_found path
  file_error path (other m) =
      file_read_error (text_append path (text_append ": " (io_message (other m))))

  abbrev pub check_inside : String → String → Result String IoError → Result String SecretsError
  check_inside path base (err e) = err (file_error path e)
  check_inside path base (ok canonical) =
      if path_starts_with canonical base
      then ok canonical
      else err (
          file_read_error
            (text_append "secret path '" (text_append path "' escapes BARBACANE_SECRETS_DIR")))

  abbrev pub confine_to : String → Result String IoError → Result String SecretsError
  confine_to path (err e) =
      err (file_read_error (text_append "invalid BARBACANE_SECRETS_DIR: " (io_message e)))
  confine_to path (ok base) = check_inside path base (canonicalize (join_unless_absolute base path))

  abbrev pub confine_in : String → Option String → Result String SecretsError
  confine_in path none =
      err (file_read_error "file:// secret references require BARBACANE_SECRETS_DIR to be set")
  confine_in path (some base) = confine_to path (canonicalize base)

  unfoldable pub confine_secret_path : String → Result String SecretsError
  confine_secret_path path = confine_in path (env_var "BARBACANE_SECRETS_DIR")

  abbrev pub trimmed : String → Result String IoError → Result String SecretsError
  trimmed path (err e) = err (file_error path e)
  trimmed path (ok s) = ok (trim s)

  abbrev pub read_secret : String → Result String SecretsError → Result String SecretsError
  read_secret path (err e) = err e
  read_secret path (ok resolved) = trimmed path (read_to_string resolved)

  unfoldable pub resolve_file : String → Result String SecretsError
  resolve_file path = read_secret path (confine_secret_path path)

  abbrev pub found_env : String → Option String → Result String SecretsError
  found_env var_name none = err (env_not_found var_name)
  found_env var_name (some s) = ok s

  -- `reference.split("://").next()`
  scheme_of : String → String
  scheme_of [] = []
  scheme_of (c ∷ s) = let rest = scheme_of s in if starts_with "://" (c ∷ s) then [] else c ∷ rest

  pub resolve_unsupported : String → Result String SecretsError
  unfolding scheme_of
  resolve_unsupported reference =
      if starts_with "vault://" reference
      then err (unsupported_scheme (scheme_of reference))
      else if starts_with "aws-sm://" reference
      then err (unsupported_scheme (scheme_of reference))
      else if starts_with "k8s://" reference
      then err (unsupported_scheme (scheme_of reference))
      else err (invalid_reference reference)

  abbrev pub resolve_by : String → Option String → Option String → Result String SecretsError
  resolve_by reference (some var_name) file = found_env var_name (env_var var_name)
  resolve_by reference none (some path) = resolve_file path
  resolve_by reference none none = resolve_unsupported reference

  unfoldable pub resolve_secret : String → Result String SecretsError
  unfolding resolve_file
  resolve_secret reference =
      resolve_by reference (strip_prefix "env://" reference) (strip_prefix "file://" reference)

-- `Vec::dedup` behind an element.
abbrev pub dedup_after : String → List String → List String
dedup_after x [] = []
dedup_after x (y ∷ ys) = if str_eq x y then dedup_after x ys else y ∷ dedup_after y ys

abbrev pub dedup : List String → List String
dedup [] = []
dedup (x ∷ xs) = x ∷ dedup_after x xs

-- The maps `resolved` and `errors` after one reference.
abbrev pub record_result :
    String
    → Result String SecretsError
    → Dict String × List SecretsError
    → Dict String × List SecretsError
record_result reference (ok value) (resolved, errors) = (insert reference value resolved, errors)
record_result reference (err e) (resolved, errors) = (resolved, errors ++ e ∷ [])

abbrev pub flat_collect : List Value → List String
flat_collect [] = []
flat_collect (c ∷ cs) = collect_secret_references c ++ flat_collect cs

abbrev pub collected : Dict String × List SecretsError → Result SecretsStore (List SecretsError)
collected (resolved, errors) =
    if is_empty errors then ok (record { secrets = resolved }) else err errors

module _ (h : Host) where
  abbrev pub resolve_loop :
      List String → Dict String × List SecretsError → Dict String × List SecretsError
  resolve_loop [] done = done
  resolve_loop (reference ∷ rest) done =
      resolve_loop rest (record_result reference (resolve_secret h reference) done)

  unfoldable pub resolve_all_secrets : List Value → Result SecretsStore (List SecretsError)
  resolve_all_secrets configs =
      collected (resolve_loop (dedup (sort (flat_collect configs))) ([], []))
