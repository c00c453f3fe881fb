-- ===== src/Secrets/Runs.antt =====
-- Runs of the resolution of secrets.
use barbacane.Common.{
  ◌≡◌, refl, true, if◌then◌else◌, [], ◌∷◌, none, some, All, str_eq, trim, sort, split, insert,
}
use barbacane.Secrets.Json.{
  Value, string, bool, array, no_value, value, object, field, no_field, strip_prefix,
  is_secret_reference, collect_secret_references,
}
use barbacane.Secrets.Store.{SecretsStore, resolve_config_secrets}
use barbacane.Secrets.Resolve.{
  Result, ok, err, IoError, not_found, Host, resolve_secret, resolve_file, confine_secret_path,
  resolve_all_secrets, flat_collect,
}
use barbacane.Secrets.Resolve
use barbacane.Secrets.Confinement.{IsReadFrom, resolve_secret-IsReadFrom}
use barbacane.Secrets.Substitute.{IsReplaced}
use barbacane.Secrets.Complete.{resolve_all_secrets-IsReplaced}

abbrev host : Host
host = record {
  env_var = λ name.
      if str_eq name "K"
      then some "key"
      else if str_eq name "BARBACANE_SECRETS_DIR"
      then some "/s"
      else none;
  canonicalize = λ path.
      if str_eq path "/x"
      then ok "/etc/x"
      else if str_eq path "/s/b/../a"
      then ok "/s/a"
      else if str_eq path "/s/../x"
      then ok "/x"
      else ok path;
  read_to_string = λ path. ok " pw ";
  io_message = λ e. "";
}

abbrev shared : SecretsStore
shared = record { secrets = ("env://K", "key") ∷ ("env://L", "other") ∷ [] }

escape_example :
    resolve_secret host "file:///x"
    ≡ err (Resolve.file_read_error "secret path '/x' escapes BARBACANE_SECRETS_DIR")
unfolding resolve_secret resolve_file confine_secret_path strip_prefix split
escape_example = refl

climb_example :
    resolve_secret host "file://../x"
    ≡ err (Resolve.file_read_error "secret path '../x' escapes BARBACANE_SECRETS_DIR")
unfolding resolve_secret resolve_file confine_secret_path strip_prefix split
climb_example = refl

resolve_secret-IsReadFrom_example : IsReadFrom host "b/../a" "pw"
unfolding resolve_secret resolve_file confine_secret_path strip_prefix split trim
resolve_secret-IsReadFrom_example =
    resolve_secret-IsReadFrom host "file://b/../a" "b/../a" "pw" refl refl refl

abbrev config : Value
config =
    object (field "auth" (array (value (string "env://K") (value (bool true) no_value))) no_field)

abbrev resolved : SecretsStore
resolved = record { secrets = ("env://K", "key") ∷ [] }

resolve_all_secrets-IsReplaced_example :
    All
      (λ c.
        IsReplaced
          (λ reference v. resolve_secret host reference ≡ ok v)
          c
          (resolve_config_secrets c resolved))
      (config ∷ [])
unfolding resolve_all_secrets resolve_secret strip_prefix is_secret_reference
    collect_secret_references sort insert
resolve_all_secrets-IsReplaced_example =
    resolve_all_secrets-IsReplaced host (config ∷ []) resolved refl
