-- ===== src/Secrets/Store.antt =====
-- crates/barbacane-wasm/src/secrets.rs: the store of resolved secrets, and configurations with them.
use barbacane.Common.{
  String, ◌≡◌, Bool, if◌then◌else◌, List, Option, none, unwrap_or, Dict, lookup, retain, contains,
  HasUniqueKeys, lookup-retain, arith,
}
use barbacane.Secrets.Json.{
  Value, null, bool, number, string, array, object, Values, no_value, value, Fields, no_field,
  field, is_secret_reference,
}

pub record SecretsStore : Type 0 where
  pub secrets : Dict String

unfoldable pub get : SecretsStore → String → Option String
get store reference = lookup reference store.secrets

abbrev pub is_allowed : List String → String × String → Bool
is_allowed allowed (k, v) = contains k allowed

unfoldable pub scoped : SecretsStore → List String → SecretsStore
scoped store allowed = record { secrets = retain (is_allowed allowed) store.secrets }

-- A plugin's scoped store has exactly those secrets of the shared store, which holds no reference
-- twice, that the plugin declares.
pub get-scoped :
    (store : SecretsStore) (allowed : List String) (reference : String)
    → HasUniqueKeys store.secrets
    → get (scoped store allowed) reference
      ≡ (if contains reference allowed then get store reference else none)
unfolding get scoped
get-scoped store allowed reference u =
    ground (arith, lookup-retain (is_allowed allowed) reference store.secrets u)

-- A reference that is not resolved stays.
abbrev pub resolve_string : SecretsStore → String → String
resolve_string store s = if is_secret_reference s then unwrap_or (get store s) s else s

unfoldable mutual
  pub resolve_config_secrets : Value → SecretsStore → Value
  resolve_config_secrets null store = null
  resolve_config_secrets (bool b) store = bool b
  resolve_config_secrets (number n) store = number n
  resolve_config_secrets (string s) store = string (resolve_string store s)
  resolve_config_secrets (array vs) store = array (resolve_values vs store)
  resolve_config_secrets (object fs) store = object (resolve_fields fs store)

  pub resolve_values : Values → SecretsStore → Values
  resolve_values no_value store = no_value
  resolve_values (value v vs) store =
      value (resolve_config_secrets v store) (resolve_values vs store)

  pub resolve_fields : Fields → SecretsStore → Fields
  resolve_fields no_field store = no_field
  resolve_fields (field k v fs) store =
      field k (resolve_config_secrets v store) (resolve_fields fs store)
