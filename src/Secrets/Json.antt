-- ===== src/Secrets/Json.antt =====
-- Secret references in a JSON value (crates/barbacane-wasm/src/secrets.rs).
pub use barbacane.Common.Json.{
  Value, null, bool, number, string, array, object, Values, no_value, value, Fields, no_field,
  field, starts_with,
}
unfoldable pub use barbacane.Common.Json.{strip_prefix}
use barbacane.Common.{String, Bool, ◌||◌, if◌then◌else◌, List, [], ◌∷◌, ◌++◌}

unfoldable pub is_secret_reference : String → Bool
is_secret_reference s =
    starts_with "env://" s
    || starts_with "file://" s
    || starts_with "vault://" s
    || starts_with "aws-sm://" s
    || starts_with "k8s://" s

-- The references of a value, in the order in which the recursion pushes them.
unfoldable mutual
  pub collect_secret_references : Value → List String
  collect_secret_references null = []
  collect_secret_references (bool b) = []
  collect_secret_references (number n) = []
  collect_secret_references (string s) = if is_secret_reference s then s ∷ [] else []
  collect_secret_references (array vs) = collect_values vs
  collect_secret_references (object fs) = collect_fields fs

  pub collect_values : Values → List String
  collect_values no_value = []
  collect_values (value v vs) = collect_secret_references v ++ collect_values vs

  pub collect_fields : Fields → List String
  collect_fields no_field = []
  collect_fields (field k v fs) = collect_secret_references v ++ collect_fields fs
