-- ===== src/Secrets/Substitute.antt =====
-- crates/barbacane-wasm/src/secrets.rs: what a configuration becomes once its references have values.
use barbacane.Common.{
  String, ◌≡◌, ◌∙◌, true, false, if◌then◌else◌, List, [], ◌∷◌, ◌++◌, some, Bool, All, contains,
  contains-append, str_eq_refl, Bool-cases, inl, inr, arith,
}
use barbacane.Secrets.Json.{
  Value, null, bool, number, string, array, object, Values, no_value, value, Fields, no_field,
  field, is_secret_reference, collect_secret_references, collect_values, collect_fields,
}
use barbacane.Secrets.Store.{
  SecretsStore, get, resolve_string, resolve_config_secrets, resolve_values, resolve_fields,
}
use barbacane.Secrets.Resolve.{flat_collect}

-- A configuration and what it is to become: each text that is a reference has resolved, and its value
-- is there instead, at any depth; nothing else is changed.
module _ (Resolves : String → String → Type 0) where
  mutual
    pub data IsReplaced : Value → Value → Type 0 where
      null_kept : IsReplaced null null
      bool_kept : (b : Bool) → IsReplaced (bool b) (bool b)
      number_kept : (n : String) → IsReplaced (number n) (number n)
      plain_text : (s : String) → is_secret_reference s ≡ false → IsReplaced (string s) (string s)
      reference :
          (s v : String)
          → is_secret_reference s ≡ true
          → Resolves s v
          → IsReplaced (string s) (string v)
      in_array : (vs ws : Values) → AreReplaced vs ws → IsReplaced (array vs) (array ws)
      in_object : (fs gs : Fields) → FieldsReplaced fs gs → IsReplaced (object fs) (object gs)

    pub data AreReplaced : Values → Values → Type 0 where
      no_value_kept : AreReplaced no_value no_value
      value_and :
          (v w : Value) (vs ws : Values)
          → IsReplaced v w
          → AreReplaced vs ws
          → AreReplaced (value v vs) (value w ws)

    pub data FieldsReplaced : Fields → Fields → Type 0 where
      no_field_kept : FieldsReplaced no_field no_field
      field_and :
          (k : String) (v w : Value) (fs gs : Fields)
          → IsReplaced v w
          → FieldsReplaced fs gs
          → FieldsReplaced (field k v fs) (field k w gs)

module _ (store : SecretsStore) (Resolves : String → String → Type 0) where
  -- The store has a value of every one of these references, which is what it resolves to.
  abbrev pub Holds : List String → Type 0
  Holds refs =
      (k : String) → contains k refs ≡ true → (v : String) × Resolves k v × (get store k ≡ some v)

  Holds-left : (xs ys : List String) → Holds (xs ++ ys) → Holds xs
  Holds-left xs ys h k c = h k (contains-append k xs ys ∙ rw c)

  Holds-right : (xs ys : List String) → Holds (xs ++ ys) → Holds ys
  Holds-right xs ys h k c = h k (contains-append k xs ys ∙ ground arith)

  resolve_string-IsReplaced :
      (s : String)
      → Holds (if is_secret_reference s then s ∷ [] else [])
      → IsReplaced Resolves (string s) (string (resolve_string store s))
  resolve_string-IsReplaced s h = elim (Bool-cases (is_secret_reference s)) [
    | inl e ↦
        let (v, resolves, held) = h s (rw (e, str_eq_refl s)) in
        let put : resolve_string store s ≡ v = rw (e, held) in rw put (reference s v e resolves)
    | inr e ↦ let kept : resolve_string store s ≡ s = rw e in rw kept (plain_text s e)
  ]

  mutual
    unfolding resolve_config_secrets collect_secret_references

    resolve_config_secrets-IsReplaced :
        (v : Value)
        → Holds (collect_secret_references v)
        → IsReplaced Resolves v (resolve_config_secrets v store)
    resolve_config_secrets-IsReplaced null h = null_kept
    resolve_config_secrets-IsReplaced (bool b) h = bool_kept b
    resolve_config_secrets-IsReplaced (number n) h = number_kept n
    resolve_config_secrets-IsReplaced (string s) h = resolve_string-IsReplaced s h
    resolve_config_secrets-IsReplaced (array vs) h = in_array vs _ (resolve_values-AreReplaced vs h)
    resolve_config_secrets-IsReplaced (object fs) h =
        in_object fs _ (resolve_fields-FieldsReplaced fs h)

    resolve_values-AreReplaced :
        (vs : Values)
        → Holds (collect_values vs)
        → AreReplaced Resolves vs (resolve_values vs store)
    resolve_values-AreReplaced no_value h = no_value_kept
    resolve_values-AreReplaced (value v vs) h =
        value_and v _ vs _
          (resolve_config_secrets-IsReplaced v (Holds-left _ (collect_values vs) h))
          (resolve_values-AreReplaced vs (Holds-right (collect_secret_references v) _ h))

    resolve_fields-FieldsReplaced :
        (fs : Fields)
        → Holds (collect_fields fs)
        → FieldsReplaced Resolves fs (resolve_fields fs store)
    resolve_fields-FieldsReplaced no_field h = no_field_kept
    resolve_fields-FieldsReplaced (field k v fs) h =
        field_and k v _ fs _
          (resolve_config_secrets-IsReplaced v (Holds-left _ (collect_fields fs) h))
          (resolve_fields-FieldsReplaced fs (Holds-right (collect_secret_references v) _ h))

  pub All-IsReplaced :
      (configs : List Value)
      → Holds (flat_collect configs)
      → All (λ c. IsReplaced Resolves c (resolve_config_secrets c store)) configs
  All-IsReplaced [] h = tt
  All-IsReplaced (c ∷ cs) h = (
    resolve_config_secrets-IsReplaced c
        (Holds-left (collect_secret_references c) (flat_collect cs) h),
    All-IsReplaced cs (Holds-right (collect_secret_references c) (flat_collect cs) h),
  )
