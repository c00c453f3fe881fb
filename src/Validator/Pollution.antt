-- ===== src/Validator/Pollution.antt =====
-- crates/barbacane/src/validator.rs: what an accepted query string says of the declared parameters.
use barbacane.Common.{
  ℕ, ◌+◌, ltb, String, ◌≡◌, refl, sym, ap, ◌∙◌, ◌↔◌, false, if◌then◌else◌, List, [], ◌∷◌, ◌++◌,
  Option, none, some, All, All-implies, Dict, lookup, insert, lookup-insert, length, str_eq,
  str_eq_iff, unwrap_or, Bool-cases, inl, inr, arith,
}
use barbacane.Common.Json.{string}
use barbacane.Common.Results.{ok}
use barbacane.Validator.Limits.{ValidationError2, result_of}
use barbacane.Validator.Decode.{Utf8}
use barbacane.Validator.Params.{
  Jsonschema, CompiledParam, value_errors, param_errors, collect, pairs_of, count_keys,
  schema_errors, duplicates, check_query, validate_query_params, invalid,
}

-- All the values that a key has, in order.
abbrev pub values_of : String → List (String × String) → List String
values_of name [] = []
values_of name ((k, v) ∷ pairs) =
    if str_eq k name then v ∷ values_of name pairs else values_of name pairs

abbrev last_or : Option String → List String → Option String
last_or o [] = o
last_or o (v ∷ vs) = last_or (some v) vs

lookup-collect :
    (name : String) (pairs : List (String × String)) (m : Dict String) (js : Jsonschema)
    → lookup name (collect js pairs m) ≡ last_or (lookup name m) (values_of name pairs)
lookup-collect name [] m js = refl
lookup-collect name ((k, v) ∷ pairs) m js =
    lookup-collect name pairs (insert k v m) js
    ∙ ap (λ o. last_or o (values_of name pairs)) (lookup-insert k name v m)
    ∙ elim (Bool-cases (str_eq k name)) [ inl e ↦ rw e refl | inr e ↦ rw e refl ]

lookup-count_keys :
    (name : String) (pairs : List (String × String)) (counts : Dict ℕ) (js : Jsonschema)
    (utf8 : Utf8)
    → unwrap_or (lookup name (count_keys js utf8 pairs counts)) 0
      ≡ unwrap_or (lookup name counts) 0 + length (values_of name pairs)
lookup-count_keys name [] counts js utf8 = omega arith
lookup-count_keys name ((k, v) ∷ pairs) counts js utf8 =
    lookup-count_keys name pairs _ js utf8
    ∙ rw (lookup-insert k name (unwrap_or (lookup k counts) 0 + 1) counts)
        (elim (Bool-cases (str_eq k name)) [
          | inl e ↦ rw (e, (str_eq_iff k name).0 e) (omega arith)
          | inr e ↦ rw e refl
        ])

module _ (js : Jsonschema) (utf8 : Utf8) (debug : ValidationError2 → String) where
  open js use {Schema, iter_errors}

  abbrev pub Valid : Option Schema → String → Type 0
  Valid none value = Unit
  Valid (some schema) value = iter_errors schema (string value) ≡ []

  -- What the values of a declared parameter are to be: one that is valid, or none if it may be missing.
  abbrev pub AcceptedValues : CompiledParam js → List String → Type 0
  AcceptedValues p [] = p.required ≡ false
  AcceptedValues p (v ∷ []) = Valid p.schema v
  AcceptedValues p (v ∷ (w ∷ vs)) = ⊥

  abbrev Single : CompiledParam js → List String → Type 0
  Single p vs = ltb 1 (length vs) ≡ false

  invalid-nil :
      (name location : String) (messages : List String)
      → (invalid js name location messages ≡ []) ↔ (messages ≡ [])
  invalid-nil name location [] = (λ e. refl, λ e. refl)
  invalid-nil name location (m ∷ ms) = (λ e. absurd cc, λ e. absurd cc)

  schema_errors-nil :
      (name location : String) (schema : Option Schema) (value : String)
      → (schema_errors js location name schema value ≡ []) ↔ Valid schema value
  schema_errors-nil name location none value = (λ e. tt, λ e. refl)
  schema_errors-nil name location (some schema) value =
      invalid-nil name location (iter_errors schema (string value))

  value_errors-nil :
      (p : CompiledParam js) (vs : List String)
      → Single p vs
      → (value_errors js "query" p (last_or none vs) ≡ []) ↔ AcceptedValues p vs
  value_errors-nil p [] h = elim (Bool-cases p.required) [
    | inl e ↦ rw e (λ q. absurd cc, λ q. absurd cc)
    | inr e ↦ rw e (λ q. refl, λ q. refl)
  ]
  value_errors-nil p (v ∷ []) h = schema_errors-nil p.name "query" p.schema v
  value_errors-nil p (v ∷ (w ∷ vs)) h = absurd (ground (arith, h))

  AcceptedValues-Single :
      (p : CompiledParam js) (vs : List String) → AcceptedValues p vs → Single p vs
  AcceptedValues-Single p [] h = refl
  AcceptedValues-Single p (v ∷ []) h = refl
  AcceptedValues-Single p (v ∷ (w ∷ vs)) h = absurd h

  append_nil : {A : Type 0} (xs ys : List A) → (xs ++ ys ≡ []) ↔ ((xs ≡ []) × (ys ≡ []))
  append_nil [] ys = (λ e. (refl, e), λ e. e.1)
  append_nil (x ∷ xs) ys = (λ e. absurd cc, λ e. absurd (cc e.0))

  result_of-ok : (errors : List ValidationError2) → (result_of errors ≡ ok tt) ↔ (errors ≡ [])
  result_of-ok [] = (λ e. refl, λ e. refl)
  result_of-ok (x ∷ xs) = (λ e. absurd cc, λ e. absurd cc)

  module _ (pairs : List (String × String)) where
    abbrev count_of : CompiledParam js → ℕ
    count_of p = unwrap_or (lookup p.name (count_keys js utf8 pairs [])) 0

    count_of-length : (p : CompiledParam js) → count_of p ≡ length (values_of p.name pairs)
    unfolding lookup
    count_of-length p = lookup-count_keys p.name pairs [] js utf8 ∙ omega arith

    duplicates-nil :
        (params : List (CompiledParam js))
        → (duplicates js utf8 (count_keys js utf8 pairs []) params ≡ [])
          ↔ All (λ p. Single p (values_of p.name pairs)) params
    duplicates-nil [] = (λ e. tt, λ e. refl)
    duplicates-nil (p ∷ params) = elim (Bool-cases (ltb 1 (count_of p))) [
      | inl e ↦ rw e (λ q. absurd cc, λ q. absurd (cc (e, q.0, count_of-length p)))
      | inr e ↦ rw e (
        λ q. (rw (← count_of-length p) e, (duplicates-nil params).0 q),
        λ q. (duplicates-nil params).1 q.1,
      )
    ]

    lookup-collect_nil :
        (name : String) → lookup name (collect js pairs []) ≡ last_or none (values_of name pairs)
    unfolding lookup
    lookup-collect_nil name = lookup-collect name pairs [] js

    param-nil :
        (p : CompiledParam js)
        → Single p (values_of p.name pairs)
        → (value_errors js "query" p (lookup p.name (collect js pairs [])) ≡ [])
          ↔ AcceptedValues p (values_of p.name pairs)
    param-nil p h = rw (lookup-collect_nil p.name) (value_errors-nil p (values_of p.name pairs) h)

    param_errors-nil :
        (params : List (CompiledParam js))
        → All (λ p. Single p (values_of p.name pairs)) params
        → (param_errors js "query" (λ name. lookup name (collect js pairs [])) params ≡ [])
          ↔ All (λ p. AcceptedValues p (values_of p.name pairs)) params
    param_errors-nil [] h = (λ e. tt, λ e. refl)
    param_errors-nil (p ∷ params) h =
        (let parts =
            append_nil (value_errors js "query" p (lookup p.name (collect js pairs []))) _ in
          (
            λ e. ((param-nil p h.0).0 (parts.0 e).0, (param_errors-nil params h.1).0 (parts.0 e).1),
            λ a. parts.1 ((param-nil p h.0).1 a.0, (param_errors-nil params h.1).1 a.1),
          ))

    check_query-ok :
        (params : List (CompiledParam js)) (errors : List ValidationError2)
        → errors ≡ duplicates js utf8 (count_keys js utf8 pairs []) params
        → (check_query js utf8 debug params pairs errors ≡ ok tt)
          ↔ All (λ p. AcceptedValues p (values_of p.name pairs)) params
    check_query-ok params [] d =
        (let single = (duplicates-nil params).0 (sym d) in
          (
            λ e. (param_errors-nil params single).0 ((result_of-ok _).0 e),
            λ a. (result_of-ok _).1 ((param_errors-nil params single).1 a),
          ))
    check_query-ok params (x ∷ xs) d = (
      λ e. absurd cc,
      λ a. absurd (
          cons_nil (
            d
            ∙ (duplicates-nil params).1 (
                All-implies _ _ (λ p. AcceptedValues-Single p (values_of p.name pairs)) params a))),
    )
      where
        cons_nil : x ∷ xs ≡ [] → ⊥
        cons_nil e = cc

  -- A query string is accepted if and only if each declared parameter has one value that its schema
  -- accepts, or none if it is not required. So a parameter cannot occur twice, and there is no value of
  -- a declared parameter, in the query that is passed on, that was not checked.
  pub validate_query_params-AcceptedValues :
      (params : List (CompiledParam js)) (query_string : Option String)
      → (validate_query_params js utf8 debug params query_string ≡ ok tt)
        ↔ All (λ p. AcceptedValues p (values_of p.name (pairs_of js utf8 query_string))) params
  validate_query_params-AcceptedValues params query_string =
      check_query-ok (pairs_of js utf8 query_string) params _ refl
