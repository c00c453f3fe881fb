-- ===== src/Compiler/Refs/Inlining.antt =====
-- crates/barbacane-compiler/src/spec_parser/parser.rs: what `resolve_schema_refs` gives is the plain
-- inlining of the references, wherever that ends.
use barbacane.Common.{
  ℕ, zero, suc, String, ◌≡◌, refl, sym, subst, List, ◌∷◌, Option, none, some, contains,
  Option-cases, Bool-cases, inl, inr,
}
use barbacane.Common.Json.{
  Value, null, bool, number, string, array, object, Values, no_value, value, Fields, no_field,
  field, get_str,
}
use barbacane.Common.Results.{ok, err}
use barbacane.Compiler.Refs.{
  Outcome, and_then, leave, follow, resolve_in, resolve_items, resolve_fields, resolve_ref,
  resolve_schema_refs,
}
use barbacane.Compiler.Refs.Expansion.{
  then_some, expand_ref, expand_in, expand_items, expand_fields, expand,
}

-- A result agrees with the expansion; an error or the lack of fuel agrees with anything.
abbrev pub Agrees : {A : Type 0} → Outcome A → Option A → Type 0
Agrees (some (ok a, visited)) p = p ≡ some a
Agrees _ p = Unit

and_then-Agrees :
    {A B : Type 0} (o : Outcome A) (p : Option A) (go : A → List String → Outcome B)
    (f : A → Option B)
    → Agrees o p
    → ((a : A) (visited : List String) → Agrees (go a visited) (f a))
    → Agrees (and_then o go) (then_some p f)
and_then-Agrees none p go f h k = tt
and_then-Agrees (some (err e, visited)) p go f h k = tt
and_then-Agrees (some (ok a, visited)) p go f h k =
    subst (λ x. Agrees (go a visited) (then_some x f)) (sym h) (k a visited)

module _ (root : Value) (next : Value → List String → Outcome Value) (f : Value → Option Value)
    (h : (v : Value) (visited : List String) → Agrees (next v visited) (f v)) where
  leave-Agrees :
      (r : String) (o : Outcome Value) (p : Option Value)
      → Agrees o p
      → Agrees (and_then o (leave r)) p
  leave-Agrees r none p e = tt
  leave-Agrees r (some (err x, visited)) p e = tt
  leave-Agrees r (some (ok v, visited)) p e = e

  follow-Agrees :
      (r : String) (visited : List String)
      → Agrees (follow root next r visited) (expand_ref root f r)
  follow-Agrees r visited = elim (Bool-cases (contains r visited)) [
    | inl e ↦ rw e tt
    | inr e ↦ rw e (elim (Option-cases (resolve_ref root r)) [
      | inl q ↦ rw q tt
      | inr q ↦ rw q.1 (leave-Agrees r (next q.0 (r ∷ visited)) (f q.0) (h q.0 (r ∷ visited)))
    ])
  ]

  mutual
    unfolding resolve_in expand_in

    resolve_in-Agrees :
        (v : Value) (visited : List String)
        → Agrees (resolve_in root next v visited) (expand_in root f v)
    resolve_in-Agrees null visited = refl
    resolve_in-Agrees (bool b) visited = refl
    resolve_in-Agrees (number n) visited = refl
    resolve_in-Agrees (string s) visited = refl
    resolve_in-Agrees (array vs) visited =
        and_then-Agrees (resolve_items root next vs visited) _ _ _ (resolve_items-Agrees vs visited)
          (λ ws visited'. refl)
    resolve_in-Agrees (object fs) visited = elim (Option-cases (get_str "$ref" fs)) [
      | inl e ↦ rw e (
          and_then-Agrees (resolve_fields root next fs visited) _ _ _
            (resolve_fields-Agrees fs visited) (λ gs visited'. refl))
      | inr e ↦ rw e.1 (follow-Agrees e.0 visited)
    ]

    resolve_items-Agrees :
        (vs : Values) (visited : List String)
        → Agrees (resolve_items root next vs visited) (expand_items root f vs)
    resolve_items-Agrees no_value visited = refl
    resolve_items-Agrees (value v vs) visited =
        and_then-Agrees (resolve_in root next v visited) _ _ _ (resolve_in-Agrees v visited)
          (λ w visited'.
            and_then-Agrees (resolve_items root next vs visited') _ _ _
              (resolve_items-Agrees vs visited') (λ ws visited''. refl))

    resolve_fields-Agrees :
        (fs : Fields) (visited : List String)
        → Agrees (resolve_fields root next fs visited) (expand_fields root f fs)
    resolve_fields-Agrees no_field visited = refl
    resolve_fields-Agrees (field k v fs) visited =
        and_then-Agrees (resolve_in root next v visited) _ _ _ (resolve_in-Agrees v visited)
          (λ w visited'.
            and_then-Agrees (resolve_fields root next fs visited') _ _ _
              (resolve_fields-Agrees fs visited') (λ gs visited''. refl))

pub resolve_schema_refs-Agrees :
    (fuel : ℕ) (root v : Value) (visited : List String)
    → Agrees (resolve_schema_refs fuel root v visited) (expand fuel root v)
unfolding resolve_schema_refs expand
resolve_schema_refs-Agrees zero root v visited =
    resolve_in-Agrees root _ _ (λ w visited'. tt) v visited
resolve_schema_refs-Agrees (suc fuel) root v visited =
    resolve_in-Agrees root _ _ (resolve_schema_refs-Agrees fuel root) v visited
