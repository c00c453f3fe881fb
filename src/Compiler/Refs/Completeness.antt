-- ===== src/Compiler/Refs/Completeness.antt =====
-- crates/barbacane-compiler/src/spec_parser/parser.rs: `resolve_schema_refs` reports a cycle only where
-- the inlining does not end.
use barbacane.Common.{
  ℕ, zero, suc, ◌≤◌, String, ◌≡◌, refl, sym, ap, ◌∙◌, subst, ◌↔◌, false, List, [], ◌∷◌, ◌++◌, none,
  some, contains, length, str_eq_refl, Option-cases, Bool-cases, inl, inr,
}
use barbacane.Common.Json.{
  Value, null, bool, number, string, array, object, Values, no_value, value, Fields, no_field,
  field, get_str,
}
use barbacane.Common.Results.{ok, err}
use barbacane.Compiler.Refs.{
  Outcome, and_then, leave, follow, resolve_in, resolve_items, resolve_fields, resolve_ref,
  resolve_schema_refs,
}
use barbacane.Compiler.Refs.Terminates.{Answers, refs, resolve_schema_refs-Answers_enough}
use barbacane.Compiler.Refs.Remaining.{retain-not_contained}
use barbacane.Compiler.Refs.Inlining.{Agrees, resolve_schema_refs-Agrees}
use barbacane.Compiler.Refs.Blocked.{
  then_some_parts, targets, expand-targets, Blocked, Blocked-cons, expand_ref-none,
}
use barbacane.Compiler.Refs.Expansion.{
  then_some, expand_ref, expand_ref_or, expand_in, expand_items, expand_fields, expand,
  expand_unique,
}

-- No error; a result leaves the references that are being resolved as they were.
abbrev Succeeds : {A : Type 0} → List String → Outcome A → Type 0
Succeeds visited none = Unit
Succeeds visited (some (ok a, visited')) = visited' ≡ visited
Succeeds visited (some (err e, visited')) = ⊥

and_then-Succeeds :
    {A B : Type 0} (visited : List String) (o : Outcome A) (go : A → List String → Outcome B)
    → Succeeds visited o
    → ((a : A) → Succeeds visited (go a visited))
    → Succeeds visited (and_then o go)
and_then-Succeeds visited none go h k = tt
and_then-Succeeds visited (some (ok a, visited')) go h k =
    subst (λ v. Succeeds visited (go a v)) (sym h) (k a)
and_then-Succeeds visited (some (err e, visited')) go h k = h

module _ (root : Value) where
  module _ (next : Value → List String → Outcome Value)
      (next-Succeeds : (n : ℕ) (v w : Value) (visited : List String)
        → expand n root v ≡ some w
        → Blocked root n visited
        → Succeeds visited (next v visited)) where
    enter-Succeeds :
        (r : String) (visited : List String) (o : Outcome Value)
        → contains r visited ≡ false
        → Succeeds (r ∷ visited) o
        → Succeeds visited (and_then o (leave r))
    enter-Succeeds r visited none new h = tt
    enter-Succeeds r visited (some (ok a, visited')) new h =
        rw (h, str_eq_refl r) (retain-not_contained r visited new)
    enter-Succeeds r visited (some (err e, visited')) new h = h

    follow_at :
        (n : ℕ) (r : String) (w : Value) (visited : List String)
        → expand_ref root (targets root (suc n)) r ≡ some w
        → expand_ref root (targets root n) r ≡ none
        → Blocked root (suc n) visited
        → Succeeds visited (follow root next r visited)
    follow_at n r w visited e q b = elim (Bool-cases (contains r visited)) [
      | inl c ↦ absurd (cc (b r c, e))
      | inr c ↦
          (let parts = then_some_parts (resolve_ref root r) (targets root (suc n)) w e in
            rw (c, parts.1)
              (enter-Succeeds r visited (next parts.0 (r ∷ visited)) c (
                next-Succeeds n parts.0 w (r ∷ visited) parts.2
                  (Blocked-cons root n r visited q b))))
    ]

    follow-Succeeds :
        (n : ℕ) (r : String) (w : Value) (visited : List String)
        → expand_ref root (targets root n) r ≡ some w
        → Blocked root n visited
        → Succeeds visited (follow root next r visited)
    follow-Succeeds zero r w visited e b =
        absurd (cc ((then_some_parts (resolve_ref root r) (targets root zero) w e).2))
    follow-Succeeds (suc n) r w visited e b =
        elim (Option-cases (expand_ref root (targets root n) r)) [
          | inl q ↦ follow_at n r w visited e q b
          | inr q ↦ follow-Succeeds n r q.0 visited q.1 (λ s c. expand_ref-none root n s (b s c))
        ]

    mutual
      unfolding resolve_in expand_in

      resolve_in-Succeeds :
          (n : ℕ) (v w : Value) (visited : List String)
          → expand_in root (targets root n) v ≡ some w
          → Blocked root n visited
          → Succeeds visited (resolve_in root next v visited)
      resolve_in-Succeeds n null w visited e b = refl
      resolve_in-Succeeds n (bool x) w visited e b = refl
      resolve_in-Succeeds n (number x) w visited e b = refl
      resolve_in-Succeeds n (string x) w visited e b = refl
      resolve_in-Succeeds n (array vs) w visited e b =
          (let parts = then_some_parts (expand_items root (targets root n) vs) _ w e in
            and_then-Succeeds visited (resolve_items root next vs visited) _
              (resolve_items-Succeeds n vs parts.0 visited parts.1 b) (λ ws. refl))
      resolve_in-Succeeds n (object fs) w visited e b = elim (Option-cases (get_str "$ref" fs)) [
        | inl q ↦ rw q (
            let parts =
              then_some_parts (expand_fields root (targets root n) fs) (λ gs. some (object gs)) w
                (ap
                    (λ o.
                      expand_ref_or root (targets root n) o (
                        then_some (expand_fields root (targets root n) fs)
                          (λ gs. some (object gs))))
                    (sym q)
                  ∙ e) in
            and_then-Succeeds visited (resolve_fields root next fs visited) _
              (resolve_fields-Succeeds n fs parts.0 visited parts.1 b) (λ gs. refl))
        | inr q ↦ rw q.1 (
            follow-Succeeds n q.0 w visited
              (ap
                  (λ o.
                    expand_ref_or root (targets root n) o
                      (then_some (expand_fields root (targets root n) fs) (λ gs. some (object gs))))
                  (sym q.1)
                ∙ e)
              b)
      ]

      resolve_items-Succeeds :
          (n : ℕ) (vs ws : Values) (visited : List String)
          → expand_items root (targets root n) vs ≡ some ws
          → Blocked root n visited
          → Succeeds visited (resolve_items root next vs visited)
      resolve_items-Succeeds n no_value ws visited e b = refl
      resolve_items-Succeeds n (value v vs) ws visited e b =
          (let item = then_some_parts (expand_in root (targets root n) v) _ ws e in
            let items = then_some_parts (expand_items root (targets root n) vs) _ ws item.2 in
            and_then-Succeeds visited (resolve_in root next v visited) _
              (resolve_in-Succeeds n v item.0 visited item.1 b)
              (λ x.
                and_then-Succeeds visited (resolve_items root next vs visited) _
                  (resolve_items-Succeeds n vs items.0 visited items.1 b) (λ y. refl)))

      resolve_fields-Succeeds :
          (n : ℕ) (fs gs : Fields) (visited : List String)
          → expand_fields root (targets root n) fs ≡ some gs
          → Blocked root n visited
          → Succeeds visited (resolve_fields root next fs visited)
      resolve_fields-Succeeds n no_field gs visited e b = refl
      resolve_fields-Succeeds n (field k v fs) gs visited e b =
          (let one = then_some_parts (expand_in root (targets root n) v) _ gs e in
            let others = then_some_parts (expand_fields root (targets root n) fs) _ gs one.2 in
            and_then-Succeeds visited (resolve_in root next v visited) _
              (resolve_in-Succeeds n v one.0 visited one.1 b)
              (λ x.
                and_then-Succeeds visited (resolve_fields root next fs visited) _
                  (resolve_fields-Succeeds n fs others.0 visited others.1 b) (λ y. refl)))

  resolve_schema_refs-Succeeds :
      (fuel n : ℕ) (v w : Value) (visited : List String)
      → expand n root v ≡ some w
      → Blocked root n visited
      → Succeeds visited (resolve_schema_refs fuel root v visited)
  unfolding resolve_schema_refs
  resolve_schema_refs-Succeeds zero n v w visited e b =
      resolve_in-Succeeds (λ t u. none) (λ m x y u p q. tt) n v w visited
        (sym (expand-targets root n v) ∙ e) b
  resolve_schema_refs-Succeeds (suc fuel) n v w visited e b =
      resolve_in-Succeeds (resolve_schema_refs fuel root)
        (λ m x y u p q. resolve_schema_refs-Succeeds fuel m x y u p q) n v w visited
        (sym (expand-targets root n v) ∙ e) b

  expands :
      (fuel n : ℕ) (v w : Value) (o : Outcome Value)
      → Answers [] o
      → Succeeds [] o
      → Agrees o (expand fuel root v)
      → expand n root v ≡ some w
      → o ≡ some (ok w, [])
  expands fuel n v w none a s g e = absurd a
  expands fuel n v w (some (err x, visited)) a s g e = absurd s
  expands fuel n v w (some (ok x, visited)) a s g e =
      rw (a, expand_unique root fuel n v x w g e) refl

-- With enough fuel, `resolve_schema_refs` gives a schema if and only if the plain expansion of the
-- references, which keeps no record of what is open, ends; and it gives what this expansion gives.
-- So a schema that expands is never refused, neither as circular nor as unresolved.
pub resolve_schema_refs-iff-expand :
    (root v w : Value) (fuel : ℕ)
    → length (refs v ++ refs root) ≤ fuel
    → (resolve_schema_refs fuel root v [] ≡ some (ok w, []))
      ↔ ((n : ℕ) × (expand n root v ≡ some w))
resolve_schema_refs-iff-expand root v w fuel h = (
  λ e. (
    fuel,
    subst (λ o. Agrees o (expand fuel root v)) e (resolve_schema_refs-Agrees fuel root v []),
  ),
  λ p.
      expands root fuel p.0 v w (resolve_schema_refs fuel root v [])
        (resolve_schema_refs-Answers_enough root v fuel h)
        (resolve_schema_refs-Succeeds root fuel p.0 v w [] p.1 (λ r c. absurd (cc c)))
        (resolve_schema_refs-Agrees fuel root v []) p.1,
)
