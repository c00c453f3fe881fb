-- ===== src/Compiler/Refs/Expansion.antt =====
-- The plain inlining of the references of a JSON schema, the specification of `resolve_schema_refs` in
-- crates/barbacane-compiler/src/spec_parser/parser.rs.
use native.Mathlib.Numerals.{unary_clauses}
use barbacane.Common.{
  ℕ, zero, suc, ◌+◌, String, ◌≡◌, refl, sym, ◌∙◌, subst, Option, none, some, Option-cases, inl, inr,
  arith,
}
use barbacane.Common.Json.{
  Value, null, bool, number, string, array, object, Values, no_value, value, Fields, no_field,
  field, get_str,
}
use barbacane.Compiler.Refs.{resolve_ref}

abbrev pub then_some : {A B : Type 0} → Option A → (A → Option B) → Option B
then_some none go = none
then_some (some a) go = go a

-- The specification: every reference is replaced by what its target expands to, with no record of
-- the references that are open.
module _ (root : Value) (expand_target : Value → Option Value) where
  abbrev pub expand_ref : String → Option Value
  expand_ref r = then_some (resolve_ref root r) expand_target

  abbrev pub expand_ref_or : Option String → Option Value → Option Value
  expand_ref_or none rest = rest
  expand_ref_or (some r) rest = expand_ref r

  unfoldable mutual
    pub expand_in : Value → Option Value
    expand_in null = some null
    expand_in (bool b) = some (bool b)
    expand_in (number n) = some (number n)
    expand_in (string s) = some (string s)
    expand_in (array vs) = then_some (expand_items vs) (λ ws. some (array ws))
    expand_in (object fs) =
        expand_ref_or (get_str "$ref" fs) (then_some (expand_fields fs) (λ gs. some (object gs)))

    pub expand_items : Values → Option Values
    expand_items no_value = some no_value
    expand_items (value v vs) =
        then_some (expand_in v) (λ w. then_some (expand_items vs) (λ ws. some (value w ws)))

    pub expand_fields : Fields → Option Fields
    expand_fields no_field = some no_field
    expand_fields (field k v fs) =
        then_some (expand_in v) (λ w. then_some (expand_fields fs) (λ gs. some (field k w gs)))

-- References nest at most `depth` deep.
unfoldable pub expand : ℕ → Value → Value → Option Value
expand zero root = expand_in root (λ target. none)
expand (suc depth) root = expand_in root (expand depth root)

-- What the second gives where the first gives something.
abbrev pub Extends : {A : Type 0} → Option A → Option A → Type 0
Extends none p = Unit
Extends (some a) p = p ≡ some a

then_some-Extends :
    {A B : Type 0} (o p : Option A) (f g : A → Option B)
    → Extends o p
    → ((a : A) → Extends (f a) (g a))
    → Extends (then_some o f) (then_some p g)
then_some-Extends none p f g h k = tt
then_some-Extends (some a) p f g h k = subst (λ x. Extends (f a) (then_some x g)) (sym h) (k a)

Extends-refl : {A : Type 0} (o : Option A) → Extends o o
Extends-refl none = tt
Extends-refl (some a) = refl

pub Extends-some : {A : Type 0} (o p : Option A) (a : A) → Extends o p → o ≡ some a → p ≡ some a
Extends-some o p a h e = subst (λ x. Extends x p) e h

module _ (root : Value) (f g : Value → Option Value) (h : (v : Value) → Extends (f v) (g v)) where
  pub expand_ref-Extends : (r : String) → Extends (expand_ref root f r) (expand_ref root g r)
  expand_ref-Extends r =
      then_some-Extends (resolve_ref root r) (resolve_ref root r) f g
        (Extends-refl (resolve_ref root r)) h

  mutual
    unfolding expand_in

    expand_in-Extends : (v : Value) → Extends (expand_in root f v) (expand_in root g v)
    expand_in-Extends null = refl
    expand_in-Extends (bool b) = refl
    expand_in-Extends (number n) = refl
    expand_in-Extends (string s) = refl
    expand_in-Extends (array vs) =
        then_some-Extends (expand_items root f vs) _ _ _ (expand_items-Extends vs) (λ ws. refl)
    expand_in-Extends (object fs) = elim (Option-cases (get_str "$ref" fs)) [
      | inl e ↦ rw e (
          then_some-Extends (expand_fields root f fs) _ _ _ (expand_fields-Extends fs) (λ gs. refl))
      | inr e ↦ rw e.1 (expand_ref-Extends e.0)
    ]

    expand_items-Extends : (vs : Values) → Extends (expand_items root f vs) (expand_items root g vs)
    expand_items-Extends no_value = refl
    expand_items-Extends (value v vs) =
        then_some-Extends (expand_in root f v) _ _ _ (expand_in-Extends v) (λ w.
          then_some-Extends (expand_items root f vs) _ _ _ (expand_items-Extends vs) (λ ws. refl))

    expand_fields-Extends :
        (fs : Fields) → Extends (expand_fields root f fs) (expand_fields root g fs)
    expand_fields-Extends no_field = refl
    expand_fields-Extends (field k v fs) =
        then_some-Extends (expand_in root f v) _ _ _ (expand_in-Extends v) (λ w.
          then_some-Extends (expand_fields root f fs) _ _ _ (expand_fields-Extends fs) (λ gs. refl))

module _ (root : Value) where
  pub expand-suc-Extends : (n : ℕ) (v : Value) → Extends (expand n root v) (expand (suc n) root v)
  unfolding expand
  expand-suc-Extends zero v = expand_in-Extends root _ _ (λ t. tt) v
  expand-suc-Extends (suc n) v =
      expand_in-Extends root (expand n root) (expand (suc n) root) (expand-suc-Extends n) v

  expand-add : (n k : ℕ) (v w : Value) → expand n root v ≡ some w → expand (n + k) root v ≡ some w
  expand-add n zero v w e = simp unary_clauses e
  expand-add n (suc k) v w e =
      simp unary_clauses (Extends-some _ _ w (expand-suc-Extends (n + k) v) (expand-add n k v w e))

  pub expand_unique :
      (m n : ℕ) (v w x : Value) → expand m root v ≡ some w → expand n root v ≡ some x → w ≡ x
  expand_unique m n v w x p q = some_injective (
      sym (expand-add m n v w p)
      ∙ subst (λ k. expand k root v ≡ some x) swap (expand-add n m v x q))
    where
      swap : n + m ≡ m + n
      swap = omega arith

      some_injective : some w ≡ some x → w ≡ x
      some_injective e = cc
