-- ===== src/Compiler/Refs/Terminates.antt =====
-- crates/barbacane-compiler/src/spec_parser/parser.rs: `resolve_schema_refs` ends, since no reference
-- is entered twice in a chain.
use barbacane.Common.{
  Option, none, some, length-retain-le, contains-append, ◌++◌, ◌∙◌, ℕ, zero, suc, ◌≤◌, ◌<◌, String,
  ◌≡◌, refl, sym, subst, true, false, List, [], ◌∷◌, none, some, contains, length, str_eq_refl,
  Option-cases, Bool-cases, inl, inr, arith,
}
use barbacane.Common.Json.{
  Value, null, bool, number, string, array, object, Values, no_value, value, Fields, no_field,
  field, get_str,
}
use barbacane.Common.Results.{ok, err}
use barbacane.Compiler.Refs.{
  Outcome, and_then, leave, follow, resolve_in, resolve_items, resolve_fields, resolve_ref,
  resolve_schema_refs,
}
use barbacane.Compiler.Refs.Remaining.{remaining, remaining-cons-lt, retain-not_contained}
use barbacane.Compiler.Refs.Objects.{Every, EveryItem, EveryField, resolve_ref-Every}

-- An answer; one that is no error leaves the references that are being resolved as they were.
abbrev pub Answers : {A : Type 0} → List String → Outcome A → Type 0
Answers visited none = ⊥
Answers visited (some (ok a, visited')) = visited' ≡ visited
Answers visited (some (err e, visited')) = Unit

and_then-Answers :
    {A B : Type 0} (visited : List String) (o : Outcome A) (go : A → List String → Outcome B)
    → Answers visited o
    → ((a : A) → Answers visited (go a visited))
    → Answers visited (and_then o go)
and_then-Answers visited none go h k = h
and_then-Answers visited (some (ok a, visited')) go h k =
    subst (λ v. Answers visited (go a v)) (sym h) (k a)
and_then-Answers visited (some (err e, visited')) go h k = tt

abbrev RefWithin : List String → Fields → Type 0
RefWithin universe fs = (r : String) → get_str "$ref" fs ≡ some r → contains r universe ≡ true

-- Every reference of the value is in the universe.
abbrev pub Within : List String → Value → Type 0
Within universe = Every (RefWithin universe)

module _ (universe : List String) (root : Value) (root_within : Within universe root) where
  module _ (next : Value → List String → Outcome Value) (bound : ℕ)
      (next-Answers : (target : Value) (visited : List String)
        → Within universe target
        → remaining universe visited < bound
        → Answers visited (next target visited)) where
    enter-Answers :
        (r : String) (visited : List String) (target : Value)
        → contains r universe ≡ true
        → contains r visited ≡ false
        → Within universe target
        → remaining universe visited ≤ bound
        → Answers visited (and_then (next target (r ∷ visited)) (leave r))
    enter-Answers r visited target known new w b = leave-Answers (next target (r ∷ visited)) (
        next-Answers target (r ∷ visited) w
          (omega (arith, remaining-cons-lt universe visited r known new)))
      where
        leave-Answers :
            (o : Outcome Value) → Answers (r ∷ visited) o → Answers visited (and_then o (leave r))
        leave-Answers none h = h
        leave-Answers (some (ok a, visited')) h =
            rw (h, str_eq_refl r) (retain-not_contained r visited new)
        leave-Answers (some (err e, visited')) h = tt

    follow-Answers :
        (r : String) (visited : List String)
        → contains r universe ≡ true
        → remaining universe visited ≤ bound
        → Answers visited (follow root next r visited)
    follow-Answers r visited known b = elim (Bool-cases (contains r visited)) [
      | inl e ↦ rw e tt
      | inr e ↦ rw e (elim (Option-cases (resolve_ref root r)) [
        | inl q ↦ rw q tt
        | inr q ↦
            rw q.1 (
              enter-Answers r visited q.0 known e (resolve_ref-Every _ root q.0 r root_within q.1)
                b)
      ])
    ]

    mutual
      unfolding resolve_in Every

      resolve_in-Answers :
          (v : Value) (visited : List String)
          → Within universe v
          → remaining universe visited ≤ bound
          → Answers visited (resolve_in root next v visited)
      resolve_in-Answers null visited w b = refl
      resolve_in-Answers (bool x) visited w b = refl
      resolve_in-Answers (number n) visited w b = refl
      resolve_in-Answers (string s) visited w b = refl
      resolve_in-Answers (array vs) visited w b =
          and_then-Answers visited (resolve_items root next vs visited) _
            (resolve_items-Answers vs visited w b) (λ items. refl)
      resolve_in-Answers (object fs) visited w b = elim (Option-cases (get_str "$ref" fs)) [
        | inl e ↦ rw e (
            and_then-Answers visited (resolve_fields root next fs visited) _
              (resolve_fields-Answers fs visited w.1 b) (λ new_obj. refl))
        | inr e ↦ rw e.1 (follow-Answers e.0 visited (w.0 e.0 e.1) b)
      ]

      resolve_items-Answers :
          (vs : Values) (visited : List String)
          → EveryItem (RefWithin universe) vs
          → remaining universe visited ≤ bound
          → Answers visited (resolve_items root next vs visited)
      resolve_items-Answers no_value visited w b = refl
      resolve_items-Answers (value v vs) visited w b =
          and_then-Answers visited (resolve_in root next v visited) _
            (resolve_in-Answers v visited w.0 b)
            (λ item.
              and_then-Answers visited (resolve_items root next vs visited) _
                (resolve_items-Answers vs visited w.1 b) (λ items. refl))

      resolve_fields-Answers :
          (fs : Fields) (visited : List String)
          → EveryField (RefWithin universe) fs
          → remaining universe visited ≤ bound
          → Answers visited (resolve_fields root next fs visited)
      resolve_fields-Answers no_field visited w b = refl
      resolve_fields-Answers (field k v fs) visited w b =
          and_then-Answers visited (resolve_in root next v visited) _
            (resolve_in-Answers v visited w.0 b)
            (λ resolved.
              and_then-Answers visited (resolve_fields root next fs visited) _
                (resolve_fields-Answers fs visited w.1 b) (λ new_obj. refl))

  resolve_schema_refs-Answers :
      (fuel : ℕ) (v : Value) (visited : List String)
      → Within universe v
      → remaining universe visited ≤ fuel
      → Answers visited (resolve_schema_refs fuel root v visited)
  unfolding resolve_schema_refs
  resolve_schema_refs-Answers zero v visited w b =
      resolve_in-Answers (λ target visited. none) 0 (λ t u x y. absurd (omega arith)) v visited w b
  resolve_schema_refs-Answers (suc fuel) v visited w b =
      resolve_in-Answers (resolve_schema_refs fuel root) (suc fuel)
        (λ t u x y. resolve_schema_refs-Answers fuel t u x (omega arith)) v visited w b

abbrev ref_list : Option String → List String
ref_list none = []
ref_list (some r) = r ∷ []

-- All the references that stand in a value, repeated as often as they do.
unfoldable mutual
  pub refs : Value → List String
  refs null = []
  refs (bool b) = []
  refs (number n) = []
  refs (string s) = []
  refs (array vs) = item_refs vs
  refs (object fs) = ref_list (get_str "$ref" fs) ++ field_refs fs

  pub item_refs : Values → List String
  item_refs no_value = []
  item_refs (value v vs) = refs v ++ item_refs vs

  pub field_refs : Fields → List String
  field_refs no_field = []
  field_refs (field k v fs) = refs v ++ field_refs fs

module _ (universe : List String) where
  abbrev Among : List String → Type 0
  Among rs = (s : String) → contains s rs ≡ true → contains s universe ≡ true

  Among-left : (xs ys : List String) → Among (xs ++ ys) → Among xs
  Among-left xs ys h s c = h s (contains-append s xs ys ∙ rw c)

  Among-right : (xs ys : List String) → Among (xs ++ ys) → Among ys
  Among-right xs ys h s c = h s (contains-append s xs ys ∙ ground arith)

  mutual
    unfolding refs Every

    refs-Within : (v : Value) → Among (refs v) → Within universe v
    refs-Within null h = tt
    refs-Within (bool b) h = tt
    refs-Within (number n) h = tt
    refs-Within (string s) h = tt
    refs-Within (array vs) h = item_refs-Within vs h
    refs-Within (object fs) h = (
      λ r e. h r (rw (e, str_eq_refl r)),
      field_refs-Within fs (Among-right (ref_list (get_str "$ref" fs)) _ h),
    )

    item_refs-Within : (vs : Values) → Among (item_refs vs) → EveryItem (RefWithin universe) vs
    item_refs-Within no_value h = tt
    item_refs-Within (value v vs) h = (
      refs-Within v (Among-left _ (item_refs vs) h),
      item_refs-Within vs (Among-right (refs v) _ h),
    )

    field_refs-Within : (fs : Fields) → Among (field_refs fs) → EveryField (RefWithin universe) fs
    field_refs-Within no_field h = tt
    field_refs-Within (field k v fs) h = (
      refs-Within v (Among-left _ (field_refs fs) h),
      field_refs-Within fs (Among-right (refs v) _ h),
    )

-- As much fuel as references stand in the value and in the root document together is enough for
-- `resolve_schema_refs`: it gives a result, and unless this is an error it leaves the set of visited
-- references empty, as it was.
pub resolve_schema_refs-Answers_enough :
    (root v : Value) (fuel : ℕ)
    → length (refs v ++ refs root) ≤ fuel
    → Answers [] (resolve_schema_refs fuel root v [])
resolve_schema_refs-Answers_enough root v fuel h =
    resolve_schema_refs-Answers universe root
      (refs-Within universe root (Among-right universe (refs v) (refs root) (λ s c. c))) fuel v []
      (refs-Within universe v (Among-left universe (refs v) (refs root) (λ s c. c)))
      (omega (arith, h, length-retain-le (λ s. true) universe))
  where
    universe : List String
    universe = refs v ++ refs root
