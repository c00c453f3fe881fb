-- ===== src/Compiler/Refs/Blocked.antt =====
-- crates/barbacane-compiler/src/spec_parser/parser.rs: a reference that is being resolved does not
-- expand at a smaller depth.
use barbacane.Common.{
  ℕ, zero, suc, String, ◌≡◌, refl, sym, ◌∙◌, true, List, ◌∷◌, Option, none, some, contains, str_eq,
  str_eq_iff, Option-cases, Bool-cases, inl, inr, arith,
}
use barbacane.Common.Json.{Value}
use barbacane.Compiler.Refs.Expansion.{
  then_some, expand_ref, expand_in, expand, Extends, Extends-some, expand-suc-Extends,
  expand_ref-Extends,
}

pub then_some_parts :
    {A B : Type 0} (o : Option A) (f : A → Option B) (b : B)
    → then_some o f ≡ some b
    → (a : A) × (o ≡ some a) × (f a ≡ some b)
then_some_parts none f b e = cc
then_some_parts (some a) f b e = (a, refl, e)

module _ (root : Value) where
  -- What the targets of references expand to at a depth.
  abbrev pub targets : ℕ → Value → Option Value
  targets zero v = none
  targets (suc n) v = expand n root v

  pub expand-targets : (n : ℕ) (v : Value) → expand n root v ≡ expand_in root (targets n) v
  unfolding expand
  expand-targets zero v = refl
  expand-targets (suc n) v = refl

  targets-Extends : (n : ℕ) (v : Value) → Extends (targets n v) (targets (suc n) v)
  targets-Extends zero v = tt
  targets-Extends (suc n) v = expand-suc-Extends root n v

  -- The references that are being resolved do not expand at this depth.
  abbrev pub Blocked : ℕ → List String → Type 0
  Blocked n visited =
      (r : String) → contains r visited ≡ true → expand_ref root (targets n) r ≡ none

  pub expand_ref-none :
      (n : ℕ) (r : String)
      → expand_ref root (targets (suc n)) r ≡ none
      → expand_ref root (targets n) r ≡ none
  expand_ref-none n r e = elim (Option-cases (expand_ref root (targets n) r)) [
    | inl q ↦ q
    | inr q ↦ absurd (
        none_or_some (
          sym e
          ∙ Extends-some _ _ q.0
              (expand_ref-Extends root (targets n) (targets (suc n)) (targets-Extends n) r) q.1))
  ]
    where
      none_or_some : {v : Value} → none ≡ some v → ⊥
      none_or_some e = cc

  pub Blocked-cons :
      (n : ℕ) (r : String) (visited : List String)
      → expand_ref root (targets n) r ≡ none
      → Blocked (suc n) visited
      → Blocked n (r ∷ visited)
  Blocked-cons n r visited e b s c = elim (Bool-cases (str_eq r s)) [
    | inl q ↦ rw (← (str_eq_iff r s).0 q) e
    | inr q ↦ expand_ref-none n s (b s (ground (arith, c, q)))
  ]
