-- ===== src/Compiler/Refs/Remaining.antt =====
-- crates/barbacane-compiler/src/spec_parser/parser.rs: the references that may still be entered.
use barbacane.Common.{
  ℕ, ◌≤◌, ◌<◌, String, ◌≡◌, refl, true, false, not, List, [], ◌∷◌, contains, retain, length, str_eq,
  str_eq_iff, str_eq_refl, Bool-cases, inl, inr, arith,
}

-- The references of a universe that are not being resolved.
abbrev pub remaining : List String → List String → ℕ
remaining universe visited = length (retain (λ s. not (contains s visited)) universe)

remaining-cons-le :
    (universe visited : List String) (r : String)
    → remaining universe (r ∷ visited) ≤ remaining universe visited
remaining-cons-le [] visited r = omega arith
remaining-cons-le (u ∷ us) visited r = ground (arith, remaining-cons-le us visited r)

pub remaining-cons-lt :
    (universe visited : List String) (r : String)
    → contains r universe ≡ true
    → contains r visited ≡ false
    → remaining universe (r ∷ visited) < remaining universe visited
remaining-cons-lt [] visited r h g = cc
remaining-cons-lt (u ∷ us) visited r h g = elim (Bool-cases (str_eq u r)) [
  | inl e ↦
      rw ((str_eq_iff u r).0 e, str_eq_refl r, g) (ground (arith, remaining-cons-le us visited r))
  | inr e ↦ ground (arith, e, remaining-cons-lt us visited r, str_eq_iff u r, str_eq_iff r u)
]

pub retain-not_contained :
    (r : String) (visited : List String)
    → contains r visited ≡ false
    → retain (λ s. not (str_eq s r)) visited ≡ visited
retain-not_contained r [] h = refl
retain-not_contained r (t ∷ ts) h = ground (arith, retain-not_contained r ts)
