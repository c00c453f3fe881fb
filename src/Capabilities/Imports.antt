-- ===== src/Capabilities/Imports.antt =====
-- crates/barbacane-wasm/src/validate.rs: the host functions that a module may import.
use barbacane.Common.{
  String, ◌≡◌, ◌↔◌, ◌⊎◌, inl, inr, Bool, true, false, not, ◌&&◌, ◌||◌, if◌then◌else◌, List, [], ◌∷◌,
  ◌++◌, Memᴰ, arith, All, contains, str_eq, Bool-cases, refl, subst, ◌∙◌,
}
use barbacane.Chain.Errors.{undeclared_import}
use barbacane.Common.Results.{ok, err}
use barbacane.Capabilities.{
  Module, Import, capability_to_imports, core_imports, declared_imports, check_imports,
  validate_imports,
}

-- A host function of the plugin contract, or of a capability that the plugin declares.
abbrev pub IsGranted : List String → String → Type 0
IsGranted capabilities name =
    (contains name core_imports ≡ true)
    ⊎ ((capability : String) × Memᴰ capability capabilities
        × (contains name (capability_to_imports capability) ≡ true))

abbrev pub IsAllowed : List String → Import → Type 0
IsAllowed capabilities i = (str_eq i.module_name "barbacane" ≡ true) → IsGranted capabilities i.name

contains-append :
    (s : String) (xs ys : List String) → contains s (xs ++ ys) ≡ (contains s xs || contains s ys)
contains-append s [] ys = refl
contains-append s (x ∷ xs) ys = ground (arith, contains-append s xs ys)

contains-declared_imports :
    (capabilities : List String) (name : String)
    → contains name (declared_imports capabilities) ≡ true
    → (capability : String) × Memᴰ capability capabilities
      × (contains name (capability_to_imports capability) ≡ true)
unfolding declared_imports
contains-declared_imports [] name h = cc
contains-declared_imports (c ∷ cs) name h =
    elim (Bool-cases (contains name (capability_to_imports c))) [
      | inl e ↦ (c, Memᴰ.head refl, e)
      | inr e ↦ later (
          contains-declared_imports cs name (
            ground
              (arith, h, e, contains-append name (capability_to_imports c) (declared_imports cs))))
    ]
  where
    later :
        (capability : String) × Memᴰ capability cs
          × (contains name (capability_to_imports capability) ≡ true)
        → (capability : String) × Memᴰ capability (c ∷ cs)
          × (contains name (capability_to_imports capability) ≡ true)
    later (k, m, e) = (k, Memᴰ.tail m, e)

declared_imports-contains :
    (capabilities : List String) (name capability : String)
    → Memᴰ capability capabilities
    → contains name (capability_to_imports capability) ≡ true
    → contains name (declared_imports capabilities) ≡ true
unfolding declared_imports
declared_imports-contains [] name capability m h = elim m [ ]
declared_imports-contains (c ∷ cs) name capability (Memᴰ.head p) h =
    rw (contains-append name (capability_to_imports c) (declared_imports cs))
      (ground (arith, subst (λ k. contains name (capability_to_imports k) ≡ true) p h))
declared_imports-contains (c ∷ cs) name capability (Memᴰ.tail m) h = ground (
  arith,
  declared_imports-contains cs name capability m h,
  contains-append name (capability_to_imports c) (declared_imports cs),
)

module _ (capabilities : List String) where
  abbrev allowed : List String
  allowed = core_imports ++ declared_imports capabilities

  allowed-IsGranted : (name : String) → (contains name allowed ≡ true) ↔ IsGranted capabilities name
  allowed-IsGranted name = (granted, listed)
    where
      split_at :
          contains name allowed
          ≡ (contains name core_imports || contains name (declared_imports capabilities))
      split_at = contains-append name core_imports (declared_imports capabilities)

      granted : contains name allowed ≡ true → IsGranted capabilities name
      granted h = elim (Bool-cases (contains name core_imports)) [
        | inl e ↦ inl e
        | inr e ↦ inr (contains-declared_imports capabilities name (ground (arith, split_at, h, e)))
      ]

      listed : IsGranted capabilities name → contains name allowed ≡ true
      listed (inl e) = split_at ∙ rw e refl
      listed (inr (c, m, e)) =
          ground (arith, split_at, declared_imports-contains capabilities name c m e)

  import_allowed :
      (i : Import)
      → (str_eq i.module_name "barbacane" && not (contains i.name allowed)) ≡ false
      → IsAllowed capabilities i
  import_allowed i e own = (allowed-IsGranted i.name).0 (still (contains i.name allowed) own e)
    where
      still :
          (b : Bool)
          → str_eq i.module_name "barbacane" ≡ true
          → (str_eq i.module_name "barbacane" && not b) ≡ false
          → b ≡ true
      still true p q = refl
      still false p q = ground (arith, p, q)

  check_imports-All :
      (imports : List Import)
      → check_imports allowed imports ≡ ok tt
      → All (IsAllowed capabilities) imports
  unfolding check_imports
  check_imports-All [] h = tt
  check_imports-All (i ∷ imports) h =
      by_case (str_eq i.module_name "barbacane" && not (contains i.name allowed)) refl
        (check_imports-All imports) h
    where
      by_case :
          (b : Bool)
          → (str_eq i.module_name "barbacane" && not (contains i.name allowed)) ≡ b
          → (check_imports allowed imports ≡ ok tt → All (IsAllowed capabilities) imports)
          → (if b then err (undeclared_import i.name) else check_imports allowed imports) ≡ ok tt
          → IsAllowed capabilities i × All (IsAllowed capabilities) imports
      by_case true e rest g = absurd (cc g)
      by_case false e rest g = (import_allowed i e, rest g)

  All-check_imports :
      (imports : List Import)
      → All (IsAllowed capabilities) imports
      → check_imports allowed imports ≡ ok tt
  unfolding check_imports
  All-check_imports [] h = refl
  All-check_imports (i ∷ imports) h =
      by_case (str_eq i.module_name "barbacane") (contains i.name allowed)
        (λ own. (allowed-IsGranted i.name).1 (h.0 own)) (All-check_imports imports h.1)
    where
      by_case :
          (own known : Bool)
          → (own ≡ true → known ≡ true)
          → check_imports allowed imports ≡ ok tt
          → (if own && not known
              then err (undeclared_import i.name)
              else check_imports allowed imports)
            ≡ ok tt
      by_case false known p q = q
      by_case true true p q = q
      by_case true false p q = absurd (cc (p refl))

-- A module's imports are accepted exactly if each of those from `barbacane` is a host function of the
-- plugin contract or of a capability that the plugin declares.
pub validate_imports-iff-IsAllowed :
    (wasm : Module) (capabilities : List String)
    → (validate_imports wasm capabilities ≡ ok tt) ↔ All (IsAllowed capabilities) wasm.imports
unfolding validate_imports
validate_imports-iff-IsAllowed wasm capabilities =
    (check_imports-All capabilities wasm.imports, All-check_imports capabilities wasm.imports)
