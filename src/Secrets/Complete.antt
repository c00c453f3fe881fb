-- ===== src/Secrets/Complete.antt =====
-- crates/barbacane-wasm/src/secrets.rs: once all references resolve, every configuration gets them.
use barbacane.Common.{
  String, ◌≡◌, refl, ◌∙◌, true, false, ◌||◌, if◌then◌else◌, List, [], ◌∷◌, ◌++◌, Option, none, some,
  is_empty, All, subst, contains, contains-sort, Dict, lookup, lookup-insert, sort, str_eq,
  str_eq_iff, Bool-cases, inl, inr, arith,
}
use barbacane.Secrets.Json.{Value}
use barbacane.Secrets.Store.{SecretsStore, get, resolve_config_secrets}
use barbacane.Secrets.Resolve.{
  SecretsError, Result, ok, err, Host, resolve_secret, dedup_after, dedup, record_result,
  flat_collect, resolve_loop, collected, resolve_all_secrets,
}
use barbacane.Secrets.Substitute.{IsReplaced, All-IsReplaced}

contains-dedup_after :
    (g x : String) (xs : List String)
    → (str_eq x g || contains g (dedup_after x xs)) ≡ (str_eq x g || contains g xs)
contains-dedup_after g x [] = refl
contains-dedup_after g x (y ∷ ys) =
    ground (arith, str_eq_iff x y, contains-dedup_after g x ys, contains-dedup_after g y ys)

contains-dedup : (g : String) (xs : List String) → contains g (dedup xs) ≡ contains g xs
contains-dedup g [] = refl
contains-dedup g (x ∷ xs) = contains-dedup_after g x xs

abbrev pub ok_of : Result String SecretsError → Option String
ok_of (ok v) = some v
ok_of (err e) = none

All_contains :
    (P : String → Type 0) (k : String) (refs : List String)
    → All P refs
    → contains k refs ≡ true
    → P k
All_contains P k [] p c = cc
All_contains P k (x ∷ refs) p c = elim (Bool-cases (str_eq x k)) [
  | inl e ↦ subst P ((str_eq_iff x k).0 e) p.0
  | inr e ↦ All_contains P k refs p.1 (ground arith)
]

ok_of-some : (r : Result String SecretsError) (v : String) → ok_of r ≡ some v → r ≡ ok v
ok_of-some (ok w) v e = cc
ok_of-some (err x) v e = cc

module _ (h : Host) where
  abbrev pub value_of : String → Option String
  value_of reference = ok_of (resolve_secret h reference)

  abbrev Done : Type 0
  Done = Dict String × List SecretsError

  -- Errors are never dropped, and without any every reference has its value.
  record IsLoop (refs : List String) (done final : Done) : Type 0 where
    no_error_before : done.1 ≡ []
    values :
        (k : String) → lookup k final.0 ≡ (if contains k refs then value_of k else lookup k done.0)
    all_ok : All (λ k. (v : String) × (value_of k ≡ some v)) refs

  append_nonempty : (es : List SecretsError) (e : SecretsError) → is_empty (es ++ e ∷ []) ≡ false
  append_nonempty [] e = refl
  append_nonempty (x ∷ es) e = refl

  step-IsLoop :
      (reference : String) (refs : List String) (done final : Done) (r : Result String SecretsError)
      → resolve_secret h reference ≡ r
      → IsLoop refs (record_result reference r done) final
      → IsLoop (reference ∷ refs) done final
  step-IsLoop reference refs (resolved, errors) final (ok v) p l = record {
    no_error_before = l.no_error_before;
    values = λ k.
        l.values k ∙ ground (arith, str_eq_iff reference k, lookup-insert reference k v resolved);
    all_ok = ((v, rw p), l.all_ok);
  }
  step-IsLoop reference refs (resolved, errors) final (err e) p l =
      let bad = append_nonempty errors e in
      let good = l.no_error_before in elim (clash bad good) [ ]
    where
      clash : is_empty (errors ++ e ∷ []) ≡ false → errors ++ e ∷ [] ≡ [] → ⊥
      clash bad good = cc

  resolve_loop-IsLoop :
      (refs : List String) (done : Done)
      → (resolve_loop h refs done).1 ≡ []
      → IsLoop refs done (resolve_loop h refs done)
  resolve_loop-IsLoop [] done e = record { no_error_before = e; values = λ k. refl; all_ok = tt }
  resolve_loop-IsLoop (reference ∷ refs) done e =
      step-IsLoop reference refs done _ (resolve_secret h reference) refl
        (resolve_loop-IsLoop refs (record_result reference (resolve_secret h reference) done) e)

  collected-IsLoop :
      (refs : List String) (store : SecretsStore) (done : Done)
      → collected done ≡ ok store
      → ((done.1 ≡ []) → IsLoop refs ([], []) done)
      → IsLoop refs ([], []) (store.secrets, [])
  collected-IsLoop refs store (resolved, []) e l =
      let same : resolved ≡ store.secrets = cc in rw (← same) (l refl)
  collected-IsLoop refs store (resolved, (x ∷ errors)) e l = cc

  resolve_all_secrets-IsLoop :
      (configs : List Value) (store : SecretsStore)
      → resolve_all_secrets h configs ≡ ok store
      → IsLoop (dedup (sort (flat_collect configs))) ([], []) (store.secrets, [])
  unfolding resolve_all_secrets
  resolve_all_secrets-IsLoop configs store e =
      let refs = dedup (sort (flat_collect configs)) in
      collected-IsLoop refs store (resolve_loop h refs ([], [])) e
        (resolve_loop-IsLoop refs ([], []))

  contains-refs :
      (k : String) (refs : List String) → contains k (dedup (sort refs)) ≡ contains k refs
  contains-refs k refs = contains-dedup k (sort refs) ∙ contains-sort k refs

  -- If all secrets are resolved, every reference in every configuration has resolved, and the store
  -- holds the value that it resolved to.
  pub resolve_all_secrets_complete :
      (configs : List Value) (store : SecretsStore) (reference : String)
      → resolve_all_secrets h configs ≡ ok store
      → contains reference (flat_collect configs) ≡ true
      → (v : String) × (resolve_secret h reference ≡ ok v) × (get store reference ≡ some v)
  unfolding get
  resolve_all_secrets_complete configs store reference e c =
      let l = resolve_all_secrets-IsLoop configs store e in
      let c' = contains-refs reference (flat_collect configs) ∙ c in
      let (v, p) =
        All_contains (λ k. (v : String) × (value_of k ≡ some v)) reference _ l.all_ok c' in
      (v, ok_of-some (resolve_secret h reference) v p, l.values reference ∙ rw (c', p))

  -- If all secrets are resolved, each configuration becomes the one with every reference replaced by
  -- the value that it resolves to, at any depth, and nothing else changed: in particular every
  -- reference in it has resolved.
  pub resolve_all_secrets-IsReplaced :
      (configs : List Value) (store : SecretsStore)
      → resolve_all_secrets h configs ≡ ok store
      → All
          (λ c.
            IsReplaced
              (λ reference v. resolve_secret h reference ≡ ok v)
              c
              (resolve_config_secrets c store))
          configs
  resolve_all_secrets-IsReplaced configs store e =
      All-IsReplaced store (λ reference v. resolve_secret h reference ≡ ok v) configs
        (λ k c. resolve_all_secrets_complete configs store k e c)
