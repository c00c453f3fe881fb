-- ===== src/Common/Assoc.antt =====
-- `HashMap<String, V>` as an association list. The order of the list stands for the map's
-- iteration order, which Rust leaves open.
use Prim.Native.Nat.{suc, ◌+◌, ◌≤◌}
use Prim.Native.String.{String}
use mathlib.Core.Path.{◌≡◌, refl}
use mathlib.Core.Bool.{Bool, true, false}
use mathlib.Core.List.{List, [], ◌∷◌, Memᴰ}
use mathlib.Core.Option.{Option, none, some}
use native.Mathlib.Omega.{arith}
use barbacane.Common.Tests.{if◌then◌else◌}
use barbacane.Common.Text.{str_eq, str_eq_iff, str_eq_refl}
use barbacane.Common.Lists.{length, retain}
use barbacane.Common.Optional.{is_some, unwrap_or}

abbrev pub Dict {ℓ} : Type ℓ → Type ℓ
Dict V = List (String × V)

module _ {ℓ} {V : Type ℓ} where
  unfoldable pub lookup : String → Dict V → Option V
  lookup k [] = none
  lookup k ((j, v) ∷ m) = if str_eq j k then some v else lookup k m

  unfoldable pub insert : String → V → Dict V → Dict V
  insert k v [] = (k, v) ∷ []
  insert k v ((j, w) ∷ m) = if str_eq j k then (j, v) ∷ m else (j, w) ∷ insert k v m

  unfoldable pub remove : String → Dict V → Dict V
  remove k [] = []
  remove k ((j, w) ∷ m) = if str_eq j k then m else (j, w) ∷ remove k m

  abbrev pub contains_key : String → Dict V → Bool
  contains_key k m = is_some (lookup k m)

  abbrev pub keys : Dict V → List String
  keys [] = []
  keys ((j, w) ∷ m) = j ∷ keys m

  -- A map holds a key once.
  abbrev pub HasUniqueKeys : Dict V → Type ℓ
  HasUniqueKeys [] = Unit
  HasUniqueKeys ((j, w) ∷ m) = (lookup j m ≡ none) × HasUniqueKeys m

module _ {ℓ} {V : Type ℓ} where
  pub lookup-insert :
      (k j : String) (v : V) (m : Dict V)
      → lookup j (insert k v m) ≡ (if str_eq k j then some v else lookup j m)
  unfolding lookup insert
  lookup-insert k j v [] = refl
  lookup-insert k j v ((i, w) ∷ m) =
      ground (arith, str_eq_iff k j, str_eq_iff i k, str_eq_iff i j, lookup-insert k j v m)

  pub lookup-remove :
      (k j : String) (m : Dict V)
      → HasUniqueKeys m
      → lookup j (remove k m) ≡ (if str_eq k j then none else lookup j m)
  unfolding lookup remove
  lookup-remove k j [] u = ground arith
  lookup-remove k j ((i, w) ∷ m) u =
      ground (arith, str_eq_iff k j, str_eq_iff i k, str_eq_iff i j, lookup-remove k j m u.1)

  pub length-insert :
      (k : String) (v : V) (m : Dict V)
      → length (insert k v m) ≡ (if contains_key k m then length m else length m + 1)
  unfolding lookup insert
  length-insert k v [] = ground arith
  length-insert k v ((i, w) ∷ m) = ground (arith, length-insert k v m)

  pub insert-HasUniqueKeys :
      (k : String) (v : V) (m : Dict V) → HasUniqueKeys m → HasUniqueKeys (insert k v m)
  unfolding lookup insert
  insert-HasUniqueKeys k v [] u = (refl, tt)
  insert-HasUniqueKeys k v ((i, w) ∷ m) u =
      ground (
        arith,
        str_eq_iff k i,
        str_eq_iff i k,
        lookup-insert k i v m,
        insert-HasUniqueKeys k v m u.1,
      )

  pub length-remove-le : (k : String) (m : Dict V) → length (remove k m) ≤ length m
  unfolding remove
  length-remove-le k [] = omega arith
  length-remove-le k ((i, w) ∷ m) = ground (arith, length-remove-le k m)

  pub length-remove :
      (k : String) (m : Dict V) (v : V) → lookup k m ≡ some v → suc (length (remove k m)) ≡ length m
  unfolding lookup remove
  length-remove k [] v e = cc
  length-remove k ((i, w) ∷ m) v e = ground (arith, length-remove k m v)

  pub remove-HasUniqueKeys :
      (k : String) (m : Dict V) → HasUniqueKeys m → HasUniqueKeys (remove k m)
  unfolding lookup remove
  remove-HasUniqueKeys k [] u = tt
  remove-HasUniqueKeys k ((i, w) ∷ m) u =
      ground (
        arith,
        str_eq_iff k i,
        str_eq_iff i k,
        lookup-remove k i m u.1,
        remove-HasUniqueKeys k m u.1,
      )

  lookup-retain-none :
      (p : String × V → Bool) (k : String) (m : Dict V)
      → lookup k m ≡ none
      → lookup k (retain p m) ≡ none
  unfolding lookup
  lookup-retain-none p k [] e = refl
  lookup-retain-none p k ((i, w) ∷ m) e = ground (arith, lookup-retain-none p k m)

  abbrev keep_if : Bool → V → Option V
  keep_if true v = some v
  keep_if false v = none

  abbrev pub filter_value : (String × V → Bool) → String → Option V → Option V
  filter_value p k none = none
  filter_value p k (some v) = keep_if (p (k, v)) v

  -- `HashMap::retain` filters what a lookup finds.
  pub lookup-retain :
      (p : String × V → Bool) (k : String) (m : Dict V)
      → HasUniqueKeys m
      → lookup k (retain p m) ≡ filter_value p k (lookup k m)
  unfolding lookup
  lookup-retain p k [] u = refl
  lookup-retain p k ((i, w) ∷ m) u =
      ground (arith, str_eq_iff i k, lookup-retain p k m u.1, lookup-retain-none p k m)

  pub retain-HasUniqueKeys :
      (p : String × V → Bool) (m : Dict V) → HasUniqueKeys m → HasUniqueKeys (retain p m)
  retain-HasUniqueKeys p [] u = tt
  retain-HasUniqueKeys p ((i, w) ∷ m) u =
      ground (arith, lookup-retain-none p i m u.0, retain-HasUniqueKeys p m u.1)

-- A property of every value of a map.
abbrev pub AllValues {ℓ κ} : {V : Type ℓ} → (V → Type κ) → Dict V → Type κ
AllValues P [] = Unit
AllValues P ((j, w) ∷ m) = P w × AllValues P m

module _ {ℓ κ} {V : Type ℓ} (P : V → Type κ) where
  pub insert-AllValues :
      (k : String) (v : V) (m : Dict V) → P v → AllValues P m → AllValues P (insert k v m)
  unfolding insert
  insert-AllValues k v [] p h = (p, tt)
  insert-AllValues k v ((j, w) ∷ m) p h = ground (arith, insert-AllValues k v m p h.1)

  pub remove-AllValues : (k : String) (m : Dict V) → AllValues P m → AllValues P (remove k m)
  unfolding remove
  remove-AllValues k [] h = tt
  remove-AllValues k ((j, w) ∷ m) h = ground (arith, remove-AllValues k m h.1)

  pub retain-AllValues :
      (p : String × V → Bool) (m : Dict V) → AllValues P m → AllValues P (retain p m)
  retain-AllValues p [] h = tt
  retain-AllValues p ((j, w) ∷ m) h = ground (arith, retain-AllValues p m h.1)

  pub lookup-AllValues :
      (k : String) (m : Dict V) (d : V) → P d → AllValues P m → P (unwrap_or (lookup k m) d)
  unfolding lookup
  lookup-AllValues k [] d p h = p
  lookup-AllValues k ((j, w) ∷ m) d p h = ground (arith, lookup-AllValues k m d p h.1)

module _ {ℓ} {V : Type ℓ} where
  pub lookup-Memᴰ :
      (e : String × V) (m : Dict V) → Memᴰ e m → HasUniqueKeys m → lookup e.0 m ≡ some e.1
  unfolding lookup
  lookup-Memᴰ e [] h u = elim h [ ]
  lookup-Memᴰ e (x ∷ m) (Memᴰ.head p) u = rw p (rw (str_eq_refl x.0))
  lookup-Memᴰ e (x ∷ m) (Memᴰ.tail h) u =
      let ih = lookup-Memᴰ e m h u.1 in ground (arith, ih, str_eq_iff x.0 e.0)
