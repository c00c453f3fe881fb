-- ===== src/Common/Results.antt =====
-- The standard library's `Result`.
use mathlib.Core.Path.{◌≡◌, refl}
use mathlib.Core.Logic.{◌⊎◌, inl, inr}

pub data Result (A : Type 0) (E : Type 0) : Type 0 where
  ok : A → Result A E
  err : E → Result A E

module _ {A E : Type 0} where
  pub Result-cases : (r : Result A E) → ((a : A) × (r ≡ ok a)) ⊎ ((e : E) × (r ≡ err e))
  Result-cases (ok a) = inl (a, refl)
  Result-cases (err e) = inr (e, refl)
