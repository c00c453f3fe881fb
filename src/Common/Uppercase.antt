-- ===== src/Common/Uppercase.antt =====
-- `to_uppercase` a second time changes nothing.
use Prim.Native.Char.{Char, code}
use Prim.Native.Nat.{ℕ, zero, suc, ◌<◌, ◌-◌}
use Prim.Native.String.{String, [], ◌∷◌, char_at}
use mathlib.Core.Path.{◌≡◌, refl, subst}
use mathlib.Core.Logic.{inl, inr}
use mathlib.Core.Bool.{Bool, true, false, not, ◌&&◌}
use native.Mathlib.Omega.{arith}
use barbacane.Common.Tests.{leb, Bool-cases, ◌==◌, and-eq-true}
use barbacane.Common.Text.{to_uppercase, char_to_uppercase, upper_case}

abbrev pub all_below : ℕ → (ℕ → Bool) → Bool
all_below zero p = true
all_below (suc n) p = p n && all_below n p

pub all_below-lt : (n : ℕ) (p : ℕ → Bool) (k : ℕ) → all_below n p ≡ true → k < n → p k ≡ true
all_below-lt zero p k h l = absurd (omega arith)
all_below-lt (suc n) p k h l = elim (Bool-cases (k == n)) [
  | inl e ↦ subst (λ m. p m ≡ true) (ground (arith, e)) (and-eq-true (p n) _ h).0
  | inr e ↦ all_below-lt n p k (and-eq-true (p n) (all_below n p) h).1 (ground (arith, e, l))
]

abbrev is_lower : Char → Bool
is_lower c = leb b'a' (code c) && leb (code c) b'z'

no_lower : (k : ℕ) → k < 26 → not (is_lower (char_at upper_case k)) ≡ true
no_lower k h = all_below-lt 26 (λ n. not (is_lower (char_at upper_case n))) k refl h

char_to_uppercase-char_to_uppercase :
    (c : Char) → char_to_uppercase (char_to_uppercase c) ≡ char_to_uppercase c
unfolding char_to_uppercase
char_to_uppercase-char_to_uppercase c = elim (Bool-cases (is_lower c)) [
  | inl e ↦ rw e (
      rw
        (lower_is_false (is_lower (char_at upper_case (code c - b'a')))
          (no_lower (code c - b'a') (ground (arith, e))))
        refl)
  | inr e ↦ rw (e, e) refl
]
  where
    lower_is_false : (b : Bool) → not b ≡ true → b ≡ false
    lower_is_false true h = cc
    lower_is_false false h = refl

pub to_uppercase-to_uppercase : (s : String) → to_uppercase (to_uppercase s) ≡ to_uppercase s
unfolding to_uppercase
to_uppercase-to_uppercase [] = refl
to_uppercase-to_uppercase (c ∷ s) =
    rw (char_to_uppercase-char_to_uppercase c, to_uppercase-to_uppercase s) refl
