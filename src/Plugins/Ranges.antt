-- ===== src/Plugins/Ranges.antt =====
-- plugins/ip-restriction/src/lib.rs: the comparison of octets against the addresses as numbers.
use barbacane.Common.{
  ℕ, zero, suc, ◌+◌, ◌-◌, ◌*◌, ◌/◌, ◌^◌, ◌≤◌, ◌<◌, min, ◌≡◌, refl, ap, sym, ◌∙◌, ◌↔◌, true, false,
  ◌&&◌, ◌==◌, leb, ltb, if◌then◌else◌, List, [], ◌∷◌, All, length, arith, Bool-cases, inl, inr,
}
use native.Mathlib.Nat.{
  mul-add-div_right, div-lt_iff_lt-mul, div-div-eq-div-mul, div-eq_of_lt, mul_assoc, one-le-pow,
  pow-suc, mul-le-mul_right, eq_of_mul-eq-mul_right,
}
use barbacane.Plugins.IpRestriction.{masked, same_bits, bits_match}

-- An address as a number, its first octet the most significant.
unfoldable pub value : List ℕ → ℕ
value [] = 0
value (x ∷ xs) = x * 2 ^ (8 * length xs) + value xs

pow_pos : (n : ℕ) → 0 < 2 ^ n
pow_pos n = omega (arith, one-le-pow n 2 (omega arith))

pow_add : (a b : ℕ) → 2 ^ (a + b) ≡ 2 ^ a * 2 ^ b
pow_add a zero = let e : a + 0 ≡ a = omega arith in rw e (omega arith)
pow_add a (suc b) =
    let e : a + suc b ≡ suc (a + b) = omega arith in
    ap (λ k. 2 ^ k) e
    ∙ pow-suc 2 (a + b)
    ∙ ap (λ k. k * 2) (pow_add a b)
    ∙ mul_assoc (2 ^ a) (2 ^ b) 2
    ∙ ap (λ k. 2 ^ a * k) (sym (pow-suc 2 b))

abbrev pub AreOctets : List ℕ → Type 0
AreOctets = All (λ x. x < 256)

value_lt : (xs : List ℕ) → AreOctets xs → value xs < 2 ^ (8 * length xs)
unfolding value
value_lt [] o = omega arith
value_lt (x ∷ xs) o =
    let ih = value_lt xs o.1 in
    let m = 2 ^ (8 * length xs) in
    let e : 2 ^ (8 * suc (length xs)) ≡ 2 ^ 8 * m =
      ap (λ k. 2 ^ k) (omega arith) ∙ pow_add 8 (8 * length xs) in
    let le : x * m ≤ 255 * m = mul-le-mul_right m (omega (arith, o.0)) in
    rw e (omega (arith, ih, le))

-- A number in two digits, the lower one below the base.
upper_digit : (x v q : ℕ) → v < q → (x * q + v) / q ≡ x
upper_digit x v q h = mul-add-div_right (omega (arith, h)) x v ∙ rw (div-eq_of_lt h) (omega arith)

digits_eq : (x y v w q : ℕ) → v < q → w < q → (x * q + v ≡ y * q + w) ↔ ((x ≡ y) × (v ≡ w))
digits_eq x y v w q hv hw = (split_digits, λ p. rw (p.0, p.1))
  where
    split_digits : x * q + v ≡ y * q + w → (x ≡ y) × (v ≡ w)
    split_digits e =
        let same : x ≡ y = sym (upper_digit x v q hv) ∙ ap (λ n. n / q) e ∙ upper_digit y w q hw in
        let weight : x * q ≡ y * q = ap (λ n. n * q) same in (same, omega (arith, e, weight))

-- Dividing by less than the weight of the upper digit keeps that digit.
divide_lower : (x v q d : ℕ) → 0 < d → (x * (q * d) + v) / d ≡ x * q + v / d
divide_lower x v q d pos = rw (← mul_assoc x q d) (mul-add-div_right pos (x * q) v)

lower_lt : (v q d : ℕ) → 0 < d → v < q * d → v / d < q
lower_lt v q d pos h = (div-lt_iff_lt-mul pos).1 h

-- Dividing by a multiple of the weight of the upper digit leaves that digit only.
divide_upper : (x v m d : ℕ) → v < m → (x * m + v) / (m * d) ≡ x / d
divide_upper x v m d h =
    sym (div-div-eq-div-mul (x * m + v) m d) ∙ ap (λ n. n / d) (upper_digit x v m h)

masked_eq : (k x y : ℕ) → (masked k x == masked k y) ≡ (x / 2 ^ (8 - k) == y / 2 ^ (8 - k))
masked_eq k x y = ground (
  arith,
  eq_of_mul-eq-mul_right (2 ^ (8 - k)) (pow_pos (8 - k)) (x / 2 ^ (8 - k)) (y / 2 ^ (8 - k)),
)

eq_of_iff :
    (a b c d e f : ℕ)
    → (a ≡ b) ↔ ((c ≡ d) × (e ≡ f))
    → (if c == d then e == f else false) ≡ (a == b)
eq_of_iff a b c d e f h = ground (arith, h)

eq_refl : (n : ℕ) → true ≡ (n == n)
eq_refl n = ground arith

same_bits-nil : (ys : List ℕ) (p : ℕ) → same_bits [] ys p ≡ true
unfolding same_bits
same_bits-nil ys p = refl

same_bits-zero : (xs ys : List ℕ) → same_bits xs ys 0 ≡ true
unfolding same_bits
same_bits-zero [] ys = refl
same_bits-zero (x ∷ xs) [] = refl
same_bits-zero (x ∷ xs) (y ∷ ys) = refl

-- The first `p < 8` bits of an address lie in its first octet.
same_bits_part :
    (x y : ℕ) (xs ys : List ℕ) (p : ℕ)
    → 0 < p
    → p < 8
    → same_bits (x ∷ xs) (y ∷ ys) p ≡ (x / 2 ^ (8 - p) == y / 2 ^ (8 - p))
unfolding same_bits
same_bits_part x y xs ys p pos part =
    let take : min p 8 ≡ p = omega arith in
    let left : p - p ≡ 0 = omega arith in
    rw (take, left, same_bits-zero xs ys) (ground (arith, masked_eq p x y))

-- The first octet is compared as a whole, and the rest of the bits behind it.
same_bits_whole :
    (x y : ℕ) (xs ys : List ℕ) (p : ℕ)
    → 8 ≤ p
    → same_bits (x ∷ xs) (y ∷ ys) p ≡ (if x == y then same_bits xs ys (p - 8) else false)
unfolding same_bits
same_bits_whole x y xs ys p whole = let take : min p 8 ≡ 8 = omega arith in rw take (ground arith)

value_none : (xs : List ℕ) (r : ℕ) → AreOctets xs → r ≡ 8 * length xs → value xs / 2 ^ r ≡ 0
value_none xs r o e = rw e (div-eq_of_lt (value_lt xs o))

value_part :
    (x : ℕ) (xs : List ℕ) (p r : ℕ)
    → AreOctets xs
    → p < 8
    → p + r ≡ 8 * suc (length xs)
    → value (x ∷ xs) / 2 ^ r ≡ x / 2 ^ (8 - p)
unfolding value
value_part x xs p r o part e =
    let m = 8 * length xs in
    let sum : r ≡ m + (8 - p) = omega arith in
    rw (sum, pow_add m (8 - p)) (divide_upper x (value xs) (2 ^ m) (2 ^ (8 - p)) (value_lt xs o))

value_whole :
    (x : ℕ) (xs : List ℕ) (p r : ℕ)
    → 8 ≤ p
    → p + r ≡ 8 * suc (length xs)
    → value (x ∷ xs) / 2 ^ r ≡ x * 2 ^ (p - 8) + value xs / 2 ^ r
unfolding value
value_whole x xs p r whole e =
    let sum : 8 * length xs ≡ (p - 8) + r = omega arith in
    let weight : 2 ^ (8 * length xs) ≡ 2 ^ (p - 8) * 2 ^ r =
      ap (λ k. 2 ^ k) sum ∙ pow_add (p - 8) r in
    rw weight (divide_lower x (value xs) (2 ^ (p - 8)) (2 ^ r) (pow_pos r))

value_lower :
    (xs : List ℕ) (q r : ℕ) → AreOctets xs → q + r ≡ 8 * length xs → value xs / 2 ^ r < 2 ^ q
value_lower xs q r o e =
    let weight : 2 ^ (8 * length xs) ≡ 2 ^ q * 2 ^ r = ap (λ k. 2 ^ k) (sym e) ∙ pow_add q r in
    lower_lt (value xs) (2 ^ q) (2 ^ r) (pow_pos r) (omega (arith, value_lt xs o, weight))

same_bits-value :
    (xs ys : List ℕ) (p r : ℕ)
    → length ys ≡ length xs
    → AreOctets xs
    → AreOctets ys
    → p + r ≡ 8 * length xs
    → same_bits xs ys p ≡ (value xs / 2 ^ r == value ys / 2 ^ r)
same_bits-value [] [] p r l o o' e = same_bits-nil [] p ∙ eq_refl (value [] / 2 ^ r)
same_bits-value [] (y ∷ ys) p r l o o' e = cc
same_bits-value (x ∷ xs) [] p r l o o' e = cc
same_bits-value (x ∷ xs) (y ∷ ys) p r l o o' e =
    let e' : p + r ≡ 8 * suc (length ys) = omega (arith, e, l) in
    elim (Bool-cases (p == 0)) [
      | inl none ↦
          let zero_bits : p ≡ 0 = ground arith in
          rw (
            zero_bits,
            same_bits-zero (x ∷ xs) (y ∷ ys),
            value_none (x ∷ xs) r o (omega (arith, e, zero_bits)),
            value_none (y ∷ ys) r o' (omega (arith, e', zero_bits)),
          )
      | inr some ↦ elim (Bool-cases (ltb p 8)) [
        | inl part ↦ rw (
          same_bits_part x y xs ys p (ground arith) (ground arith),
          value_part x xs p r o.1 (ground arith) e,
          value_part y ys p r o'.1 (ground arith) e',
        )
        | inr more ↦
            let whole : 8 ≤ p = ground arith in
            let ih =
              same_bits-value xs ys (p - 8) r (omega (arith, l)) o.1 o'.1
                (omega (arith, e, whole)) in
            rw
              (
                same_bits_whole x y xs ys p whole,
                ih,
                value_whole x xs p r whole e,
                value_whole y ys p r whole e',
              )
              (eq_of_iff _ _ x y (value xs / 2 ^ r) (value ys / 2 ^ r) (
                digits_eq x y (value xs / 2 ^ r) (value ys / 2 ^ r) (2 ^ (p - 8))
                  (value_lower xs (p - 8) r o.1 (omega (arith, e, whole)))
                  (value_lower ys (p - 8) r o'.1 (omega (arith, e', whole)))))
      ]
    ]

-- Two addresses of as many octets match in a prefix exactly if the prefix is no longer than the
-- address and the addresses, as numbers, agree in all but the bits behind the prefix.
pub bits_match-value :
    (a b : List ℕ) (prefix_len : ℕ)
    → length b ≡ length a
    → AreOctets a
    → AreOctets b
    → let bits = 8 * length a in
      bits_match a b prefix_len bits ≡ (
        leb prefix_len bits
        && (value a / 2 ^ (bits - prefix_len) == value b / 2 ^ (bits - prefix_len)))
unfolding bits_match
bits_match-value a b prefix_len l o o' = elim (Bool-cases (ltb (8 * length a) prefix_len)) [
  | inl long ↦ rw long (ground arith)
  | inr fits ↦
      rw (fits, same_bits-value a b prefix_len (8 * length a - prefix_len) l o o' (ground arith))
        (ground arith)
]
