-- ===== src/Validator/Escapes.antt =====
-- crates/barbacane/src/validator.rs: what `percent_decode` makes of escaped bytes.
use barbacane.Common.{
  ℕ, zero, suc, String, ◌+◌, ◌*◌, ◌≡◌, ◌≢◌, ◌⊎◌, inl, inr, refl, ap, ◌∙◌, Bool-cases, false, ◌==◌,
  List, [], ◌∷◌, some, get_elem?, arith,
}
use barbacane.Validator.Decode.{Utf8, hex_val, decode_byte, decode_bytes, percent_decode}

-- The hexadecimal digits of RFC 3986, each at its value, as they are in the two cases.
abbrev lower_digits : List ℕ
lower_digits =
    b'0' ∷ b'1' ∷ b'2' ∷ b'3' ∷ b'4' ∷ b'5' ∷ b'6' ∷ b'7' ∷ b'8' ∷ b'9' ∷ b'a' ∷ b'b' ∷ b'c' ∷ b'd'
    ∷ b'e' ∷ b'f' ∷ []

abbrev upper_digits : List ℕ
upper_digits =
    b'0' ∷ b'1' ∷ b'2' ∷ b'3' ∷ b'4' ∷ b'5' ∷ b'6' ∷ b'7' ∷ b'8' ∷ b'9' ∷ b'A' ∷ b'B' ∷ b'C' ∷ b'D'
    ∷ b'E' ∷ b'F' ∷ []

-- The byte is a digit of the value.
abbrev pub IsDigit : ℕ → ℕ → Type 0
IsDigit c h = (get_elem? lower_digits h ≡ some c) ⊎ (get_elem? upper_digits h ≡ some c)

-- The ways to write bytes in a URL component: a byte that is no sign of the escapes as it is, a space
-- as a plus sign, and any byte by two hexadecimal digits, in lower or upper case.
pub data Escapes : List ℕ → List ℕ → Type 0 where
  nothing : Escapes [] []
  plain :
      (b : ℕ) (bytes text : List ℕ)
      → b ≢ b'%'
      → b ≢ b'+'
      → Escapes bytes text
      → Escapes (b ∷ bytes) (b ∷ text)
  space : (bytes text : List ℕ) → Escapes bytes text → Escapes (b' ' ∷ bytes) (b'+' ∷ text)
  hex :
      (h l c d : ℕ) (bytes text : List ℕ)
      → IsDigit c h
      → IsDigit d l
      → Escapes bytes text
      → Escapes ((h * 16 + l) ∷ bytes) (b'%' ∷ (c ∷ (d ∷ text)))

-- The digits from a value on are decoded to their values.
abbrev Valued : ℕ → List ℕ → Type 0
Valued n [] = Unit
Valued n (d ∷ ds) = (hex_val d ≡ some n) × Valued (suc n) ds

Valued-get_elem? :
    (n : ℕ) (ds : List ℕ) (h c : ℕ)
    → Valued n ds
    → get_elem? ds h ≡ some c
    → hex_val c ≡ some (h + n)
Valued-get_elem? n [] h c v e = absurd cc
Valued-get_elem? n (d ∷ ds) zero c v e =
    let same : d ≡ c = cc in rw (← same) (v.0 ∙ ap some (omega arith))
Valued-get_elem? n (d ∷ ds) (suc h) c v e =
    Valued-get_elem? (suc n) ds h c v.1 e ∙ ap some (omega arith)

lower_digits-Valued : Valued 0 lower_digits
unfolding hex_val
lower_digits-Valued = (
  refl,
  (
    refl,
    (
      refl,
      (
        refl,
        (
          refl,
          (
            refl,
            (refl, (refl, (refl, (refl, (refl, (refl, (refl, (refl, (refl, (refl, tt)))))))))),
          ),
        ),
      ),
    ),
  ),
)

upper_digits-Valued : Valued 0 upper_digits
unfolding hex_val
upper_digits-Valued = (
  refl,
  (
    refl,
    (
      refl,
      (
        refl,
        (
          refl,
          (
            refl,
            (refl, (refl, (refl, (refl, (refl, (refl, (refl, (refl, (refl, (refl, tt)))))))))),
          ),
        ),
      ),
    ),
  ),
)

hex_val-IsDigit : (c h : ℕ) → IsDigit c h → hex_val c ≡ some h
hex_val-IsDigit c h (inl e) =
    Valued-get_elem? 0 lower_digits h c lower_digits-Valued e ∙ ap some (omega arith)
hex_val-IsDigit c h (inr e) =
    Valued-get_elem? 0 upper_digits h c upper_digits-Valued e ∙ ap some (omega arith)

decode_bytes-other :
    (b : ℕ) (text : List ℕ)
    → (b == b'%') ≡ false
    → decode_bytes (b ∷ text) ≡ decode_byte b (decode_bytes text)
unfolding decode_bytes
decode_bytes-other b [] h = refl
decode_bytes-other b (c ∷ []) h = refl
decode_bytes-other b (c ∷ (d ∷ text)) h = rw h refl

is_byte-false : (b c : ℕ) → b ≢ c → (b == c) ≡ false
is_byte-false b c h = elim (Bool-cases (b == c)) [
  | inl e ↦ absurd (h (ground (arith, e)))
  | inr e ↦ e
]

decode_bytes-Escapes : (bytes text : List ℕ) → Escapes bytes text → decode_bytes text ≡ bytes
unfolding decode_bytes
decode_bytes-Escapes _ _ nothing = refl
decode_bytes-Escapes _ _ (plain b bytes text h g e) =
    decode_bytes-other b text (is_byte-false b b'%' h)
    ∙ rw (is_byte-false b b'+' g, decode_bytes-Escapes bytes text e) refl
decode_bytes-Escapes _ _ (space bytes text e) =
    decode_bytes-other b'+' text refl ∙ rw (decode_bytes-Escapes bytes text e) refl
decode_bytes-Escapes _ _ (hex h l c d bytes text p q e) =
    rw (hex_val-IsDigit c h p, hex_val-IsDigit d l q, decode_bytes-Escapes bytes text e) refl

-- However bytes are escaped in a text, `percent_decode` of the text is these bytes, read as UTF-8 with
-- what is no UTF-8 replaced.
pub percent_decode-Escapes :
    (utf8 : Utf8) (bytes : List ℕ) (input : String)
    → Escapes bytes (utf8.as_bytes input)
    → percent_decode utf8 input ≡ utf8.from_utf8_lossy bytes
percent_decode-Escapes utf8 bytes input e =
    ap utf8.from_utf8_lossy (decode_bytes-Escapes bytes (utf8.as_bytes input) e)
