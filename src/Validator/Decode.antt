-- ===== src/Validator/Decode.antt =====
-- crates/barbacane/src/validator.rs: `percent_decode`, on the bytes of a text.
use barbacane.Common.{
  ℕ, ◌+◌, ◌-◌, ◌*◌, ◌&&◌, ◌==◌, leb, if◌then◌else◌, List, [], ◌∷◌, Option, none, some, String,
}

unfoldable pub hex_val : ℕ → Option ℕ
hex_val b =
    if leb b'0' b && leb b b'9'
    then some (b - b'0')
    else if leb b'a' b && leb b b'f'
    then some (b - b'a' + 10)
    else if leb b'A' b && leb b b'F'
    then some (b - b'A' + 10)
    else none

-- The two digits after a percent sign, or what follows if they are none.
abbrev pub escape : Option ℕ → Option ℕ → List ℕ → List ℕ → List ℕ
escape (some h) (some l) after rest = (h * 16 + l) ∷ after
escape _ _ after rest = b'%' ∷ rest

abbrev pub decode_byte : ℕ → List ℕ → List ℕ
decode_byte b rest = (if b == b'+' then b' ' else b) ∷ rest

unfoldable pub decode_bytes : List ℕ → List ℕ
decode_bytes [] = []
decode_bytes (b ∷ []) = decode_byte b []
decode_bytes (b ∷ (c ∷ [])) = decode_byte b (decode_bytes (c ∷ []))
decode_bytes (b ∷ (c ∷ (d ∷ bytes))) =
    let after = decode_bytes bytes in
    let rest = decode_bytes (c ∷ (d ∷ bytes)) in
    if b == b'%' then escape (hex_val c) (hex_val d) after rest else decode_byte b rest

-- UTF-8: the bytes of a text, and a text from bytes with what is no UTF-8 replaced.
pub record Utf8 : Type 0 where
  pub as_bytes : String → List ℕ
  pub from_utf8_lossy : List ℕ → String

abbrev pub percent_decode : Utf8 → String → String
percent_decode utf8 input = utf8.from_utf8_lossy (decode_bytes (utf8.as_bytes input))
