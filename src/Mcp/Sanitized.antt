-- ===== src/Mcp/Sanitized.antt =====
-- crates/barbacane/src/mcp/tools.rs: `sanitize_path_param`.
use Prim.Native.Char.{Char, code}
use Prim.Native.String.{[], ◌∷◌, ◌++◌ as text_append, char_at}
use barbacane.Common.{
  ℕ, String, ◌<◌, ◌≡◌, refl, subst, ap, sym, ◌∙◌, inl, inr, ◌⊎◌, Bool, true, false, not, ◌||◌, ◌==◌,
  if◌then◌else◌, List, [], ◌∷◌, All, any, arith, split, str_eq, str_eq_iff, str_empty,
  starts_with_char, drop_first, Bool-cases,
}
use Prim.Native.String.append as appending
use barbacane.Common.Uppercase.{all_below, all_below-lt}
use barbacane.Common.Results.{Result, ok, err}
use barbacane.Validator.Decode.{Utf8}
use barbacane.Mcp.Arguments.{
  has_code, is_control, is_disallowed, is_slash, is_dot_dot, encode_byte, encode_bytes,
  percent_encode, sanitize_path_param,
}

-- What replaces a placeholder: no character that ends the path, and no segment that goes upwards.
pub record IsSafe (s : String) : Type 0 where
  pub no_control : has_code is_control s ≡ false
  pub no_disallowed : has_code is_disallowed s ≡ false
  pub no_dot_dot : any is_dot_dot (split b'/' s) ≡ false

abbrev pub Bytes : List ℕ → Type 0
Bytes = All (λ b. b < 256)

has_code-append :
    (p : ℕ → Bool) (s t : String)
    → has_code p s ≡ false
    → has_code p t ≡ false
    → has_code p (text_append s t) ≡ false
unfolding has_code
has_code-append p [] t h g = rw (appending.nil t) g
has_code-append p (c ∷ s) t h g =
    rw (appending.cons c s t) (ground (arith, h, has_code-append p s t, g))

not-true : (b : Bool) → not b ≡ true → b ≡ false
not-true true h = cc
not-true false h = refl

has_code-encode_bytes :
    (p : ℕ → Bool) (bytes : List ℕ)
    → all_below 256 (λ b. not (has_code p (encode_byte b))) ≡ true
    → Bytes bytes
    → has_code p (encode_bytes bytes) ≡ false
unfolding encode_bytes has_code
has_code-encode_bytes p [] h g = refl
has_code-encode_bytes p (b ∷ bytes) h g =
    has_code-append p (encode_byte b) (encode_bytes bytes)
      (not-true (has_code p (encode_byte b))
        (all_below-lt 256 (λ k. not (has_code p (encode_byte k))) b h g.0))
      (has_code-encode_bytes p bytes h g.1)

no_slash-split : (s : String) → has_code is_slash s ≡ false → split b'/' s ≡ s ∷ []
unfolding has_code split
no_slash-split [] h = refl
no_slash-split (c ∷ s) h = elim (Bool-cases (code c == b'/')) [
  | inl e ↦ absurd (ground (arith, e, h))
  | inr e ↦ rw (e, no_slash-split s (ground (arith, e, h))) refl
]

-- A text that is not empty and starts otherwise.
abbrev other_start : String → Bool
other_start [] = false
other_start (c ∷ s) = not (code c == b'.')

other_start-append :
    (s t : String) → other_start s ≡ true → starts_with_char b'.' (text_append s t) ≡ false
other_start-append [] t h = cc
other_start-append (c ∷ s) t h = rw (appending.cons c s t) (not-true (code c == b'.') h)

-- Only a dot is encoded as a text that starts with one.
encode_byte-dot :
    (b : ℕ) (rest : String)
    → b < 256
    → starts_with_char b'.' (text_append (encode_byte b) rest) ≡ true
    → b ≡ b'.'
encode_byte-dot b rest h e = elim (Bool-cases (b == b'.')) [
  | inl same ↦ ground (arith, same)
  | inr differs ↦ absurd (
      clash (
        other_start-append (encode_byte b) rest (
          ground (
            arith,
            differs,
            all_below-lt 256 (λ k. k == b'.' || other_start (encode_byte k)) b refl h,
          ))))
]
  where
    clash : starts_with_char b'.' (text_append (encode_byte b) rest) ≡ false → ⊥
    clash g = cc

encode_byte-nonempty :
    (b : ℕ) (rest : String) → b < 256 → str_empty (text_append (encode_byte b) rest) ≡ false
encode_byte-nonempty b rest h =
    append (encode_byte b) (all_below-lt 256 (λ k. not (str_empty (encode_byte k))) b refl h)
  where
    append : (s : String) → not (str_empty s) ≡ true → str_empty (text_append s rest) ≡ false
    append [] e = cc
    append (c ∷ s) e = rw (appending.cons c s rest) refl

encode_bytes-empty : (bytes : List ℕ) → Bytes bytes → encode_bytes bytes ≡ [] → bytes ≡ []
unfolding encode_bytes
encode_bytes-empty [] h e = refl
encode_bytes-empty (b ∷ bytes) h e =
    absurd (clash (encode_byte-nonempty b (encode_bytes bytes) h.0) (ap str_empty e))
  where
    clash : {x : Bool} → x ≡ false → x ≡ true → ⊥
    clash p q = cc

-- The bytes before a text that starts with a dot: a dot, and those of the rest.
encode_bytes-dot :
    (b : ℕ) (bytes : List ℕ) (c : Char) (s : String)
    → code c ≡ b'.'
    → b < 256
    → encode_bytes (b ∷ bytes) ≡ c ∷ s
    → (b ≡ b'.') × (encode_bytes bytes ≡ s)
unfolding encode_bytes
encode_bytes-dot b bytes c s dot h e =
    let b_eq = encode_byte-dot b (encode_bytes bytes) h (rw e (ground (arith, dot))) in
    (
      b_eq,
      ap drop_first (
          ap (◌∷◌ (char_at "." 0)) (sym (appending.nil (encode_bytes bytes)))
          ∙ sym (appending.cons (char_at "." 0) [] (encode_bytes bytes))
          ∙ subst (λ k. text_append (encode_byte k) (encode_bytes bytes) ≡ c ∷ s) b_eq e),
    )

encode_bytes-dots :
    (bytes : List ℕ) → Bytes bytes → encode_bytes bytes ≡ ".." → bytes ≡ b'.' ∷ b'.' ∷ []
unfolding encode_bytes
encode_bytes-dots [] h e = absurd (no_text e)
  where
    no_text : encode_bytes [] ≡ ".." → ⊥
    no_text p = cc
encode_bytes-dots (b ∷ []) h e =
    absurd (no_text (encode_bytes-dot b [] (char_at "." 0) "." refl h.0 e).1)
  where
    no_text : encode_bytes [] ≡ "." → ⊥
    no_text p = cc
encode_bytes-dots (b ∷ (c ∷ bytes)) h e =
    let (b_eq, rest_eq) = encode_bytes-dot b (c ∷ bytes) (char_at "." 0) "." refl h.0 e in
    let (c_eq, end_eq) = encode_bytes-dot c bytes (char_at "." 0) [] refl h.1.0 rest_eq in
    rw (b_eq, c_eq, encode_bytes-empty bytes h.1.1 end_eq) refl

passes :
    {s : String} (refused : Bool) (message : String) (rest : Result String String)
    → (if refused then err message else rest) ≡ ok s
    → (refused ≡ false) × (rest ≡ ok s)
passes true message rest e = cc
passes false message rest e = (refl, e)

abbrev accepted : String → Result String String
accepted s = ok s

ok-injective : {s t : String} → accepted s ≡ accepted t → s ≡ t
ok-injective e = cc

module _ (utf8 : Utf8) (name value : String) (bytes : Bytes (utf8.as_bytes value))
    (dots : utf8.as_bytes value ≡ b'.' ∷ b'.' ∷ [] → value ≡ "..") where
  encoded-IsSafe :
      (str_eq value ".." || str_eq value ".") ≡ false
      → IsSafe (percent_encode utf8 value)
        × (split b'/' (percent_encode utf8 value) ≡ percent_encode utf8 value ∷ [])
  unfolding percent_encode has_code
  encoded-IsSafe e = (
    record {
      no_control = has_code-encode_bytes is_control (utf8.as_bytes value) refl bytes;
      no_disallowed = has_code-encode_bytes is_disallowed (utf8.as_bytes value) refl bytes;
      no_dot_dot = rw one (not_dots (Bool-cases (str_eq encoded "..")));
    },
    one,
  )
    where
      encoded : String
      encoded = encode_bytes (utf8.as_bytes value)

      one : split b'/' encoded ≡ encoded ∷ []
      one = no_slash-split encoded (has_code-encode_bytes is_slash (utf8.as_bytes value) refl bytes)

      not_dots :
          (str_eq encoded ".." ≡ true) ⊎ (str_eq encoded ".." ≡ false)
          → any is_dot_dot (encoded ∷ []) ≡ false
      not_dots (inr d) = rw d refl
      not_dots (inl d) =
          let v =
            dots (encode_bytes-dots (utf8.as_bytes value) bytes ((str_eq_iff encoded "..").0 d)) in
          absurd (ground (arith, e, (str_eq_iff value "..").1 v))

  -- A value that is accepted replaces its placeholder by a text without control characters, `?`, `#` and
  -- backslashes, in which no segment is `..`; for a parameter that is no wildcard it is one segment. The
  -- bytes of a text are below 256, and only the text of two dots has their bytes.
  pub sanitize_path_param-IsSafe :
      (is_wildcard : Bool) (substituted : String)
      → sanitize_path_param utf8 name value is_wildcard ≡ ok substituted
      → IsSafe substituted × (is_wildcard ≡ false → split b'/' substituted ≡ substituted ∷ [])
  unfolding sanitize_path_param
  sanitize_path_param-IsSafe true substituted e =
      let (no_control, e1) = passes (has_code is_control value) _ _ e in
      let (no_disallowed, e2) = passes (has_code is_disallowed value) _ _ e1 in
      let (no_dot_dot, e3) = passes (any is_dot_dot (split b'/' value)) _ _ e2 in
      (
        subst IsSafe (ok-injective e3) (record {
          no_control = no_control;
          no_disallowed = no_disallowed;
          no_dot_dot = no_dot_dot;
        }),
        λ f. absurd (cc f),
      )
  sanitize_path_param-IsSafe false substituted e =
      let e1 = (passes (has_code is_control value) _ _ e).1 in
      let e2 = (passes (has_code is_disallowed value) _ _ e1).1 in
      let e3 = (passes (has_code is_slash value) _ _ e2).1 in
      let (not_dots, e4) = passes (str_eq value ".." || str_eq value ".") _ _ e3 in
      let (safe, one) = encoded-IsSafe not_dots in
      subst (λ s. IsSafe s × (false ≡ false → split b'/' s ≡ s ∷ [])) (ok-injective e4)
        (safe, λ f. one)
