-- ===== src/Compiler/Routes/Segments.antt =====
-- crates/barbacane-compiler/src/artifact.rs and crates/barbacane/src/router/trie.rs: one
-- segment of a path template, as the compiler normalises it and as the router reads it.
use Prim.Native.Char.{Char, code}
use Prim.Native.String.{[], ◌∷◌, ◌++◌ as text_append}
use Prim.Native.String.append as appending
use text.Mathlib.TextLemmas.{append_assoc}
use barbacane.Common.{
  ℕ, String, ◌≡◌, refl, sym, ap, ◌∙◌, Bool, true, false, not, ◌&&◌, ◌==◌, [], ◌∷◌, drop_last,
  ends_with_char, starts_with_char, arith, Bool-cases, inl, inr,
}
use barbacane.Router.Path.{static, param, wildcard, parse_segment}
use barbacane.Router.Table.{Shape, literal, any_segment, all_segments}
use barbacane.Compiler.Templates.{normalize_in}

-- No character of the text has one of these codes.
abbrev pub without : ℕ → String → Bool
without k [] = true
without k (c ∷ s) = not (code c == k) && without k s

abbrev pub no_braces : String → Bool
no_braces s = without b'{' s && without b'}' s

-- A segment that is fixed, or is one parameter and nothing else.
pub data Plain : String → Type 0 where
  fixed : (s : String) → no_braces s ≡ true → Plain s
  one_param :
      (name : String)
      → no_braces name ≡ true
      → without b'+' name ≡ true
      → Plain ("{" ∷ text_append name ("}" ∷ []))
  rest_param :
      (name : String)
      → no_braces name ≡ true
      → without b'+' name ≡ true
      → Plain ("{" ∷ text_append name ("+" ∷ ("}" ∷ [])))

abbrev pub print_shape : Shape → String
print_shape (literal s) = s
print_shape any_segment = "{_}"
print_shape all_segments = "{_+}"

pub braces_parts :
    (c : Char) (s : String)
    → no_braces (c ∷ s) ≡ true
    → ((code c == b'{') ≡ false) × ((code c == b'}') ≡ false) × (no_braces s ≡ true)
braces_parts c s h = (ground (arith, h), ground (arith, h), ground (arith, h))

plus_parts :
    (c : Char) (s : String)
    → without b'+' (c ∷ s) ≡ true
    → ((code c == b'+') ≡ false) × (without b'+' s ≡ true)
plus_parts c s h = (ground (arith, h), ground (arith, h))

pub normalize_in-char :
    (c : Char) (s : String)
    → (code c == b'{') ≡ false
    → (code c == b'}') ≡ false
    → normalize_in false false (c ∷ s) ≡ c ∷ normalize_in false false s
unfolding normalize_in
normalize_in-char c s o e = elim (Bool-cases (code c == b'+')) [
  | inl q ↦ rw (o, e, q) refl
  | inr q ↦ rw (o, e, q) refl
]

normalize_in-name_char :
    (c : Char) (s : String)
    → (code c == b'{') ≡ false
    → (code c == b'}') ≡ false
    → (code c == b'+') ≡ false
    → normalize_in true false (c ∷ s) ≡ normalize_in true false s
unfolding normalize_in
normalize_in-name_char c s o e q = rw (o, e, q) refl

pub normalize_in-fixed :
    (s t : String)
    → no_braces s ≡ true
    → normalize_in false false (text_append s t) ≡ text_append s (normalize_in false false t)
normalize_in-fixed [] t h = rw (appending.nil t, appending.nil (normalize_in false false t)) refl
normalize_in-fixed (c ∷ s) t h =
    (let parts = braces_parts c s h in
      rw (appending.cons c s t, appending.cons c s (normalize_in false false t))
        (normalize_in-char c (text_append s t) parts.0 parts.1
          ∙ ap (◌∷◌ c) (normalize_in-fixed s t parts.2)))

normalize_in-name :
    (name t : String)
    → no_braces name ≡ true
    → without b'+' name ≡ true
    → normalize_in true false (text_append name t) ≡ normalize_in true false t
normalize_in-name [] t h g = rw (appending.nil t) refl
normalize_in-name (c ∷ s) t h g =
    (let parts = braces_parts c s h in
      let plus = plus_parts c s g in
      rw (appending.cons c s t) (
        normalize_in-name_char c (text_append s t) parts.0 parts.1 plus.0
        ∙ normalize_in-name s t parts.2 plus.1))

pub append-two : (c d : Char) (t : String) → text_append (c ∷ (d ∷ [])) t ≡ c ∷ (d ∷ t)
append-two c d t = rw (appending.cons c (d ∷ []) t, appending.cons d [] t, appending.nil t) refl

append-three : (c d e : Char) (t : String) → text_append (c ∷ (d ∷ (e ∷ []))) t ≡ c ∷ (d ∷ (e ∷ t))
append-three c d e t = rw (appending.cons c (d ∷ (e ∷ [])) t) (ap (◌∷◌ c) (append-two d e t))

append-four :
    (c d e f : Char) (t : String)
    → text_append (c ∷ (d ∷ (e ∷ (f ∷ [])))) t ≡ c ∷ (d ∷ (e ∷ (f ∷ t)))
append-four c d e f t =
    rw (appending.cons c (d ∷ (e ∷ (f ∷ []))) t) (ap (◌∷◌ c) (append-three d e f t))

-- A parameter and what follows it.
pub normalize_in-one_param :
    (name t : String)
    → no_braces name ≡ true
    → without b'+' name ≡ true
    → normalize_in false false ("{" ∷ text_append name ("}" ∷ t))
      ≡ text_append (print_shape any_segment) (normalize_in false false t)
unfolding normalize_in
normalize_in-one_param name t h g =
    rw (normalize_in-name name ("}" ∷ t) h g)
      (sym (append-three "{" "_" "}" (normalize_in false false t)))

pub normalize_in-rest_param :
    (name t : String)
    → no_braces name ≡ true
    → without b'+' name ≡ true
    → normalize_in false false ("{" ∷ text_append name ("+" ∷ ("}" ∷ t)))
      ≡ text_append (print_shape all_segments) (normalize_in false false t)
unfolding normalize_in
normalize_in-rest_param name t h g =
    rw (normalize_in-name name ("+" ∷ ("}" ∷ t)) h g)
      (sym (append-four "{" "_" "+" "}" (normalize_in false false t)))

starts-fixed : (s : String) → no_braces s ≡ true → starts_with_char b'{' s ≡ false
starts-fixed [] h = refl
starts-fixed (c ∷ s) h = (braces_parts c s h).0

ends-append :
    (k : ℕ) (s : String) (c : Char) → ends_with_char k (text_append s (c ∷ [])) ≡ (code c == k)
ends-append k [] c = rw (appending.nil (c ∷ [])) refl
ends-append k (d ∷ []) c = rw (appending.cons d [] (c ∷ []), appending.nil (c ∷ [])) refl
ends-append k (d ∷ (e ∷ s)) c =
    ap (ends_with_char k) (appending.cons d (e ∷ s) (c ∷ []))
    ∙ ap (λ u. ends_with_char k (d ∷ u)) (appending.cons e s (c ∷ []))
    ∙ ap (ends_with_char k) (sym (appending.cons e s (c ∷ [])))
    ∙ ends-append k (e ∷ s) c

ends_after :
    (d : Char) (s : String) (c : Char) → ends_with_char (code c) (d ∷ text_append s (c ∷ [])) ≡ true
ends_after d [] c = rw (appending.nil (c ∷ [])) (ground arith)
ends_after d (e ∷ s) c =
    ap (λ u. ends_with_char (code c) (d ∷ u)) (appending.cons e s (c ∷ []))
    ∙ ap (ends_with_char (code c)) (sym (appending.cons e s (c ∷ [])))
    ∙ ends-append (code c) (e ∷ s) c
    ∙ ground arith

drop_last-append : (s : String) (c : Char) → drop_last (text_append s (c ∷ [])) ≡ s
drop_last-append [] c = rw (appending.nil (c ∷ [])) refl
drop_last-append (d ∷ []) c = rw (appending.cons d [] (c ∷ []), appending.nil (c ∷ [])) refl
drop_last-append (d ∷ (e ∷ s)) c =
    ap drop_last (appending.cons d (e ∷ s) (c ∷ []))
    ∙ ap (λ u. drop_last (d ∷ u)) (appending.cons e s (c ∷ []))
    ∙ ap (λ u. d ∷ drop_last u) (sym (appending.cons e s (c ∷ [])))
    ∙ ap (◌∷◌ d) (drop_last-append (e ∷ s) c)

ends-without : (k : ℕ) (s : String) → without k s ≡ true → ends_with_char k s ≡ false
ends-without k [] h = refl
ends-without k (c ∷ []) h = ground (arith, h)
ends-without k (c ∷ (d ∷ s)) h = ends-without k (d ∷ s) (ground (arith, h))

-- The router reads a plain segment as the compiler's normal form prints it.
pub parse_segment-one_param :
    (name : String)
    → without b'+' name ≡ true
    → parse_segment ("{" ∷ text_append name ("}" ∷ [])) ≡ param name
unfolding parse_segment
parse_segment-one_param name g =
    rw (ends_after "{" name "}", drop_last-append name "}", ends-without b'+' name g) refl

pub parse_segment-rest_param :
    (name : String) → parse_segment ("{" ∷ text_append name ("+" ∷ ("}" ∷ []))) ≡ wildcard name
unfolding parse_segment
parse_segment-rest_param name =
    ap (λ u. parse_segment ("{" ∷ u)) (sym (suffix name))
    ∙ rw
        (
          ends_after "{" (text_append name "+") "}",
          drop_last-append (text_append name "+") "}",
          ends-append b'+' name "+",
          drop_last-append name "+",
        )
        refl
  where
    suffix : (n : String) → text_append (text_append n "+") "}" ≡ text_append n "+}"
    suffix n = append_assoc n "+" "}"

pub parse_segment-fixed : (s : String) → no_braces s ≡ true → parse_segment s ≡ static s
unfolding parse_segment
parse_segment-fixed s h = rw (starts-fixed s h) refl
