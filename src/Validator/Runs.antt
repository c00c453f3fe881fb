-- ===== src/Validator/Runs.antt =====
-- Runs of the request checks with a small schema language: a schema is a text, which accepts the values
-- that start with it.
use Prim.Native.Char.{code}
use Prim.Native.String.{[], ◌∷◌, char_at}
use barbacane.Common.{
  ℕ, arith, inl, inr, ◌-◌, ◌≡◌, refl, ◌↔◌, String, true, if◌then◌else◌, List, [], ◌∷◌, Option, none,
  some, All, split, split_once, lookup, insert,
}
use barbacane.Common.Json.{Value, string, starts_with, strip_prefix}
use barbacane.Common.Results.{ok}
use barbacane.Validator.Limits.{ValidationError2}
use barbacane.Validator.Decode.{Utf8, percent_decode, decode_bytes, hex_val}
use barbacane.Validator.Params.{Jsonschema, CompiledParam, pairs_of, validate_query_params}
use barbacane.Validator.Escapes.{nothing, plain, space, hex, percent_decode-Escapes}
use barbacane.Validator.Pollution.{AcceptedValues, values_of, validate_query_params-AcceptedValues}

abbrev printable : String
printable =
    " !\"#$%&'()*+,-./0123456789:;<=>?@ABCDEFGHIJKLMNOPQRSTUVWXYZ[\\]^_`abcdefghijklmnopqrstuvwxyz{|}~"

abbrev codes : String → List ℕ
codes [] = []
codes (c ∷ s) = code c ∷ codes s

abbrev letters : List ℕ → String
letters [] = []
letters (b ∷ bs) = char_at printable (b - 32) ∷ letters bs

abbrev pub ascii_only : Utf8
ascii_only = record { as_bytes = codes; from_utf8_lossy = letters }

abbrev as_schema : Value → Option String
as_schema (string s) = some s
as_schema _ = none

abbrev messages : String → Value → List String
messages schema (string s) = if starts_with schema s then [] else "no match" ∷ []
messages schema _ = "no text" ∷ []

abbrev pub prefixes : Jsonschema
prefixes = record { Schema = String; build = as_schema; iter_errors = messages }

abbrev no_debug : ValidationError2 → String
no_debug e = ""

abbrev page : CompiledParam prefixes
page = record { name = "page"; required = true; schema = some "a" }

accepts_one_value :
    validate_query_params prefixes ascii_only no_debug (page ∷ []) (some "x=1&page=ab%20c") ≡ ok tt
unfolding pairs_of split split_once lookup insert strip_prefix decode_bytes hex_val
accepts_one_value = refl

validate_query_params-AcceptedValues_example :
    (validate_query_params prefixes ascii_only no_debug (page ∷ []) (some "x=1&page=ab%20c")
      ≡ ok tt)
    ↔ All
        (λ p.
          AcceptedValues prefixes ascii_only no_debug p
            (values_of p.name (pairs_of prefixes ascii_only (some "x=1&page=ab%20c"))))
        (page ∷ [])
validate_query_params-AcceptedValues_example =
    validate_query_params-AcceptedValues prefixes ascii_only no_debug (page ∷ [])
      (some "x=1&page=ab%20c")

-- A space as a plus sign, an escaped slash in upper case and an escaped letter in lower case.
percent_decode-Escapes_example :
    percent_decode ascii_only "a+%2F%6a" ≡ ascii_only.from_utf8_lossy (97 ∷ 32 ∷ 47 ∷ 106 ∷ [])
percent_decode-Escapes_example =
    percent_decode-Escapes ascii_only (97 ∷ 32 ∷ 47 ∷ 106 ∷ []) "a+%2F%6a" (
      plain 97 _ _ (omega arith) (omega arith) (
        space _ _ (
          hex 2 15 _ _ _ _ (inl refl) (inr refl) (hex 6 10 _ _ _ _ (inl refl) (inl refl) nothing))))

percent_decoded : percent_decode ascii_only "a+%2F%6a" ≡ "a /j"
unfolding decode_bytes hex_val
percent_decoded = refl
