-- ===== src/Compiler/Routes/Shapes.antt =====
-- crates/barbacane-compiler/src/artifact.rs and crates/barbacane/src/router/trie.rs: the compiler's
-- normal form of a path template and the router's shape of it.
use Prim.Native.String.{[], ◌∷◌, ◌++◌ as text_append}
use Prim.Native.String.append as appending
use text.Mathlib.TextLemmas.{append_assoc}
use barbacane.Common.{String, ◌≡◌, refl, ap, ◌∙◌, false, List, [], ◌∷◌, map, All}
use barbacane.Router.Path.{parse_segment, split_path, parse_path_template}
use barbacane.Router.Table.{shape_of, template}
use barbacane.Compiler.Templates.{normalize_in, normalize_path_template}
use barbacane.Compiler.Routes.Segments.{
  Plain, fixed, one_param, rest_param, print_shape, normalize_in-char, normalize_in-fixed,
  normalize_in-one_param, normalize_in-rest_param, parse_segment-one_param,
  parse_segment-rest_param, parse_segment-fixed, append-two,
}

abbrev pub print_segment : String → String
print_segment s = print_shape (shape_of (parse_segment s))

normalize_in-Plain :
    (s : String)
    → Plain s
    → (t : String)
    → normalize_in false false (text_append s t)
      ≡ text_append (print_segment s) (normalize_in false false t)
normalize_in-Plain _ (fixed s h) t = rw (parse_segment-fixed s h) (normalize_in-fixed s t h)
normalize_in-Plain _ (one_param name h g) t = rw (parse_segment-one_param name g) (
    ap (normalize_in false false) (
      appending.cons "{" (text_append name "}") t
      ∙ ap (◌∷◌ "{") (
          append_assoc name "}" t
          ∙ ap (text_append name) (appending.cons "}" [] t ∙ ap (◌∷◌ "}") (appending.nil t))))
    ∙ normalize_in-one_param name t h g)
normalize_in-Plain _ (rest_param name h g) t = rw (parse_segment-rest_param name) (
    ap (normalize_in false false) (
      appending.cons "{" (text_append name "+}") t
      ∙ ap (◌∷◌ "{") (append_assoc name "+}" t ∙ ap (text_append name) (append-two "+" "}" t)))
    ∙ normalize_in-rest_param name t h g)

-- A path of segments, each after a slash.
abbrev pub slashed : List String → String
slashed [] = []
slashed (s ∷ ss) = "/" ∷ text_append s (slashed ss)

abbrev pub rooted : List String → String
rooted [] = "/"
rooted (s ∷ ss) = slashed (s ∷ ss)

-- A leading slash, no empty segment, and no segment that mixes text with parameters.
abbrev pub Canonical : String → Type 0
Canonical path = (path ≡ rooted (split_path path)) × All Plain (split_path path)

pub normalize_in-nil : normalize_in false false [] ≡ []
unfolding normalize_in
normalize_in-nil = refl

normalize_in-slash : normalize_in false false "/" ≡ "/"
unfolding normalize_in
normalize_in-slash = refl

normalize_in-slashed :
    (ss : List String)
    → All Plain ss
    → normalize_in false false (slashed ss) ≡ slashed (map print_segment ss)
normalize_in-slashed [] h = normalize_in-nil
normalize_in-slashed (s ∷ ss) h =
    normalize_in-char "/" (text_append s (slashed ss)) refl refl
    ∙ ap (◌∷◌ "/") (
        normalize_in-Plain s h.0 (slashed ss)
        ∙ ap (text_append (print_segment s)) (normalize_in-slashed ss h.1))

normalize_in-rooted :
    (ss : List String)
    → All Plain ss
    → normalize_in false false (rooted ss) ≡ rooted (map print_segment ss)
normalize_in-rooted [] h = normalize_in-slash
normalize_in-rooted (s ∷ ss) h = normalize_in-slashed (s ∷ ss) h

-- The compiler's normal form of a path that is written canonically is its shape in the router,
-- printed.
pub normalize_path_template-print :
    (path : String)
    → Canonical path
    → normalize_path_template path ≡ rooted (map print_shape (template path))
unfolding normalize_path_template parse_path_template
normalize_path_template-print path h =
    ap (normalize_in false false) h.0
    ∙ normalize_in-rooted (split_path path) h.1
    ∙ ap rooted (printed (split_path path))
  where
    printed :
        (ss : List String)
        → map print_segment ss ≡ map print_shape (map shape_of (map parse_segment ss))
    printed [] = refl
    printed (s ∷ ss) = ap (◌∷◌ (print_segment s)) (printed ss)
