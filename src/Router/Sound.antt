-- ===== src/Router/Sound.antt =====
-- crates/barbacane/src/router/trie.rs: every answer of `lookup` comes from a registered template
-- that fits the path.
use barbacane.Common.{
  String, ◌≡◌, ◌≢◌, refl, ap, sym, ◌∙◌, List, [], ◌∷◌, Option, none, some, All, All-append, All-map,
  All-implies, lookup as dict_lookup, to_uppercase, keys, sort, join, Option-cases, inl, inr,
}
use barbacane.Router.Path.{split_path}
use barbacane.Router.Normalize.{split_path-normalize_path}
use barbacane.Router.Trie.{
  Node, node, ParamChild, no_param, param_child, WildcardChild, no_wildcard, wildcard_child, Router,
  RouteEntry, RouteMatch, found, not_found, method_not_allowed, Params, methods, get_static,
  respond, answer, lookup, Methods,
}
use barbacane.Router.Matches.{
  Match, by_static, by_param, by_wildcard, capture, all_matches, first_match,
  traverse_and_match-eq-first_match,
}
use barbacane.Router.Table.{
  Shape, literal, any_segment, all_segments, child, param_node, wildcard_node, methods_at,
}

-- A template's shape fits the segments of a path.
abbrev pub Fits : List Shape → List String → Type 0
Fits [] [] = Unit
Fits [] (t ∷ ts) = ⊥
Fits (x ∷ xs) [] = ⊥
Fits (literal s ∷ xs) (t ∷ ts) = (s ≡ t) × Fits xs ts
Fits (any_segment ∷ xs) (t ∷ ts) = Fits xs ts
Fits (all_segments ∷ []) (t ∷ ts) = Unit
Fits (all_segments ∷ (x ∷ xs)) (t ∷ ts) = ⊥

-- What a shape captures of the segments, in order.
abbrev pub captured : List Shape → List String → List String
captured [] ts = []
captured (x ∷ xs) [] = []
captured (literal s ∷ xs) (t ∷ ts) = captured xs ts
captured (any_segment ∷ xs) (t ∷ ts) = t ∷ captured xs ts
captured (all_segments ∷ xs) (t ∷ ts) = join "/" (t ∷ ts) ∷ []

abbrev pub values : Params → List String
values [] = []
values ((name, value) ∷ ps) = value ∷ values ps

record Origin (segments : List String) (root : Node) (n : Node) (ps : Params) : Type 0 where
  shapes : List Shape
  fits : Fits shapes segments
  table : methods_at shapes root ≡ methods n
  values_eq : values ps ≡ captured shapes segments

abbrev HasOrigin : List String → Node → Match → Type 0
HasOrigin segments root (n, ps) = Origin segments root n ps

through_static :
    (n : Node) (segment : String) (rest : List String) (match : Match) (c : Node)
    → child (literal segment) n ≡ some c
    → HasOrigin rest c match
    → HasOrigin (segment ∷ rest) n match
unfolding methods_at
through_static n segment rest match c e o = record {
  shapes = literal segment ∷ o.shapes;
  fits = (refl, o.fits);
  table = rw e o.table;
  values_eq = o.values_eq;
}

through_param :
    (n : Node) (name segment : String) (rest : List String) (match : Match) (c : Node)
    → child any_segment n ≡ some c
    → HasOrigin rest c match
    → HasOrigin (segment ∷ rest) n (capture name segment match)
unfolding methods_at
through_param n name segment rest match c e o = record {
  shapes = any_segment ∷ o.shapes;
  fits = o.fits;
  table = rw e o.table;
  values_eq = ap (◌∷◌ segment) o.values_eq;
}

through_wildcard :
    (n : Node) (name segment : String) (rest : List String) (c : Node)
    → child all_segments n ≡ some c
    → HasOrigin (segment ∷ rest) n (c, (name, join "/" (segment ∷ rest)) ∷ [])
unfolding methods_at
through_wildcard n name segment rest c e = record {
  shapes = all_segments ∷ [];
  fits = tt;
  table = rw e;
  values_eq = refl;
}

by_static-HasOrigin :
    (n : Node) (segment : String) (rest : List String) (o : Option Node)
    → child (literal segment) n ≡ o
    → ((c : Node) → All (HasOrigin rest c) (all_matches rest c))
    → All (HasOrigin (segment ∷ rest) n) (by_static o (all_matches rest))
by_static-HasOrigin n segment rest none e ih = tt
by_static-HasOrigin n segment rest (some c) e ih =
    All-implies _ _ (λ match. through_static n segment rest match c e) _ (ih c)

by_param-HasOrigin :
    (n : Node) (segment : String) (rest : List String) (p : ParamChild)
    → child any_segment n ≡ param_node p
    → ((c : Node) → All (HasOrigin rest c) (all_matches rest c))
    → All (HasOrigin (segment ∷ rest) n) (by_param p segment (all_matches rest))
by_param-HasOrigin n segment rest no_param e ih = tt
by_param-HasOrigin n segment rest (param_child name c) e ih =
    All-map (HasOrigin rest c) _ (capture name segment)
      (λ match. through_param n name segment rest match c e) _ (ih c)

by_wildcard-HasOrigin :
    (n : Node) (segment : String) (rest : List String) (w : WildcardChild)
    → child all_segments n ≡ wildcard_node w
    → All (HasOrigin (segment ∷ rest) n) (by_wildcard w (segment ∷ rest))
by_wildcard-HasOrigin n segment rest no_wildcard e = tt
by_wildcard-HasOrigin n segment rest (wildcard_child name c) e =
    (through_wildcard n name segment rest c e, tt)

all_matches-HasOrigin :
    (segments : List String) (n : Node) → All (HasOrigin segments n) (all_matches segments n)
unfolding all_matches methods_at
all_matches-HasOrigin [] n = (record { shapes = []; fits = tt; table = refl; values_eq = refl }, tt)
all_matches-HasOrigin (segment ∷ rest) (node cs p w m) =
    All-append _ _ _
      (by_static-HasOrigin (node cs p w m) segment rest (get_static segment cs) refl
        (all_matches-HasOrigin rest))
      (All-append _ _ _
        (by_param-HasOrigin (node cs p w m) segment rest p refl (all_matches-HasOrigin rest))
        (by_wildcard-HasOrigin (node cs p w m) segment rest w refl))

-- A handler is found only for a template that fits the path and has an entry for the method; the
-- captured values are the segments at its parameters.
abbrev pub IsFound : Router → List String → String → RouteEntry → Params → Type 0
IsFound r segments method entry ps =
    (xs : List Shape) × Fits xs segments
    × (dict_lookup (to_uppercase method) (methods_at xs r.root) ≡ some entry)
    × (values ps ≡ captured xs segments)

-- A method is refused only for a template that fits the path and has other methods.
abbrev IsRefused : Router → List String → String → List String → Type 0
IsRefused r segments method allowed =
    (xs : List Shape) × Fits xs segments
    × (dict_lookup (to_uppercase method) (methods_at xs r.root) ≡ none)
    × (methods_at xs r.root ≢ [])
    × (allowed ≡ sort (keys (methods_at xs r.root)))

abbrev pub Justified : Router → List String → String → RouteMatch → Type 0
Justified r segments method (found entry ps) = IsFound r segments method entry ps
Justified r segments method (method_not_allowed allowed) = IsRefused r segments method allowed
Justified r segments method not_found = Unit

respond-Justified :
    (r : Router) (segments : List String) (method : String) (n : Node) (ps : Params) (m : Methods)
    → methods n ≡ m
    → Origin segments r.root n ps
    → Justified r segments method (respond (dict_lookup (to_uppercase method) m) m ps)
unfolding dict_lookup
respond-Justified r segments method n ps [] e o = tt
respond-Justified r segments method n ps (x ∷ m) e o =
    elim (Option-cases (dict_lookup (to_uppercase method) (x ∷ m))) [
      | inl absent ↦ rw absent (
        o.shapes,
        o.fits,
        rw (o.table, e) absent,
        rw (o.table, e) (λ (eq : x ∷ m ≡ []). cc),
        ap (λ t. sort (keys t)) (sym (o.table ∙ e)),
      )
      | inr (entry, present) ↦ rw present (o.shapes, o.fits, rw (o.table, e) present, o.values_eq)
    ]

first_match-Justified :
    (r : Router) (segments : List String) (method : String) (ms : List Match)
    → All (HasOrigin segments r.root) ms
    → Justified r segments method (answer method (first_match [] ms))
first_match-Justified r segments method [] h = tt
first_match-Justified r segments method ((n, ps) ∷ ms) h =
    respond-Justified r segments method n ps (methods n) refl h.0

-- `lookup` finds an entry only if some template shape that fits the path holds it under the
-- method, and the captured values are the path's segments at the shape's parameters. It reports
-- allowed methods only if they are those, sorted, of a shape that fits the path and lacks the
-- method.
pub lookup-Justified :
    (r : Router) (path method : String)
    → Justified r (split_path path) method (lookup r path method)
unfolding lookup
lookup-Justified r path method =
    rw
      (
        split_path-normalize_path path,
        traverse_and_match-eq-first_match (split_path path) r.root [],
      )
      (first_match-Justified r (split_path path) method _
        (all_matches-HasOrigin (split_path path) r.root))
