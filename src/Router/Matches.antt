-- ===== src/Router/Matches.antt =====
-- crates/barbacane/src/router/trie.rs: the backtracking traversal against the list of all matches.
use barbacane.Common.{
  String, ◌≡◌, refl, ◌∙◌, List, [], ◌∷◌, ◌++◌, map, Option, none, some, length, take-append, join,
}
use mathlib.Core.Path.{ap₂, fun_ext}
use mathlib.Core.List.{append_assoc, append-nil}
use barbacane.Router.Trie.{
  Node, node, ParamChild, no_param, param_child, WildcardChild, no_wildcard, wildcard_child, Params,
  Traversed, get_static, or_else, backtrack, push_param, try_static, try_param, try_wildcard,
  traverse_and_match,
}

abbrev pub Match : Type 0
Match = Node × Params

abbrev pub capture : String → String → Match → Match
capture name value (n, params) = (n, (name, value) ∷ params)

abbrev pub by_static : Option Node → (Node → List Match) → List Match
by_static none go = []
by_static (some child) go = go child

abbrev pub by_param : ParamChild → String → (Node → List Match) → List Match
by_param no_param segment go = []
by_param (param_child name n) segment go = map (capture name segment) (go n)

abbrev pub by_wildcard : WildcardChild → List String → List Match
by_wildcard no_wildcard segments = []
by_wildcard (wildcard_child name n) segments = (n, (name, join "/" segments) ∷ []) ∷ []

-- Every node that a request can reach, with what is captured on the way: through a static child
-- first, then through the parameter, then through the wildcard.
unfoldable pub all_matches : List String → Node → List Match
all_matches [] n = (n, []) ∷ []
all_matches (segment ∷ rest) (node cs p w m) =
    by_static (get_static segment cs) (all_matches rest)
    ++ (by_param p segment (all_matches rest) ++ by_wildcard w (segment ∷ rest))

-- The first match, its captures behind those made before; `params` as it was if there is none.
abbrev pub first_match : Params → List Match → Traversed
first_match params [] = (none, params)
first_match params ((n, captured) ∷ ms) = (some n, params ++ captured)

or_else-first_match :
    (params : Params) (ms ns : List Match)
    → or_else (first_match params ms) (λ params'. first_match params' ns)
      ≡ first_match params (ms ++ ns)
or_else-first_match params [] ns = refl
or_else-first_match params ((n, captured) ∷ ms) ns = refl

backtrack-first_match :
    (name value : String) (params : Params) (ms : List Match)
    → backtrack (length params) (first_match (push_param name value params) ms)
      ≡ first_match params (map (capture name value) ms)
backtrack-first_match name value params [] = rw (take-append params ((name, value) ∷ []))
backtrack-first_match name value params ((n, captured) ∷ ms) =
    rw (append_assoc params ((name, value) ∷ []) captured)

try_wildcard-first_match :
    (w : WildcardChild) (segments : List String) (params : Params)
    → try_wildcard w segments params ≡ first_match params (by_wildcard w segments)
try_wildcard-first_match no_wildcard segments params = refl
try_wildcard-first_match (wildcard_child name n) segments params = refl

module _ (go : Node → Params → Traversed) (all : Node → List Match)
    (h : (n : Node) (params : Params) → go n params ≡ first_match params (all n)) where
  try_static-first_match :
      (o : Option Node) (params : Params)
      → try_static o go params ≡ first_match params (by_static o all)
  try_static-first_match none params = refl
  try_static-first_match (some child) params = h child params

  try_param-first_match :
      (p : ParamChild) (segment : String) (params : Params)
      → try_param p segment go params ≡ first_match params (by_param p segment all)
  try_param-first_match no_param segment params = refl
  try_param-first_match (param_child name n) segment params =
      rw (h n (push_param name segment params)) (backtrack-first_match name segment params (all n))

  attempts-first_match :
      (o : Option Node) (p : ParamChild) (w : WildcardChild) (segment : String)
      (segments : List String) (params : Params)
      → or_else
          (try_static o go params)
          (λ ps. or_else (try_param p segment go ps) (λ qs. try_wildcard w segments qs))
        ≡ first_match params (by_static o all ++ (by_param p segment all ++ by_wildcard w segments))
  attempts-first_match o p w segment segments params =
      ap₂ or_else (try_static-first_match o params) (
        fun_ext λ ps.
          ap₂ or_else (try_param-first_match p segment ps)
            (fun_ext λ qs. try_wildcard-first_match w segments qs)
          ∙ or_else-first_match ps (by_param p segment all) (by_wildcard w segments))
      ∙ or_else-first_match params (by_static o all)
          (by_param p segment all ++ by_wildcard w segments)

-- The traversal returns the first of all matches, and undoes every capture of a failed attempt.
pub traverse_and_match-eq-first_match :
    (segments : List String) (n : Node) (params : Params)
    → traverse_and_match segments n params ≡ first_match params (all_matches segments n)
unfolding traverse_and_match all_matches
traverse_and_match-eq-first_match [] n params = rw (append-nil params)
traverse_and_match-eq-first_match (segment ∷ rest) (node cs p w m) params =
    attempts-first_match (traverse_and_match rest) (all_matches rest)
      (traverse_and_match-eq-first_match rest) (get_static segment cs) p w segment (segment ∷ rest)
      params
