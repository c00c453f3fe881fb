-- ===== src/Router/Insert.antt =====
-- crates/barbacane/src/router/trie.rs: what `insert` adds to the trie and what it leaves alone.
use barbacane.Common.{
  String, ◌≡◌, refl, List, [], ◌∷◌, map, some, All, lookup-insert, str_eq, str_eq_iff, str_eq_refl,
  to_uppercase, if◌then◌else◌, arith, unwrap_or,
}
use barbacane.Router.Path.{static, parse_segment, split_path, parse_path_template}
use barbacane.Router.Normalize.{split_path-normalize_path}
use barbacane.Router.Trie.{
  Node, node, StaticChildren, no_static, static_child, Router, RouteEntry, Params, empty_node,
  get_static, entry_or_default, traverse_or_create, traverse_and_match, insert_method, insert,
  lookup, answer, found,
}

pub get_static-entry_or_default :
    (k j : String) (f : Node → Node) (cs : StaticChildren)
    → get_static j (entry_or_default k f cs)
      ≡ (if str_eq k j then some (f (unwrap_or (get_static k cs) empty_node)) else get_static j cs)
unfolding get_static entry_or_default
get_static-entry_or_default k j f no_static = refl
get_static-entry_or_default k j f (static_child i n cs) =
    ground
      (arith, str_eq_iff k j, str_eq_iff i k, str_eq_iff i j, get_static-entry_or_default k j f cs)

-- The node at a path of static segments, new if it is not there.
static_node : List String → Node → Node
static_node [] n = n
static_node (name ∷ names) (node cs p w m) =
    static_node names (unwrap_or (get_static name cs) empty_node)

-- A request for a path of static segments that were just inserted ends at their node.
traverse_and_match-traverse_or_create :
    (names : List String) (f : Node → Node) (n : Node) (params : Params)
    → traverse_and_match names (traverse_or_create (map static names) f n) params
      ≡ (some (f (static_node names n)), params)
unfolding traverse_and_match traverse_or_create static_node
traverse_and_match-traverse_or_create [] f n params = refl
traverse_and_match-traverse_or_create (name ∷ names) f (node cs p w m) params = rw (
  get_static-entry_or_default name name _ cs,
  str_eq_refl name,
  traverse_and_match-traverse_or_create names f _ params,
)

abbrev pub IsStatic : String → Type 0
IsStatic path = All (λ s. parse_segment s ≡ static s) (split_path path)

map-parse_segment :
    (ss : List String)
    → All (λ s. parse_segment s ≡ static s) ss
    → map parse_segment ss ≡ map static ss
map-parse_segment [] h = refl
map-parse_segment (s ∷ ss) h = rw (h.0, map-parse_segment ss h.1)

answer-insert_method :
    (method : String) (entry : RouteEntry) (n : Node) (params : Params)
    → answer method (some (insert_method method entry n), params) ≡ found entry params
answer-insert_method method entry (node cs p w m) params = rw (
  lookup-insert (to_uppercase method) (to_uppercase method) entry m,
  str_eq_refl (to_uppercase method),
)

-- A route on a path without parameters is found under that path and method, whatever the router
-- held before, and with no parameters.
lookup-insert_static :
    (r : Router) (path method : String) (entry : RouteEntry)
    → IsStatic path
    → lookup (insert r path method entry) path method ≡ found entry []
unfolding lookup insert parse_path_template
lookup-insert_static r path method entry h =
    rw
      (
        split_path-normalize_path path,
        map-parse_segment (split_path path) h,
        traverse_and_match-traverse_or_create (split_path path) (insert_method method entry) r.root
            [],
      )
      (answer-insert_method method entry (static_node (split_path path) r.root) [])
