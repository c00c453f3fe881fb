-- ===== src/Router/Trie.antt =====
-- crates/barbacane/src/router/trie.rs: the trie's nodes, `insert` and `lookup`.
use barbacane.Common.{
  ℕ, String, List, [], ◌∷◌, ◌++◌, Option, none, some, if◌then◌else◌, is_empty, length, take, Dict,
  lookup as dict_lookup, insert as dict_insert, keys, str_eq, to_uppercase, sort, join,
}
use barbacane.Router.Path.{
  Segment, static, param, wildcard, split_path, parse_path_template, normalize_path,
}

pub record RouteEntry : Type 0 where
  pub operation_index : ℕ

abbrev pub Methods : Type 0
Methods = Dict RouteEntry

-- `static_children` is a map from segments to nodes, `param_child` and `wildcard_child` hold a name
-- and a node each, or nothing.
mutual
  pub data Node : Type 0 where
    node : StaticChildren → ParamChild → WildcardChild → Methods → Node

  pub data StaticChildren : Type 0 where
    no_static : StaticChildren
    static_child : String → Node → StaticChildren → StaticChildren

  pub data ParamChild : Type 0 where
    no_param : ParamChild
    param_child : String → Node → ParamChild

  pub data WildcardChild : Type 0 where
    no_wildcard : WildcardChild
    wildcard_child : String → Node → WildcardChild

-- `Node::default()`
abbrev pub empty_node : Node
empty_node = node no_static no_param no_wildcard []

abbrev pub methods : Node → Methods
methods (node cs p w m) = m

-- `static_children.get(segment)`
unfoldable pub get_static : String → StaticChildren → Option Node
get_static k no_static = none
get_static k (static_child j n cs) = if str_eq j k then some n else get_static k cs

-- `static_children.entry(name).or_default()`, changed in place by `f`.
unfoldable pub entry_or_default : String → (Node → Node) → StaticChildren → StaticChildren
entry_or_default k f no_static = static_child k (f empty_node) no_static
entry_or_default k f (static_child j n cs) =
    if str_eq j k then static_child j (f n) cs else static_child j n (entry_or_default k f cs)

-- `param_child`, created under the given name if there is none, and changed by `f`.
abbrev pub param_or_insert : String → (Node → Node) → ParamChild → ParamChild
param_or_insert name f no_param = param_child name (f empty_node)
param_or_insert name f (param_child old n) = param_child old (f n)

abbrev pub wildcard_or_insert : String → (Node → Node) → WildcardChild → WildcardChild
wildcard_or_insert name f no_wildcard = wildcard_child name (f empty_node)
wildcard_or_insert name f (wildcard_child old n) = wildcard_child old (f n)

-- `traverse_or_create`: the node that it returns by reference is changed by `f`.
unfoldable pub traverse_or_create : List Segment → (Node → Node) → Node → Node
traverse_or_create [] f n = f n
traverse_or_create (static name ∷ segments) f (node cs p w m) =
    node (entry_or_default name (traverse_or_create segments f) cs) p w m
traverse_or_create (param name ∷ segments) f (node cs p w m) =
    node cs (param_or_insert name (traverse_or_create segments f) p) w m
traverse_or_create (wildcard name ∷ segments) f (node cs p w m) =
    node cs p (wildcard_or_insert name (traverse_or_create segments f) w) m

abbrev pub insert_method : String → RouteEntry → Node → Node
insert_method method entry (node cs p w m) = node cs p w (dict_insert (to_uppercase method) entry m)

pub record Router : Type 0 where
  pub root : Node

abbrev pub new : Router
new = record { root = empty_node }

unfoldable pub insert : Router → String → String → RouteEntry → Router
insert r path method entry = record r {
  root = traverse_or_create (parse_path_template path) (insert_method method entry) r.root;
}

-- The parameters captured so far, in order.
abbrev pub Params : Type 0
Params = List (String × String)

-- What a traversal returns, and the vector `params` that it leaves.
abbrev pub Traversed : Type 0
Traversed = Option Node × Params

-- `if let Some(result) = … { return Some(result) }`, then the code that follows.
abbrev pub or_else : Traversed → (Params → Traversed) → Traversed
or_else (some n, params) rest = (some n, params)
or_else (none, params) rest = rest params

-- `params.truncate(param_len)` after a failed attempt.
abbrev pub backtrack : ℕ → Traversed → Traversed
backtrack param_len (some n, params) = (some n, params)
backtrack param_len (none, params) = (none, take param_len params)

abbrev pub push_param : String → String → Params → Params
push_param name value params = params ++ (name, value) ∷ []

-- The wildcard child is entered with no segment left, where the traversal ends at once.
abbrev pub try_wildcard : WildcardChild → List String → Params → Traversed
try_wildcard no_wildcard segments params = (none, params)
try_wildcard (wildcard_child name n) segments params =
    (some n, push_param name (join "/" segments) params)

abbrev pub try_static : Option Node → (Node → Params → Traversed) → Params → Traversed
try_static none go params = (none, params)
try_static (some child) go params = go child params

abbrev pub try_param : ParamChild → String → (Node → Params → Traversed) → Params → Traversed
try_param no_param segment go params = (none, params)
try_param (param_child name n) segment go params =
    backtrack (length params) (go n (push_param name segment params))

unfoldable pub traverse_and_match : List String → Node → Params → Traversed
traverse_and_match [] n params = (some n, params)
traverse_and_match (segment ∷ remaining) (node cs p w m) params =
    or_else (try_static (get_static segment cs) (traverse_and_match remaining) params) λ params'.
      or_else (try_param p segment (traverse_and_match remaining) params')
        λ params''. try_wildcard w (segment ∷ remaining) params''

pub data RouteMatch : Type 0 where
  found : RouteEntry → Params → RouteMatch
  method_not_allowed : List String → RouteMatch
  not_found : RouteMatch

-- The answer at a terminal node, by the entry of the method there.
abbrev pub respond : Option RouteEntry → Methods → Params → RouteMatch
respond (some entry) m params = found entry params
respond none m params = if is_empty m then not_found else method_not_allowed (sort (keys m))

-- The `match` on the traversal's result in `lookup`.
abbrev pub answer : String → Traversed → RouteMatch
answer method (none, params) = not_found
answer method (some n, params) =
    respond (dict_lookup (to_uppercase method) (methods n)) (methods n) params

unfoldable pub lookup : Router → String → String → RouteMatch
lookup r path method =
    answer method (traverse_and_match (split_path (normalize_path path)) r.root [])
