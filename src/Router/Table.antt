-- ===== src/Router/Table.antt =====
-- crates/barbacane/src/router/trie.rs: the trie as a table from template shapes to methods. Two
-- templates have one shape if they differ in the names of parameters only.
use barbacane.Common.{
  String, ◌≡◌, refl, ap, ◌∙◌, Bool, true, false, ◌&&◌, List, [], ◌∷◌, map, Option, none, some,
  insert as dict_insert, str_eq, str_eq_iff, to_uppercase, if◌then◌else◌, unwrap_or, Bool-cases,
  inl, inr,
}
use barbacane.Router.Path.{Segment, static, param, wildcard, parse_path_template}
use barbacane.Router.Trie.{
  Node, node, ParamChild, no_param, param_child, WildcardChild, no_wildcard, wildcard_child, Router,
  RouteEntry, Methods, empty_node, methods, get_static, traverse_or_create, insert_method, insert,
}
use barbacane.Router.Insert.{get_static-entry_or_default}

pub data Shape : Type 0 where
  literal : String → Shape
  any_segment : Shape
  all_segments : Shape

abbrev pub shape_of : Segment → Shape
shape_of (static name) = literal name
shape_of (param name) = any_segment
shape_of (wildcard name) = all_segments

abbrev pub template : String → List Shape
template path = map shape_of (parse_path_template path)

abbrev shape_eq : Shape → Shape → Bool
shape_eq (literal s) (literal t) = str_eq s t
shape_eq any_segment any_segment = true
shape_eq all_segments all_segments = true
shape_eq _ _ = false

unfoldable pub same_shape : List Shape → List Shape → Bool
same_shape [] [] = true
same_shape (x ∷ xs) (y ∷ ys) = shape_eq x y && same_shape xs ys
same_shape _ _ = false

abbrev pub param_node : ParamChild → Option Node
param_node no_param = none
param_node (param_child name n) = some n

abbrev pub wildcard_node : WildcardChild → Option Node
wildcard_node no_wildcard = none
wildcard_node (wildcard_child name n) = some n

abbrev pub child : Shape → Node → Option Node
child (literal s) (node cs p w m) = get_static s cs
child any_segment (node cs p w m) = param_node p
child all_segments (node cs p w m) = wildcard_node w

abbrev pub at_child : Option Node → (Node → Methods) → Methods
at_child none go = []
at_child (some n) go = go n

-- The methods that are registered under a shape.
unfoldable pub methods_at : List Shape → Node → Methods
methods_at [] n = methods n
methods_at (x ∷ xs) n = at_child (child x n) (methods_at xs)

pub methods_at-empty_node : (xs : List Shape) → methods_at xs empty_node ≡ []
unfolding methods_at get_static
methods_at-empty_node [] = refl
methods_at-empty_node (literal s ∷ xs) = refl
methods_at-empty_node (any_segment ∷ xs) = refl
methods_at-empty_node (all_segments ∷ xs) = refl

at_child-unwrap_or :
    (o : Option Node) (xs : List Shape)
    → methods_at xs (unwrap_or o empty_node) ≡ at_child o (methods_at xs)
at_child-unwrap_or none xs = methods_at-empty_node xs
at_child-unwrap_or (some n) xs = refl

module _ (method : String) (entry : RouteEntry) where
  abbrev set_method : Methods → Methods
  set_method = dict_insert (to_uppercase method) entry

  abbrev changed : Bool → Methods → Methods
  changed same m = if same then set_method m else m

  methods_at-traverse_or_create :
      (segments : List Segment) (n : Node) (xs : List Shape)
      → methods_at xs (traverse_or_create segments (insert_method method entry) n)
        ≡ changed (same_shape (map shape_of segments) xs) (methods_at xs n)
  unfolding methods_at traverse_or_create same_shape
  methods_at-traverse_or_create [] (node cs p w m) [] = refl
  methods_at-traverse_or_create [] (node cs p w m) (literal s ∷ xs) = refl
  methods_at-traverse_or_create [] (node cs p w m) (any_segment ∷ xs) = refl
  methods_at-traverse_or_create [] (node cs p w m) (all_segments ∷ xs) = refl
  methods_at-traverse_or_create (static t ∷ ss) (node cs p w m) [] = refl
  methods_at-traverse_or_create (param t ∷ ss) (node cs p w m) [] = refl
  methods_at-traverse_or_create (wildcard t ∷ ss) (node cs p w m) [] = refl
  methods_at-traverse_or_create (static t ∷ ss) (node cs p w m) (literal s ∷ xs) =
      rw (get_static-entry_or_default t s (traverse_or_create ss (insert_method method entry)) cs)
        (elim (Bool-cases (str_eq t s)) [
          | inl e ↦
              rw (e, ← (str_eq_iff t s).0 e)
                (methods_at-traverse_or_create ss (unwrap_or (get_static t cs) empty_node) xs
                  ∙ ap (changed _) (at_child-unwrap_or (get_static t cs) xs))
          | inr e ↦ rw e
        ])
  methods_at-traverse_or_create (param t ∷ ss) (node cs no_param w m) (any_segment ∷ xs) =
      methods_at-traverse_or_create ss empty_node xs ∙ ap (changed _) (methods_at-empty_node xs)
  methods_at-traverse_or_create (param t ∷ ss) (node cs (param_child o n) w m) (any_segment ∷ xs) =
      methods_at-traverse_or_create ss n xs
  methods_at-traverse_or_create (wildcard t ∷ ss) (node cs p no_wildcard m) (all_segments ∷ xs) =
      methods_at-traverse_or_create ss empty_node xs ∙ ap (changed _) (methods_at-empty_node xs)
  methods_at-traverse_or_create (wildcard t ∷ ss) (node cs p (wildcard_child o n) m)
        (all_segments ∷ xs) =
      methods_at-traverse_or_create ss n xs
  methods_at-traverse_or_create (_ ∷ ss) (node cs p w m) (_ ∷ xs) = refl

-- `insert` adds its entry to the table at the shape of its template, and changes no other shape.
pub methods_at-insert :
    (r : Router) (path method : String) (entry : RouteEntry) (xs : List Shape)
    → methods_at xs (insert r path method entry).root ≡ (
        if same_shape (template path) xs
        then dict_insert (to_uppercase method) entry (methods_at xs r.root)
        else methods_at xs r.root)
unfolding insert
methods_at-insert r path method entry xs =
    methods_at-traverse_or_create method entry (parse_path_template path) r.root xs
