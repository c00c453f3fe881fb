-- ===== src/Router/Runs.antt =====
-- Runs of the router at concrete routes.
use barbacane.Common.{◌≡◌, refl, [], ◌∷◌, split, join, sort, to_uppercase}
use barbacane.Common.Assoc.{lookup as dict_lookup, insert as dict_insert}
use barbacane.Router.Path.{normalize_path, parse_path_template, parse_segment}
use barbacane.Router.Trie.{
  Router, RouteEntry, new, insert, lookup, traverse_or_create, traverse_and_match, get_static,
  entry_or_default, found, method_not_allowed, not_found,
}
use barbacane.Router.Path.{split_path}
use barbacane.Router.Matches.{first_match, all_matches, traverse_and_match-eq-first_match}
use barbacane.Router.Table.{literal, any_segment, methods_at, same_shape, methods_at-insert}
use barbacane.Router.Sound.{Justified, lookup-Justified}
use barbacane.Router.Shadowing.{static_shadows_param}

abbrev entry : RouteEntry
entry = record { operation_index = 7 }

abbrev routes : Router
routes =
    insert (insert (insert new "/users/{id}/orders" "get" entry) "/files/{path+}" "GET" entry)
      "/users/{x}" "POST" entry

normalize_example : normalize_path "/users//123//orders/" ≡ "/users/123/orders"
unfolding normalize_path
normalize_example = refl

lookup_param_example : lookup routes "/users/42/orders/" "GET" ≡ found entry (("id", "42") ∷ [])
unfolding lookup insert traverse_or_create traverse_and_match get_static entry_or_default split join
    sort to_uppercase dict_lookup dict_insert normalize_path parse_path_template parse_segment
lookup_param_example = refl

lookup_wildcard_example : lookup routes "/files/a/b/c" "GET" ≡ found entry (("path", "a/b/c") ∷ [])
unfolding lookup insert traverse_or_create traverse_and_match get_static entry_or_default split join
    sort to_uppercase dict_lookup dict_insert normalize_path parse_path_template parse_segment
lookup_wildcard_example = refl

lookup_method_example : lookup routes "/users/9" "GET" ≡ method_not_allowed ("POST" ∷ [])
unfolding lookup insert traverse_or_create traverse_and_match get_static entry_or_default split join
    sort to_uppercase dict_lookup dict_insert normalize_path parse_path_template parse_segment
lookup_method_example = refl

methods_at-insert_example :
    methods_at (literal "users" ∷ any_segment ∷ []) (insert routes "/users/{name}" "PUT" entry).root
    ≡ dict_insert "PUT" entry (methods_at (literal "users" ∷ any_segment ∷ []) routes.root)
unfolding same_shape parse_path_template parse_segment split to_uppercase
methods_at-insert_example =
    methods_at-insert routes "/users/{name}" "PUT" entry (literal "users" ∷ any_segment ∷ [])

lookup-Justified_example :
    Justified routes
      (split_path "/users//42/orders")
      "GET"
      (lookup routes "/users//42/orders" "GET")
lookup-Justified_example = lookup-Justified routes "/users//42/orders" "GET"

traverse_and_match-eq-first_match_example :
    traverse_and_match ("files" ∷ "a" ∷ []) routes.root []
    ≡ first_match [] (all_matches ("files" ∷ "a" ∷ []) routes.root)
traverse_and_match-eq-first_match_example =
    traverse_and_match-eq-first_match ("files" ∷ "a" ∷ []) routes.root []

static_shadows_param_example :
    (lookup (insert new "/a/{x}" "GET" entry) "/a/b" "GET" ≡ found entry (("x", "b") ∷ []))
    × (lookup (insert (insert new "/a/{x}" "GET" entry) "/a/b/c" "GET" entry) "/a/b" "GET"
        ≡ not_found)
unfolding parse_path_template parse_segment split
static_shadows_param_example =
    static_shadows_param "/a/{x}" "/a/b/c" "/a/b" "a" "b" "c" "x" "GET" entry entry refl refl refl
